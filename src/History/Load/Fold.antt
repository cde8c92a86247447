-- ===== src/History/Load/Fold.antt =====
-- nexau/archs/session/agent_run_action_service.py: what one more action does to the messages of the
-- log.
use nex_au.Prelude.{
  ℕ, ◌≡◌, refl, ap, ◌∙◌, inl, inr, true, false, Option, none, List, [], ◌∷◌, ◌++◌, nat_eq, list_eq,
  select, Bool-cases,
}
use nex_au.Prelude.Text.{Text}
use nex_au.History.Messages.{Message, meaningful}
use nex_au.History.Pairing.{ensure_tool_use_paired}
use nex_au.History.Log.{
  ActionKey, ActionRow, RunActionType, append, undo, replace, run_start, run_end, owned,
}
use nex_au.History.Load.{
  Scan, Visit, next, stop, undone, visit_type, visit, then_scan, scan_page, settle, start,
  apply_messages, apply_appends, load_messages,
}
use nex_au.History.Load.Pages.{Descending}
use nex_au.History.Load.Alike.{kept, SameCutoff, scan_page-Alike}
use nex_au.History.Load.Rows.{first_of, scan_rows, folded, load_messages-rows, SameFirst-newer}

-- A scan that has some actions at the end of its own.
abbrev with_appends : List ActionRow → Scan → Scan
with_appends more s = record s { appends = s.appends ++ more }

abbrev with_appends_visit : List ActionRow → Visit → Visit
with_appends_visit more (next s) = next (with_appends more s)
with_appends_visit more (stop s) = stop (with_appends more s)

module _ (first : Text → Option ℕ) (more : List ActionRow) where
  visit_type-with :
      (type : RunActionType) (r : ActionRow) (s : Scan)
      → visit_type first type r (with_appends more s)
        ≡ with_appends_visit more (visit_type first type r s)
  unfolding visit_type
  visit_type-with append r s = refl
  visit_type-with replace r s = refl
  visit_type-with undo r s = refl
  visit_type-with run_start r s = refl
  visit_type-with run_end r s = refl

  visit-with :
      (r : ActionRow) (s : Scan)
      → visit first r (with_appends more s) ≡ with_appends_visit more (visit first r s)
  unfolding visit
  visit-with r s = elim (Bool-cases (undone s.cutoff_ns r)) [
    | inl e ↦ rw e refl
    | inr e ↦ rw e (visit_type-with r.action_type r s)
  ]

  scan_page-with :
      (rows : List ActionRow) (s : Scan)
      → scan_page first rows (with_appends more s)
        ≡ with_appends_visit more (scan_page first rows s)
  unfolding scan_page then_scan
  scan_page-with [] s = refl
  scan_page-with (r ∷ rows) s =
      ap (λ v. then_scan v (scan_page first rows)) (visit-with r s)
      ∙ go (visit first r s) (λ u. scan_page-with rows u)
    where
      go :
          (v : Visit)
          → ((u : Scan)
              → scan_page first rows (with_appends more u)
                ≡ with_appends_visit more (scan_page first rows u))
          → then_scan (with_appends_visit more v) (scan_page first rows)
            ≡ with_appends_visit more (then_scan v (scan_page first rows))
      go (next u) h = h u
      go (stop u) h = refl

  kept-with :
      (v : Visit)
      → kept (settle (with_appends_visit more v))
        ≡ ((kept (settle v)).0 ++ more, (kept (settle v)).1)
  kept-with (next s) = refl
  kept-with (stop s) = refl

apply_appends-append :
    (xs ys : List ActionRow) (ms : List Message)
    → apply_appends (xs ++ ys) ms ≡ apply_appends ys (apply_appends xs ms)
unfolding apply_appends
apply_appends-append [] ys ms = refl
apply_appends-append (x ∷ xs) ys ms =
    apply_appends-append xs ys (apply_messages x.append_messages ms)

-- The messages of an agent's actions, before `load_messages` filters and completes them.
unfoldable pub fold_actions : ActionKey → List ActionRow → List Message
fold_actions key log = folded (kept (scan_rows (select (owned key) log)))

same_cutoffs : (rows : List ActionRow) → SameCutoff rows none none
same_cutoffs [] = tt
same_cutoffs (r ∷ rows) = (refl, same_cutoffs rows)

pub load_messages-fold :
    (key : ActionKey) (log : List ActionRow)
    → Descending (select (owned key) log)
    → load_messages key log ≡ ensure_tool_use_paired (meaningful (fold_actions key log))
unfolding fold_actions
load_messages-fold key log d = load_messages-rows key log d

-- The rows of other agents do not count.
pub fold_actions-foreign :
    (key : ActionKey) (r : ActionRow) (log : List ActionRow)
    → owned key r ≡ false
    → fold_actions key (r ∷ log) ≡ fold_actions key log
unfolding fold_actions
fold_actions-foreign key r log h = rw h refl

module _ (key : ActionKey) (r : ActionRow) (log : List ActionRow) (own : owned key r ≡ true)
    (d : Descending (r ∷ select (owned key) log)) where
  -- The scan of the older rows, with the new row's runs looked up.
  older_kept :
      kept
        (settle (scan_page (first_of (r ∷ select (owned key) log)) (select (owned key) log) start))
      ≡ kept (scan_rows (select (owned key) log))
  older_kept =
      scan_page-Alike _ _ (select (owned key) log) start start
        (SameFirst-newer (r ∷ []) (select (owned key) log) d)
        (same_cutoffs (select (owned key) log)) refl

  first_step :
      fold_actions key (r ∷ log)
      ≡ folded (
          kept (
            settle (
              then_scan
                (visit_type (first_of (r ∷ select (owned key) log)) r.action_type r start)
                (scan_page (first_of (r ∷ select (owned key) log)) (select (owned key) log)))))
  unfolding fold_actions scan_page visit undone
  first_step =
      let mine : select (owned key) (r ∷ log) ≡ r ∷ select (owned key) log = rw own refl in
      ap (λ rows. folded (kept (scan_rows rows))) mine

  typed :
      {type : RunActionType}
      → r.action_type ≡ type
      → fold_actions key (r ∷ log)
        ≡ folded (
            kept (
              settle (
                then_scan
                  (visit_type (first_of (r ∷ select (owned key) log)) type r start)
                  (scan_page (first_of (r ∷ select (owned key) log)) (select (owned key) log)))))
  typed e =
      first_step
      ∙ ap
          (λ type. folded (
            kept (
              settle (
                then_scan (visit_type (first_of (r ∷ select (owned key) log)) type r start)
                  (scan_page (first_of (r ∷ select (owned key) log)) (select (owned key) log))))))
          e

  -- An APPEND applies its messages to those of the log.
  pub fold_actions-append :
      r.action_type ≡ append
      → fold_actions key (r ∷ log) ≡ apply_messages r.append_messages (fold_actions key log)
  unfolding fold_actions visit_type then_scan apply_appends
  fold_actions-append type =
      typed type
      ∙ ap folded (
          ap (λ v. kept (settle v))
            (scan_page-with (first_of (r ∷ select (owned key) log)) (r ∷ [])
              (select (owned key) log) start)
          ∙ kept-with (first_of (r ∷ select (owned key) log)) (r ∷ []) _
          ∙ ap (λ k. (k.0 ++ (r ∷ []), k.1)) older_kept)
      ∙ apply_appends-append (kept (scan_rows (select (owned key) log))).0 (r ∷ []) _

  -- A REPLACE starts afresh with its messages.
  pub fold_actions-replace :
      r.action_type ≡ replace → fold_actions key (r ∷ log) ≡ apply_messages r.replace_messages []
  unfolding visit_type then_scan apply_appends
  fold_actions-replace type = typed type

  -- RUN_START and RUN_END change no messages.
  pub fold_actions-run_start :
      r.action_type ≡ run_start → fold_actions key (r ∷ log) ≡ fold_actions key log
  unfolding fold_actions visit_type then_scan
  fold_actions-run_start type = typed type ∙ ap folded older_kept

  pub fold_actions-run_end :
      r.action_type ≡ run_end → fold_actions key (r ∷ log) ≡ fold_actions key log
  unfolding fold_actions visit_type then_scan
  fold_actions-run_end type = typed type ∙ ap folded older_kept
