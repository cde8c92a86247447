-- ===== src/History/Load/Undo.antt =====
-- nexau/archs/session/agent_run_action_service.py: what `load_messages` makes of an UNDO.
use nex_au.Prelude.{
  ℕ, ◌≡◌, ◌≢◌, refl, ap, sym, ◌∙◌, inl, inr, true, Option, none, some, List, [], ◌∷◌, ◌++◌, nat_eq,
  list_eq, select, beq_self, subst,
}
use nex_au.Prelude.Text.{Text}
use nex_au.History.Messages.{meaningful}
use nex_au.History.Pairing.{ensure_tool_use_paired}
use nex_au.History.Log.{
  ActionKey, ActionRow, undo, new_row, owned, before, first_action_ns, persist_undo,
}
use nex_au.History.Load.{
  undone, undo_target, earlier, undo_to, visit_type, visit, then_scan, scan_page, settle, start,
  load_messages,
}
use nex_au.History.Load.Pages.{Descending}
use nex_au.History.Load.Alike.{kept, Beyond, SameFirst, SameCutoff, scan_page-Alike, undone-Beyond}
use nex_au.History.Load.Rows.{
  first_of, first_action_ns-owned, scan_rows, folded, load_messages-rows, first_of-newer,
  SameFirst-newer, older_than, select_swap, Descending-behind,
}
use nex_au.History.Load.Cutoff.{scan_page-capped, kept-capped}

undo_target-some : (run_id : Text) → run_id ≢ [] → undo_target (some run_id) ≡ some run_id
unfolding undo_target
undo_target-some [] h = absurd (h refl)
undo_target-some (c ∷ cs) h = refl

no_cutoffs : (rows : List ActionRow) → SameCutoff rows none none
no_cutoffs [] = tt
no_cutoffs (r ∷ rows) = (refl, no_cutoffs rows)

-- A cutoff behind all of the rows is none.
Beyond-SameCutoff :
    (t : Option ℕ) (rows : List ActionRow) → Beyond rows t → SameCutoff rows (earlier none t) none
unfolding undone
Beyond-SameCutoff none rows b = no_cutoffs rows
Beyond-SameCutoff (some n) rows b = undone-Beyond (some n) rows b

module _ (key : ActionKey) (run_id : Text) (now : ℕ) (target : Text) (log : List ActionRow)
    (d : Descending (select (owned key) (persist_undo key run_id now target log)))
    (named : target ≢ []) where
  abbrev undo_row : ActionRow
  undo_row = record (new_row key run_id now undo) { undo_before_run_id = some target }

  abbrev mine : List ActionRow
  mine = select (owned key) log

  own_row : owned key undo_row ≡ true
  unfolding owned
  own_row = rw (beq_self key.user_id, beq_self key.session_id, beq_self key.agent_id) refl

  undo_rows : select (owned key) (persist_undo key run_id now target log) ≡ undo_row ∷ mine
  unfolding persist_undo
  undo_rows = rw own_row refl

  descending : Descending (undo_row ∷ mine)
  descending = subst Descending undo_rows d

  -- The first step of the scan.
  undo_step :
      {o : Option ℕ}
      → first_of (undo_row ∷ mine) target ≡ o
      → scan_rows (undo_row ∷ mine)
        ≡ settle (
            scan_page
              (first_of (undo_row ∷ mine))
              mine
              (record start { cutoff_ns = earlier none o }))
  unfolding scan_page visit visit_type undone undo_to then_scan
  undo_step e = rw (undo_target-some target named, e) refl

  found_first :
      {c : ℕ} → first_action_ns key target log ≡ some c → first_of (undo_row ∷ mine) target ≡ some c
  found_first h = elim (first_of-newer undo_row mine target) [
    | inl e ↦ e ∙ sym (first_action_ns-owned key log target) ∙ h
    | inr (n, _) ↦ absurd (cc (n, first_action_ns-owned key log target, h))
  ]

  -- The rows before a time, in the scan of the whole log and by themselves.
  older_alone :
      (c : ℕ)
      → kept (settle (scan_page (first_of (undo_row ∷ mine)) (select (before (some c)) mine) start))
        ≡ kept (scan_rows (select (before (some c)) mine))
  older_alone c =
      let (newer, split) = older_than c mine descending.1 in
      let whole : undo_row ∷ mine ≡ (undo_row ∷ newer) ++ select (before (some c)) mine =
        ap (λ ws. undo_row ∷ ws) split in
      let same =
        SameFirst-newer (undo_row ∷ newer) (select (before (some c)) mine)
          (subst Descending whole descending) in
      let same' : SameFirst (select (before (some c)) mine) (first_of (undo_row ∷ mine))
          (first_of (select (before (some c)) mine)) =
        subst
          (λ rows.
            SameFirst (select (before (some c)) mine) (first_of rows)
              (first_of (select (before (some c)) mine)))
          (sym whole) same in
      scan_page-Alike _ _ (select (before (some c)) mine) start start same'
        (no_cutoffs (select (before (some c)) mine)) refl

  older-Descending : (c : ℕ) → Descending (select (owned key) (select (before (some c)) log))
  older-Descending c =
      let (newer, split) = older_than c mine descending.1 in
      subst Descending (select_swap (before (some c)) (owned key) log) (
        Descending-behind newer (select (before (some c)) mine)
          (subst Descending split descending.1))

  -- An UNDO of a run brings back the messages of the log before the run's first action: what
  -- `load_messages` returns with the UNDO at the end of the log is what it returns for the rows that
  -- are older than that action, whatever UNDOs and REPLACEs are among them, where no two rows of the
  -- agent have the same time.
  pub load_messages-undo :
      (c : ℕ)
      → first_action_ns key target log ≡ some c
      → load_messages key (persist_undo key run_id now target log)
        ≡ load_messages key (select (before (some c)) log)
  load_messages-undo c h =
      load_messages-rows key (persist_undo key run_id now target log) d
      ∙ ap (λ rows. ensure_tool_use_paired (meaningful (folded (kept (scan_rows rows))))) undo_rows
      ∙ ap (λ k. ensure_tool_use_paired (meaningful (folded k)))
          (ap kept (
              undo_step (found_first h)
              ∙ ap settle (scan_page-capped (first_of (undo_row ∷ mine)) c mine start))
            ∙ kept-capped (first_of (undo_row ∷ mine)) c
                (scan_page (first_of (undo_row ∷ mine)) (select (before (some c)) mine) start)
            ∙ older_alone c)
      ∙ ap (λ rows. ensure_tool_use_paired (meaningful (folded (kept (scan_rows rows)))))
          (select_swap (before (some c)) (owned key) log)
      ∙ sym (load_messages-rows key (select (before (some c)) log) (older-Descending c))

  -- The time that the scan looks up for a run that the log does not have is none, or the UNDO's own.
  missing_first :
      first_action_ns key target log ≡ none → Beyond mine (first_of (undo_row ∷ mine) target)
  missing_first h = elim (first_of-newer undo_row mine target) [
    | inl e ↦ subst (Beyond mine) (sym (e ∙ sym (first_action_ns-owned key log target) ∙ h)) tt
    | inr (n, e) ↦ subst (Beyond mine) (sym e) descending.0
  ]

  -- An UNDO of a run that the agent's log does not have changes nothing, where no two rows of the
  -- agent have the same time.
  pub load_messages-undo_missing :
      first_action_ns key target log ≡ none
      → load_messages key (persist_undo key run_id now target log) ≡ load_messages key log
  load_messages-undo_missing h =
      load_messages-rows key (persist_undo key run_id now target log) d
      ∙ ap (λ rows. ensure_tool_use_paired (meaningful (folded (kept (scan_rows rows))))) undo_rows
      ∙ ap (λ k. ensure_tool_use_paired (meaningful (folded k)))
          (ap kept (undo_step refl)
            ∙ scan_page-Alike _ _ mine _ start (SameFirst-newer (undo_row ∷ []) mine descending)
                (Beyond-SameCutoff (first_of (undo_row ∷ mine) target) mine (missing_first h)) refl)
      ∙ sym (load_messages-rows key log descending.1)
