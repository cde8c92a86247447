-- ===== src/History/Load/Persist.antt =====
-- nexau/archs/session/agent_run_action_service.py: the messages of the log behind `persist_append` and
-- `persist_replace`.
use nex_au.Prelude.{
  append-nil, ℕ, ◌<◌, ◌≡◌, refl, ap, sym, ◌∙◌, inl, inr, true, false, not, Option, List, [], ◌∷◌,
  ◌++◌, nat_eq, list_eq, option_eq, select, All, All-select, Bool-cases, beq_self,
}
use nex_au.Prelude.Text.{Text}
use nex_au.History.Messages.{Message, is_system, is_reasoning_only, meaningful, non_system}
use nex_au.History.Log.{
  ActionKey, ActionRow, append, replace, new_row, owned, taken, create_once, append_rest,
  replace_rest, persist_append, persist_replace,
}
use nex_au.History.Load.Pages.{Descending}
use nex_au.History.Load.Fold.{fold_actions, fold_actions-append, fold_actions-replace}
use nex_au.History.Load.Apply.{
  DistinctIds, NonSystem, NewIds, apply_messages-new, DistinctIds-select,
}

pub non_system-NonSystem : (ms : List Message) → NonSystem (non_system ms)
unfolding non_system
non_system-NonSystem [] = tt
non_system-NonSystem (m ∷ ms) = elim (Bool-cases (is_system m.role)) [
  | inl e ↦ rw e (non_system-NonSystem ms)
  | inr e ↦ rw e (e, non_system-NonSystem ms)
]

pub non_system-all : (ms : List Message) → NonSystem ms → non_system ms ≡ ms
unfolding non_system
non_system-all [] h = refl
non_system-all (m ∷ ms) h = rw (h.0, non_system-all ms h.1) refl

all_new : (ys : List Message) → NewIds [] ys
all_new [] = tt
all_new (y ∷ ys) = (refl, all_new ys)

module _ (key : ActionKey) (run_id : Text) (now : ℕ) (log : List ActionRow)
    (d : Descending (select (owned key) log))
    (later : All (λ r. r.created_at_ns < now) (select (owned key) log)) where
  own_append :
      (ms : List Message) (k : Option Text)
      → owned key
          (record (new_row key run_id now append) { append_messages = ms; idempotency_key = k })
        ≡ true
  unfolding owned
  own_append ms k = rw (beq_self key.user_id, beq_self key.session_id, beq_self key.agent_id) refl

  own_replace :
      (ms : List Message)
      → owned key (record (new_row key run_id now replace) { replace_messages = ms }) ≡ true
  unfolding owned
  own_replace ms = rw (beq_self key.user_id, beq_self key.session_id, beq_self key.agent_id) refl

  append_rest-fold :
      (k : Option Text) (ms : List Message)
      → taken k log ≡ false
      → NonSystem ms
      → DistinctIds ms
      → NewIds (fold_actions key log) ms
      → Descending (select (owned key) (append_rest key run_id now k ms log).0)
        × (fold_actions key (append_rest key run_id now k ms log).0 ≡ fold_actions key log ++ ms)
  unfolding append_rest create_once
  append_rest-fold k [] free s x n = (d, sym (append-nil (fold_actions key log)))
  append_rest-fold k (m ∷ ms) free s x n =
      let row = record (new_row key run_id now append) {
        append_messages = m ∷ ms;
        idempotency_key = k;
      } in
      rw free (
        rw (own_append (m ∷ ms) k) (later, d),
        fold_actions-append key row log (own_append (m ∷ ms) k) (later, d) refl
            ∙ apply_messages-new (m ∷ ms) (fold_actions key log) s x n,
      )

  -- Behind an APPEND.
  pub persist_append-fold :
      (k : Option Text) (ms : List Message)
      → taken k log ≡ false
      → NonSystem ms
      → DistinctIds ms
      → NewIds (fold_actions key log) (meaningful ms)
      → Descending (select (owned key) (persist_append key run_id now k ms log).0)
        × (fold_actions key (persist_append key run_id now k ms log).0
            ≡ fold_actions key log ++ meaningful ms)
  unfolding persist_append meaningful
  persist_append-fold k ms free s x n = rw (non_system-all ms s) (
      append_rest-fold k (meaningful ms) free
        (All-select (λ m. is_system m.role ≡ false) (λ m. not (is_reasoning_only m)) ms s)
        (DistinctIds-select (λ m. not (is_reasoning_only m)) ms x) n)

  replace_rest-fold :
      (m : Message) (ms : List Message)
      → NonSystem (m ∷ ms)
      → DistinctIds (m ∷ ms)
      → Descending (select (owned key) (replace_rest key run_id now (m ∷ ms) log).0)
        × (fold_actions key (replace_rest key run_id now (m ∷ ms) log).0 ≡ m ∷ ms)
  unfolding replace_rest
  replace_rest-fold m ms s x =
      let row = record (new_row key run_id now replace) { replace_messages = m ∷ ms } in
      (
        rw (own_replace (m ∷ ms)) (later, d),
        fold_actions-replace key row log (own_replace (m ∷ ms)) (later, d) refl
            ∙ apply_messages-new (m ∷ ms) [] s x (all_new (m ∷ ms)),
      )

  -- Behind a REPLACE.
  pub persist_replace-fold :
      (m : Message) (ms : List Message)
      → NonSystem (m ∷ ms)
      → DistinctIds (m ∷ ms)
      → Descending (select (owned key) (persist_replace key run_id now (m ∷ ms) log).0)
        × (fold_actions key (persist_replace key run_id now (m ∷ ms) log).0 ≡ m ∷ ms)
  unfolding persist_replace
  persist_replace-fold m ms s x = rw (non_system-all (m ∷ ms) s) (replace_rest-fold m ms s x)

-- `persist_replace` leaves the system's messages out.
pub persist_replace-non_system :
    (key : ActionKey) (run_id : Text) (now : ℕ) (ms : List Message) (log : List ActionRow)
    → persist_replace key run_id now ms log ≡ persist_replace key run_id now (non_system ms) log
unfolding persist_replace
persist_replace-non_system key run_id now ms log =
    ap (λ ws. replace_rest key run_id now ws log)
      (sym (non_system-all (non_system ms) (non_system-NonSystem ms)))
