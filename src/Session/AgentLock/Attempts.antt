-- ===== src/Session/AgentLock/Attempts.antt =====
-- nexau/archs/session/agent_lock_service.py: the attempts of `acquire`, from what the other tasks
-- leave.
use nex_au.Prelude.{
  ℕ, ◌≡◌, refl, ap, ◌∙◌, inl, inr, Bool, true, false, Option, none, some, [], ◌==◌, list_eq,
  Bool-cases, beq_self, if◌then◌else◌,
}
use nex_au.Prelude.Results.{Result, ok, raise}
use nex_au.Orm.{value_eq}
use nex_au.Orm.Engine.{Key, Table, EngineError, duplicate_primary_key, has_key, create}
use nex_au.Orm.Engine.Keys.{WellKeyed, create-WellKeyed, delete-WellKeyed}
use nex_au.Orm.Engine.Laws.{lookup-create, has_key-lookup, is_some}
use nex_au.Session.AgentLock.{
  AgentLockRow, Target, agent_pk, agent_key, filtered, Clock, Others, timeout, Outcome, or_timeout,
  second_attempt, after_insert, first_attempt, after_check,
}
use nex_au.Session.AgentLock.Rows.{agent_row}

-- The other tasks use the engine, which keeps every row under its own key.
pub record KeepKeys (o : Others) : Type 0 where
  pub check_keeps :
      (t : Table AgentLockRow) → WellKeyed agent_pk t → WellKeyed agent_pk (o.after_check t)
  pub clean_keeps :
      (t : Table AgentLockRow) → WellKeyed agent_pk t → WellKeyed agent_pk (o.after_clean t)
  pub failure_keeps :
      (t : Table AgentLockRow) → WellKeyed agent_pk t → WellKeyed agent_pk (o.after_failure t)
  pub recheck_keeps :
      (t : Table AgentLockRow) → WellKeyed agent_pk t → WellKeyed agent_pk (o.after_recheck t)
  pub force_keeps :
      (t : Table AgentLockRow) → WellKeyed agent_pk t → WellKeyed agent_pk (o.after_force t)

-- A result that is a success has put `new` in the agent's row.
abbrev pub Holding : Target → AgentLockRow → Outcome → Type 0
Holding a new (t, ok r) = (r ≡ new) × (agent_row a t ≡ some new) × WellKeyed agent_pk t
Holding a new (t, raise _) = WellKeyed agent_pk t

-- The same of the engine's `create`.
abbrev Stored :
    Target → AgentLockRow → Table AgentLockRow × Result EngineError AgentLockRow → Type 0
Stored a new (t, ok r) = (r ≡ new) × (agent_row a t ≡ some new) × WellKeyed agent_pk t
Stored a new (t, raise _) = WellKeyed agent_pk t

module _ (a : Target) (new : AgentLockRow) (k : agent_pk new ≡ agent_key a) where
  create-Stored :
      (t : Table AgentLockRow) → WellKeyed agent_pk t → Stored a new (create agent_pk new t)
  unfolding create
  create-Stored t w = elim (Bool-cases (has_key (agent_pk new) t)) [
    | inl e ↦ rw e w
    | inr e ↦
        let row = lookup-create agent_pk (agent_key a) new t w e in
        let kept = create-WellKeyed agent_pk new t w in
        let own : (agent_pk new == agent_key a) ≡ true =
          ap (λ (j : Key). j == agent_key a) k ∙ beq_self (agent_key a) in
        let found = row ∙ ap (λ (b : Bool). if b then some new else agent_row a t) own in
        rw e (refl, rw e at found, rw e at kept)
  ]

  or_timeout-Holding :
      (r : Table AgentLockRow × Result EngineError AgentLockRow)
      → Stored a new r
      → Holding a new (or_timeout r)
  unfolding or_timeout
  or_timeout-Holding (t, ok r) h = h
  or_timeout-Holding (t, raise e) h = h

  module _ (o : Others) (keep : KeepKeys o) where
    second_attempt-Holding :
        (seen : Option AgentLockRow) (t : Table AgentLockRow)
        → WellKeyed agent_pk t
        → Holding a new (second_attempt o a new seen t)
    unfolding second_attempt
    second_attempt-Holding (some _) t w = w
    second_attempt-Holding none t w = or_timeout-Holding _ (
        create-Stored _ (
          keep.force_keeps _
            (delete-WellKeyed agent_pk (filtered a []) _ (keep.recheck_keeps t w))))

    after_insert-Holding :
        (rechecked : ℕ) (r : Table AgentLockRow × Result EngineError AgentLockRow)
        → Stored a new r
        → Holding a new (after_insert o a new rechecked r)
    unfolding after_insert
    after_insert-Holding n (t, ok r) h = h
    after_insert-Holding n (t, raise e) w = second_attempt-Holding _ _ (keep.failure_keeps t w)

    pub after_check-Holding :
        (at : Clock) (seen : Option AgentLockRow) (t : Table AgentLockRow)
        → WellKeyed agent_pk t
        → Holding a new (after_check o a new at seen t)
    unfolding after_check first_attempt
    after_check-Holding at (some _) t w = w
    after_check-Holding at none t w = after_insert-Holding at.rechecked _ (
        create-Stored _ (keep.clean_keeps _ (delete-WellKeyed agent_pk _ _ (keep.check_keeps t w))))

  pub create-free :
      (t : Table AgentLockRow)
      → WellKeyed agent_pk t
      → agent_row a t ≡ none
      → (create agent_pk new t).1 ≡ ok new
  unfolding create
  create-free t w e =
      let free : has_key (agent_pk new) t ≡ false =
        ap (λ (j : Key). has_key j t) k
        ∙ has_key-lookup agent_pk (agent_key a) t w
        ∙ ap is_some e in
      rw free refl

  pub create-taken :
      (t : Table AgentLockRow) {lock : AgentLockRow}
      → WellKeyed agent_pk t
      → agent_row a t ≡ some lock
      → create agent_pk new t ≡ (t, raise (duplicate_primary_key (agent_pk new)))
  unfolding create
  create-taken t w e =
      let taken : has_key (agent_pk new) t ≡ true =
        ap (λ (j : Key). has_key j t) k
        ∙ has_key-lookup agent_pk (agent_key a) t w
        ∙ ap is_some e in
      rw taken refl

  pub or_timeout-ok :
      (r : Table AgentLockRow × Result EngineError AgentLockRow)
      → r.1 ≡ ok new
      → (or_timeout r).1 ≡ ok new
  unfolding or_timeout
  or_timeout-ok (t, ok r) h = ap (elim [ ok x ↦ ok x | raise _ ↦ raise timeout ]) h
  or_timeout-ok (t, raise e) h = cc

  pub after_insert-ok :
      (o : Others) (n : ℕ) (r : Table AgentLockRow × Result EngineError AgentLockRow)
      → r.1 ≡ ok new
      → (after_insert o a new n r).1 ≡ ok new
  unfolding after_insert
  after_insert-ok o n (t, ok r) h = ap (elim [ ok x ↦ ok x | raise _ ↦ raise timeout ]) h
  after_insert-ok o n (t, raise e) h = cc
