-- ===== src/Session/AgentLock/Exclusion.antt =====
-- nexau/archs/session/agent_lock_service.py: what `acquire` comes to, alone and among other tasks.
use nex_au.Prelude.{
  ℕ, ◌≤◌, ◌<◌, ◌≡◌, refl, ap, sym, ◌∙◌, inl, inr, Bool, Option, none, some, [], ◌∷◌, list_eq, arith,
  ltb, Bool-cases, Option-cases, if◌then◌else◌,
}
use nex_au.Prelude.Results.{Result, ok, raise}
use nex_au.Prelude.Text.{Text, text}
use nex_au.Orm.{num, value_eq}
use nex_au.Orm.Filters.{lt}
use nex_au.Orm.Engine.{Table, create, delete}
use nex_au.Orm.Engine.Keys.{WellKeyed, delete-WellKeyed}
use nex_au.Orm.Engine.Laws.{unless}
use nex_au.Session.AgentLock.{
  AgentLockRow, Target, agent_pk, filtered, Clock, Others, Busy, timeout, Outcome, fresh_lock,
  unexpired, find_valid_agent_lock, second_attempt, after_insert, first_attempt, after_check,
  acquire_agent,
}
use nex_au.Session.AgentLock.Rows.{
  agent_row, find_valid_agent_lock-row, agent_row-delete_expired, agent_row-delete_all,
}
use nex_au.Session.AgentLock.Attempts.{
  after_check-Holding, KeepKeys, Holding, create-free, create-taken, or_timeout-ok, after_insert-ok,
}

unexpired-valid :
    (now : ℕ) (lock : AgentLockRow)
    → now < lock.expires_at_ns
    → unexpired now (some lock) ≡ some lock
unfolding unexpired
unexpired-valid now lock h = ground arith

unexpired-expired :
    (now : ℕ) (lock : AgentLockRow) → lock.expires_at_ns ≤ now → unexpired now (some lock) ≡ none
unfolding unexpired
unexpired-expired now lock h = ground arith

-- No other task does anything.
abbrev pub quiet : Others
quiet = record {
  after_check = λ t. t;
  after_clean = λ t. t;
  after_failure = λ t. t;
  after_recheck = λ t. t;
  after_force = λ t. t;
}

-- What `acquire` comes to alone, from the agent's row.
abbrev pub alone : AgentLockRow → Clock → Option AgentLockRow → Result Busy AgentLockRow
alone new at none = ok new
alone new at (some lock) = if ltb at.checked lock.expires_at_ns then raise timeout else ok new

module _ (a : Target) (user run : Option Text) (holder : Text) (ttl : ℕ) (at : Clock)
    (t : Table AgentLockRow) (w : WellKeyed agent_pk t) where
  abbrev fresh : AgentLockRow
  fresh = fresh_lock a user run holder ttl at

  -- Whatever other tasks do to the table between the steps of `acquire`, as long as they keep every
  -- row under its own key: a success returns the caller's new lock and leaves it as the agent's row,
  -- and success or not, every row stands under its own key afterwards.
  pub acquire_agent-Holding :
      (o : Others) → KeepKeys o → Holding a fresh (acquire_agent o a user run holder ttl at t)
  unfolding acquire_agent
  acquire_agent-Holding o keep = after_check-Holding a fresh refl o keep at _ t w

  -- Where the agent's row is a lock that is valid when it is first checked, the call raises
  -- TimeoutError at once and changes nothing, whatever other tasks do. (Each row of the table is
  -- assumed to stand under its own key.)
  pub acquire_agent-refused :
      (o : Others) (lock : AgentLockRow)
      → agent_row a t ≡ some lock
      → at.checked < lock.expires_at_ns
      → acquire_agent o a user run holder ttl at t ≡ (t, raise timeout)
  unfolding acquire_agent after_check
  acquire_agent-refused o lock e h =
      rw
        (find_valid_agent_lock-row a at.checked t
          ∙ ap (unexpired at.checked) e
          ∙ unexpired-valid at.checked lock h)
        refl

  abbrev cleaned : Table AgentLockRow
  cleaned = (delete (filtered a (lt (text "expires_at_ns") (num at.now) ∷ [])) t).0

  cleaned-WellKeyed : WellKeyed agent_pk cleaned
  cleaned-WellKeyed = delete-WellKeyed agent_pk _ t w

  cleaned_row :
      {seen : Option AgentLockRow}
      → agent_row a t ≡ seen
      → agent_row a cleaned ≡ unless (λ r. ltb r.expires_at_ns at.now) seen
  cleaned_row e =
      agent_row-delete_expired a at.now t w ∙ ap (unless (λ r. ltb r.expires_at_ns at.now)) e

  -- Behind a first check that finds no valid lock.
  passed :
      find_valid_agent_lock a at.checked t ≡ none
      → acquire_agent quiet a user run holder ttl at t
        ≡ after_insert quiet a fresh at.rechecked (create agent_pk fresh cleaned)
  unfolding acquire_agent after_check first_attempt
  passed h = rw h refl

  first_insert :
      agent_row a cleaned ≡ none
      → (after_insert quiet a fresh at.rechecked (create agent_pk fresh cleaned)).1 ≡ ok fresh
  first_insert e =
      after_insert-ok a fresh refl quiet at.rechecked _
        (create-free a fresh refl cleaned cleaned-WellKeyed e)

  second_insert :
      (lock : AgentLockRow)
      → agent_row a cleaned ≡ some lock
      → lock.expires_at_ns ≤ at.rechecked
      → (after_insert quiet a fresh at.rechecked (create agent_pk fresh cleaned)).1 ≡ ok fresh
  unfolding after_insert second_attempt
  second_insert lock e h =
      rw
        (
          create-taken a fresh refl cleaned cleaned-WellKeyed e,
          find_valid_agent_lock-row a at.rechecked cleaned
              ∙ ap (unexpired at.rechecked) e
              ∙ unexpired-expired at.rechecked lock h,
        )
        (or_timeout-ok a fresh refl _ (
          create-free a fresh refl _
            (delete-WellKeyed agent_pk (filtered a []) cleaned cleaned-WellKeyed)
            (agent_row-delete_all a cleaned cleaned-WellKeyed)))

  after_expired :
      (lock : AgentLockRow)
      → agent_row a t ≡ some lock
      → lock.expires_at_ns ≤ at.rechecked
      → (after_insert quiet a fresh at.rechecked (create agent_pk fresh cleaned)).1 ≡ ok fresh
  after_expired lock e h = elim (Bool-cases (ltb lock.expires_at_ns at.now)) [
    | inl b ↦ first_insert (cleaned_row e ∙ ap (λ (x : Bool). if x then none else some lock) b)
    | inr b ↦
        second_insert lock (cleaned_row e ∙ ap (λ (x : Bool). if x then none else some lock) b) h
  ]

  -- Where no other task touches the table, and the clock does not go back between the two checks,
  -- `acquire` raises TimeoutError exactly where the agent's row is a lock that expires after the
  -- first check; otherwise it returns the caller's new lock: with no row, with one that the clean-up
  -- deletes, and with one that the clean-up leaves because it expires between the reading of `now`
  -- and the check. (Each row of the table is assumed to stand under its own key.)
  pub acquire_agent-outcome :
      at.checked ≤ at.rechecked
      → (acquire_agent quiet a user run holder ttl at t).1 ≡ alone fresh at (agent_row a t)
  unfolding unexpired
  acquire_agent-outcome h = elim (Option-cases (agent_row a t)) [
    | inl e ↦
        ap (λ (r : Outcome). r.1)
          (passed (find_valid_agent_lock-row a at.checked t ∙ ap (unexpired at.checked) e))
        ∙ first_insert (cleaned_row e)
        ∙ sym (ap (alone fresh at) e)
    | inr (lock, e) ↦ elim (Bool-cases (ltb at.checked lock.expires_at_ns)) [
      | inl v ↦
          ap (λ (r : Outcome). r.1) (acquire_agent-refused quiet lock e (ground arith))
          ∙ sym (ap (alone fresh at) e ∙ ap (λ (b : Bool). if b then raise timeout else ok fresh) v)
      | inr v ↦
          let gone = unexpired-expired at.checked lock (ground arith) in
          ap (λ (r : Outcome). r.1)
            (passed (find_valid_agent_lock-row a at.checked t ∙ ap (unexpired at.checked) e ∙ gone))
          ∙ after_expired lock e (ground arith)
          ∙ sym (ap (alone fresh at) e ∙ ap (λ (b : Bool). if b then raise timeout else ok fresh) v)
    ]
  ]
