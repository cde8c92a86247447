-- ===== src/Session/TaskLock/Exclusion.antt =====
-- nexau/archs/session/task_lock_service.py: who gets a lock, who is turned away, and who gives it
-- back.
use nex_au.Prelude.{
  ℕ, ◌<◌, ◌≡◌, refl, ap, sym, ◌∙◌, inl, inr, Bool, true, false, ◌&&◌, Option, none, some, [], ◌∷◌,
  ◌==◌, list_eq, nat_eq, arith, ltb, leb, Bool-cases, Option-cases, beq_self, if◌then◌else◌,
}
use mathlib.Core.Path.{fun_ext}
use nex_au.Prelude.Results.{Result, ok, raise}
use nex_au.Prelude.Text.{Text, text}
use nex_au.Orm.{num, str, value_eq}
use nex_au.Orm.Filters.{evaluate, eq, lt}
use nex_au.Orm.Engine.{
  Key, Table, EngineError, duplicate_primary_key, has_key, find_one, create, delete,
}
use nex_au.Orm.Engine.Keys.{WellKeyed, create-WellKeyed, delete-WellKeyed}
use nex_au.Orm.Engine.Laws.{
  lookup, by_key, lookup-create, lookup-delete_at, has_key-lookup, unless, is_some,
}
use nex_au.Session.TaskLock.{
  Scope, LockRow, lock_field, lock_pk, lock_key, task_filters, LockError, lock_conflict,
  lock_value_error, Readings, valid_at, find_valid_lock, new_lock, as_lock_error, insert_lock,
  acquire_after, acquire, release,
}

-- The filter on the four key columns is the lookup by primary key.
by_task :
    (s : Scope) (task : Text) (r : LockRow)
    → evaluate (lock_field r) (task_filters s task []) ≡ by_key lock_pk (lock_key s task) r
unfolding evaluate lock_field
by_task s task r = refl

-- A condition on a row of the task.
and_chain :
    (a b c d x : Bool)
    → (a && (b && (c && (d && true)))) ≡ true
    → (a && (b && (c && (d && (x && true))))) ≡ x
and_chain a b c d x h = ground arith

by_task_expired :
    (s : Scope) (task : Text) (now : ℕ) (r : LockRow)
    → by_key lock_pk (lock_key s task) r ≡ true
    → evaluate (lock_field r) (task_filters s task (lt (text "expires_at_ns") (num now) ∷ []))
      ≡ ltb r.expires_at_ns now
unfolding evaluate lock_field
by_task_expired s task now r h =
    and_chain (r.user_id == s.user_id) (r.session_id == s.session_id) (r.team_id == s.team_id)
      (r.task_id == task) (ltb r.expires_at_ns now) h

by_task_holder :
    (s : Scope) (task holder : Text) (r : LockRow)
    → by_key lock_pk (lock_key s task) r ≡ true
    → evaluate (lock_field r) (task_filters s task (eq (text "holder_id") (str holder) ∷ []))
      ≡ (r.holder_id == holder)
unfolding evaluate lock_field
by_task_holder s task holder r h =
    and_chain (r.user_id == s.user_id) (r.session_id == s.session_id) (r.team_id == s.team_id)
      (r.task_id == task) (r.holder_id == holder) h

-- Who holds the lock of a task, expired or not.
abbrev pub holder_row : Scope → Text → Table LockRow → Option LockRow
holder_row s task t = lookup lock_pk (lock_key s task) t

find_valid_lock-row :
    (s : Scope) (task : Text) (now : ℕ) (t : Table LockRow)
    → find_valid_lock s task now t ≡ valid_at now (holder_row s task t)
unfolding find_valid_lock
find_valid_lock-row s task now t = ap (λ p. valid_at now (find_one p t)) (fun_ext (by_task s task))

-- A row that is deleted by a condition on the task's rows.
holder_row-delete :
    (s : Scope) (task : Text) (p : LockRow → Bool) (q : LockRow → Bool) (t : Table LockRow)
    → WellKeyed lock_pk t
    → ((r : LockRow) → by_key lock_pk (lock_key s task) r ≡ true → p r ≡ q r)
    → holder_row s task (delete p t).0 ≡ unless q (holder_row s task t)
holder_row-delete s task p q t w h = lookup-delete_at lock_pk p q (lock_key s task) t w h

-- What `acquire` comes to, from the row that is there.
abbrev pub outcome : Option LockRow → Key → LockRow → Readings → Result LockError LockRow
outcome none key new at = ok new
outcome (some old) key new at =
    if ltb at.checked old.expires_at_ns
    then raise lock_conflict
    else if ltb old.expires_at_ns at.now
    then ok new
    else raise (lock_value_error (duplicate_primary_key key))

module _ (s : Scope) (task holder : Text) (ttl : ℕ) (at : Readings) (t : Table LockRow)
    (w : WellKeyed lock_pk t) where
  abbrev fresh : LockRow
  fresh = new_lock s task holder ttl at

  abbrev cleaned : Table LockRow
  cleaned =
      (delete
        (λ r.
          evaluate (lock_field r)
            (task_filters s task (lt (text "expires_at_ns") (num at.now) ∷ [])))
        t).0

  cleaned_row :
      holder_row s task cleaned ≡ unless (λ r. ltb r.expires_at_ns at.now) (holder_row s task t)
  cleaned_row =
      holder_row-delete s task _ (λ r. ltb r.expires_at_ns at.now) t w
        (by_task_expired s task at.now)

  has_key-cleaned :
      has_key (lock_key s task) cleaned
      ≡ is_some (unless (λ r. ltb r.expires_at_ns at.now) (holder_row s task t))
  has_key-cleaned =
      has_key-lookup lock_pk (lock_key s task) cleaned (delete-WellKeyed lock_pk _ t w)
      ∙ ap is_some cleaned_row

  insert_outcome : (insert_lock s task fresh at.now t).1 ≡ (
      if is_some (unless (λ r. ltb r.expires_at_ns at.now) (holder_row s task t))
      then raise (lock_value_error (duplicate_primary_key (lock_key s task)))
      else ok fresh)
  unfolding insert_lock create
  insert_outcome =
      rw has_key-cleaned
        (elim (Bool-cases
          (is_some (unless (λ r. ltb r.expires_at_ns at.now) (holder_row s task t)))) [
            | inl e ↦ rw e refl
            | inr e ↦ rw e refl
          ])

  after_outcome :
      (o : Option LockRow)
      → (insert_lock s task fresh at.now t).1 ≡ (
          if is_some (unless (λ r. ltb r.expires_at_ns at.now) o)
          then raise (lock_value_error (duplicate_primary_key (lock_key s task)))
          else ok fresh)
      → (acquire_after (valid_at at.checked o) s task fresh at.now t).1
        ≡ outcome o (lock_key s task) fresh at
  unfolding acquire_after
  after_outcome none h = h
  after_outcome (some r) h = ground arith

  -- The result of `acquire` by the row of the task that is in the table: with none, or one that
  -- expires before `now` and not after the moment when it is checked, it returns the new row; with
  -- one that expires after the moment when it is checked, it raises LockConflictError; with any
  -- other, the ValueError of the engine for a duplicate key. (Each row of the table is assumed to
  -- stand under its own key.)
  pub acquire-outcome :
      (acquire s task holder ttl at t).1 ≡ outcome (holder_row s task t) (lock_key s task) fresh at
  unfolding acquire
  acquire-outcome =
      ap (λ o. (acquire_after o s task fresh at.now t).1) (find_valid_lock-row s task at.checked t)
      ∙ after_outcome (holder_row s task t) insert_outcome

  as_lock_error_table : (r : Table LockRow × Result EngineError LockRow) → (as_lock_error r).0 ≡ r.0
  unfolding as_lock_error
  as_lock_error_table (u, ok x) = refl
  as_lock_error_table (u, raise x) = refl

  insert_table : (insert_lock s task fresh at.now t).0 ≡ (create lock_pk fresh cleaned).0
  unfolding insert_lock
  insert_table = as_lock_error_table (create lock_pk fresh cleaned)

  cleaned-WellKeyed : WellKeyed lock_pk cleaned
  cleaned-WellKeyed = delete-WellKeyed lock_pk _ t w

  insert_row :
      {r : LockRow}
      → (insert_lock s task fresh at.now t).1 ≡ ok r
      → (holder_row s task (insert_lock s task fresh at.now t).0 ≡ some fresh)
        × WellKeyed lock_pk (insert_lock s task fresh at.now t).0
  insert_row h = elim (Bool-cases (has_key (lock_key s task) cleaned)) [
    | inl e ↦ let b = sym has_key-cleaned ∙ e in let p = rw b at insert_outcome in cc (p, h)
    | inr e ↦ rw insert_table (
      lookup-create lock_pk (lock_key s task) fresh cleaned cleaned-WellKeyed e
          ∙ ap (λ (b : Bool). if b then some fresh else holder_row s task cleaned)
              (beq_self (lock_key s task)),
      create-WellKeyed lock_pk fresh cleaned cleaned-WellKeyed,
    )
  ]

  -- Where `acquire` returns, the row of the task is the new one.
  pub acquire_row :
      {r : LockRow}
      → (acquire s task holder ttl at t).1 ≡ ok r
      → (holder_row s task (acquire s task holder ttl at t).0 ≡ some fresh)
        × WellKeyed lock_pk (acquire s task holder ttl at t).0
  unfolding acquire acquire_after
  acquire_row h = elim (Option-cases (find_valid_lock s task at.checked t)) [
    | inl e ↦ rw (e, acquire_after) (insert_row (rw (e, acquire_after) at h))
    | inr (l, e) ↦ let p = rw (e, acquire_after) at h in cc p
  ]

-- A call of `acquire` that finds a valid lock raises, and changes nothing.
pub acquire-refused :
    (s : Scope) (task holder : Text) (ttl : ℕ) (at : Readings) (t : Table LockRow) {r : LockRow}
    → holder_row s task t ≡ some r
    → at.checked < r.expires_at_ns
    → acquire s task holder ttl at t ≡ (t, raise lock_conflict)
unfolding acquire acquire_after
acquire-refused s task holder ttl at t {r} e h =
    let early : leb r.expires_at_ns at.checked ≡ false = ground arith in
    rw (find_valid_lock-row s task at.checked t ∙ ap (valid_at at.checked) e, early) refl

release_row :
    (s : Scope) (task holder : Text) (t : Table LockRow)
    → WellKeyed lock_pk t
    → holder_row s task (release s task holder t)
      ≡ unless (λ r. r.holder_id == holder) (holder_row s task t)
unfolding release
release_row s task holder t w =
    holder_row-delete s task _ (λ r. r.holder_id == holder) t w (by_task_holder s task holder)

-- Leaving the critical section gives back the own lock of the caller, and with that the task is
-- free; where the row of the task has another holder, it stays. (Each row of the table is assumed
-- to stand under its own key.)
pub release-own :
    (s : Scope) (task holder : Text) (t : Table LockRow) (r : LockRow)
    → WellKeyed lock_pk t
    → holder_row s task t ≡ some r
    → holder_row s task (release s task holder t) ≡ (if r.holder_id == holder then none else some r)
release-own s task holder t r w e =
    release_row s task holder t w ∙ ap (unless (λ r. r.holder_id == holder)) e
