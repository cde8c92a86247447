-- ===== src/Session/TaskLock/Held.antt =====
-- nexau/archs/session/task_lock_service.py: a lock that is held, among the calls of other tasks.
use nex_au.Prelude.{
  ℕ, ◌+◌, ◌<◌, ◌≡◌, refl, ap, ◌∙◌, Bool, false, none, some, List, [], ◌∷◌, ◌==◌, list_eq, nat_eq,
  All, if◌then◌else◌,
}
use nex_au.Prelude.Results.{Result, ok, raise}
use nex_au.Prelude.Text.{Text}
use nex_au.Orm.Engine.{Table}
use nex_au.Orm.Engine.Keys.{WellKeyed, delete-WellKeyed}
use nex_au.Session.TaskLock.{
  Scope, LockRow, lock_pk, LockError, lock_conflict, Readings, new_lock, acquire, release,
}
use nex_au.Session.TaskLock.Exclusion.{holder_row, acquire_row, acquire-refused, release-own}

-- What happens to the lock of a task while it is held: someone calls `acquire`, or leaves a critical
-- section.
pub data Event : Type 0 where
  tries : (holder : Text) → (ttl : ℕ) → Readings → Event
  leaves : (holder : Text) → Event

-- The events in a row: the table, and the results of the calls of `acquire`.
pub happen :
    Scope
    → (task : Text) → List Event
    → Table LockRow
    → Table LockRow × List (Result LockError LockRow)
happen s task [] t = (t, [])
happen s task (tries holder ttl at ∷ es) t =
    let (u, r) = acquire s task holder ttl at t in let (v, rs) = happen s task es u in (v, r ∷ rs)
happen s task (leaves holder ∷ es) t = happen s task es (release s task holder t)

-- A call of `acquire` checks before the lock expires; who leaves is not the holder.
abbrev pub During : (holder : Text) → (expires : ℕ) → Event → Type 0
During holder expires (tries other ttl at) = at.checked < expires
During holder expires (leaves other) = (holder == other) ≡ false

release-WellKeyed :
    (s : Scope) (task other : Text) (t : Table LockRow)
    → WellKeyed lock_pk t
    → WellKeyed lock_pk (release s task other t)
unfolding release
release-WellKeyed s task other t w = delete-WellKeyed lock_pk _ t w

held_through :
    (s : Scope) (task : Text) (l : LockRow) (es : List Event) (t : Table LockRow)
    → WellKeyed lock_pk t
    → holder_row s task t ≡ some l
    → All (During l.holder_id l.expires_at_ns) es
    → All (λ r. r ≡ raise lock_conflict) (happen s task es t).1
      × (holder_row s task (happen s task es t).0 ≡ some l)
unfolding happen
held_through s task l [] t w e d = (tt, e)
held_through s task l (tries other ttl at ∷ es) t w e (early, d) =
    let (all, still) = held_through s task l es t w e d in
    rw (acquire-refused s task other ttl at t e early) ((refl, all), still)
held_through s task l (leaves other ∷ es) t w e (differs, d) =
    held_through s task l es (release s task other t) (release-WellKeyed s task other t w)
      (release-own s task other t l w e ∙ ap (λ (b : Bool). if b then none else some l) differs) d

-- While a lock is held, nobody gets it: after a successful `acquire`, whatever calls of `acquire` for
-- the task there are, by whomever and in whatever order, among others that leave critical sections of
-- the task under another holder's id: as long as each call checks before the lock expires, it raises
-- LockConflictError, and the row of the task is the first caller's lock when all is over. (Each row of the table is assumed to stand under its own
-- key.)
pub acquire-excludes :
    (s : Scope) (task holder : Text) (ttl : ℕ) (at : Readings) (t : Table LockRow) (es : List Event)
    {r : LockRow}
    → WellKeyed lock_pk t
    → (acquire s task holder ttl at t).1 ≡ ok r
    → All (During holder (at.base + ttl)) es
    → All (λ r. r ≡ raise lock_conflict) (happen s task es (acquire s task holder ttl at t).0).1
      × (holder_row s task (happen s task es (acquire s task holder ttl at t).0).0
          ≡ some (new_lock s task holder ttl at))
acquire-excludes s task holder ttl at t es w h d =
    let (row, w') = acquire_row s task holder ttl at t w h in
    held_through s task (new_lock s task holder ttl at) es (acquire s task holder ttl at t).0 w' row
      d
