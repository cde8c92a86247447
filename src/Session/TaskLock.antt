-- ===== src/Session/TaskLock.antt =====
-- nexau/archs/session/task_lock_service.py over the in-memory engine, and the lock's table
-- (models/team_task_lock.py).
pub mod Exclusion
pub mod Held
use nex_au.Prelude.{
  ℕ, ◌+◌, ◌≡◌, refl, Bool, true, false, ◌&&◌, Option, none, some, List, [], ◌∷◌, ◌++◌, ◌==◌, nat_eq,
  list_eq, ltb, leb, if◌then◌else◌,
}
use nex_au.Prelude.Results.{Result, ok, raise}
use nex_au.Prelude.Text.{Text, text}
use nex_au.Orm.{Value, null, num, str, value_eq}
use nex_au.Orm.Filters.{Filter, eq, lt, all_of, evaluate}
use nex_au.Orm.Engine.{Key, Table, EngineError, duplicate_primary_key, find_one, create, delete}

-- Whose tasks: the ids that every row of one team carries.
pub record Scope : Type 0 where
  pub user_id : Text
  pub session_id : Text
  pub team_id : Text

-- TeamTaskLockModel
pub record LockRow : Type 0 where
  pub user_id : Text
  pub session_id : Text
  pub team_id : Text
  pub task_id : Text
  pub holder_id : Text
  pub acquired_at_ns : ℕ
  pub expires_at_ns : ℕ

-- The row's columns by their names.
unfoldable pub lock_field : LockRow → Text → Value
lock_field r f =
    if f == text "user_id"
    then str r.user_id
    else if f == text "session_id"
    then str r.session_id
    else if f == text "team_id"
    then str r.team_id
    else if f == text "task_id"
    then str r.task_id
    else if f == text "holder_id"
    then str r.holder_id
    else if f == text "acquired_at_ns"
    then num r.acquired_at_ns
    else if f == text "expires_at_ns"
    then num r.expires_at_ns
    else null

abbrev pub lock_pk : LockRow → Key
lock_pk r = str r.user_id ∷ str r.session_id ∷ str r.team_id ∷ str r.task_id ∷ []

abbrev pub lock_key : Scope → Text → Key
lock_key s task = str s.user_id ∷ str s.session_id ∷ str s.team_id ∷ str task ∷ []

-- The filters of the service: the task's row, and a condition on it.
abbrev task_filters : Scope → Text → List Filter → Filter
task_filters s task more = all_of (
    eq (text "user_id") (str s.user_id)
    ∷ eq (text "session_id") (str s.session_id)
    ∷ eq (text "team_id") (str s.team_id)
    ∷ eq (text "task_id") (str task)
    ∷ more)

pub data LockError : Type 0 where
  lock_conflict : LockError
  lock_value_error : EngineError → LockError

-- The readings of `time.time_ns()` in one call of `acquire`, in this order: for `now`, in
-- `_calculate_expires_at_ns` and in `_find_valid_lock`.
pub record Readings : Type 0 where
  pub now : ℕ
  pub base : ℕ
  pub checked : ℕ

abbrev valid_at : ℕ → Option LockRow → Option LockRow
valid_at now none = none
valid_at now (some lock) = if leb lock.expires_at_ns now then none else some lock

-- `_find_valid_lock`
unfoldable pub find_valid_lock : Scope → Text → ℕ → Table LockRow → Option LockRow
find_valid_lock s task now t =
    valid_at now (find_one (λ r. evaluate (lock_field r) (task_filters s task [])) t)

abbrev pub new_lock : Scope → (task holder : Text) → ℕ → Readings → LockRow
new_lock s task holder ttl_ns at = record {
  user_id = s.user_id;
  session_id = s.session_id;
  team_id = s.team_id;
  task_id = task;
  holder_id = holder;
  acquired_at_ns = at.now;
  expires_at_ns = at.base + ttl_ns;
}

as_lock_error :
    Table LockRow × Result EngineError LockRow → Table LockRow × Result LockError LockRow
as_lock_error (t, ok r) = (t, ok r)
as_lock_error (t, raise e) = (t, raise (lock_value_error e))

-- The clean-up of an expired row, and the new row.
insert_lock : Scope → Text → LockRow → ℕ → Table LockRow → Table LockRow × Result LockError LockRow
unfolding as_lock_error
insert_lock s task new now t =
    let expired = task_filters s task (lt (text "expires_at_ns") (num now) ∷ []) in
    as_lock_error (create lock_pk new (delete (λ r. evaluate (lock_field r) expired) t).0)

acquire_after :
    Option LockRow
    → Scope
    → Text
    → LockRow
    → ℕ
    → Table LockRow
    → Table LockRow × Result LockError LockRow
acquire_after (some _) s task new now t = (t, raise lock_conflict)
acquire_after none s task new now t = insert_lock s task new now t

-- `acquire`, up to its `yield`; `ttl_ns` is `int(self._lock_ttl * 1_000_000_000)`.
unfoldable pub acquire :
    Scope
    → (task holder : Text) → ℕ
    → Readings
    → Table LockRow
    → Table LockRow × Result LockError LockRow
unfolding acquire_after insert_lock find_valid_lock
acquire s task holder ttl_ns at t =
    acquire_after (find_valid_lock s task at.checked t) s task (new_lock s task holder ttl_ns at)
      at.now t

-- The `finally` of `acquire`.
unfoldable pub release : Scope → (task holder : Text) → Table LockRow → Table LockRow
release s task holder t =
    (delete
      (λ r. evaluate (lock_field r) (task_filters s task (eq (text "holder_id") (str holder) ∷ [])))
      t).0
