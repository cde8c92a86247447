-- ===== src/Session/AgentLock.antt =====
-- nexau/archs/session/agent_lock_service.py over the in-memory engine, and the lock's table
-- (models/agent_lock.py).
pub mod Rows
pub mod Attempts
pub mod Exclusion
pub mod Heartbeat
mod Samples
use nex_au.Prelude.{
  ℕ, ◌+◌, ◌*◌, ◌≡◌, refl, Bool, true, false, ◌&&◌, Option, none, some, List, [], ◌∷◌, ◌==◌, nat_eq,
  list_eq, ltb, leb, if◌then◌else◌,
}
use nex_au.Prelude.Results.{Result, ok, raise}
use nex_au.Prelude.Text.{Text, text}
use nex_au.Orm.{Value, null, num, str, value_eq}
use nex_au.Orm.Filters.{Filter, eq, lt, all_of, evaluate}
use nex_au.Orm.Engine.{Key, Table, EngineError, find_one, create, update, delete}

-- AgentLockModel
pub record AgentLockRow : Type 0 where
  pub session_id : Text
  pub agent_id : Text
  pub user_id : Option Text
  pub run_id : Option Text
  pub holder_id : Text
  pub acquired_at_ns : ℕ
  pub expires_at_ns : ℕ

-- The columns that the service filters by.
pub agent_field : AgentLockRow → Text → Value
agent_field r f =
    if f == text "session_id"
    then str r.session_id
    else if f == text "agent_id"
    then str r.agent_id
    else if f == text "holder_id"
    then str r.holder_id
    else if f == text "expires_at_ns"
    then num r.expires_at_ns
    else null

-- Whose lock: the pair of ids that every method is given.
pub record Target : Type 0 where
  pub session_id : Text
  pub agent_id : Text

abbrev pub agent_pk : AgentLockRow → Key
agent_pk r = str r.session_id ∷ str r.agent_id ∷ []

abbrev pub agent_key : Target → Key
agent_key a = str a.session_id ∷ str a.agent_id ∷ []

abbrev pub agent_filters : Target → List Filter → Filter
agent_filters a more =
    all_of
      (eq (text "session_id") (str a.session_id) ∷ eq (text "agent_id") (str a.agent_id) ∷ more)

abbrev pub filtered : Target → List Filter → AgentLockRow → Bool
filtered a more r = evaluate (agent_field r) (agent_filters a more)

-- `__init__`, with its times in nanoseconds: `heartbeat_interval >= lock_ttl / 2` is a ValueError.
pub record Timing : Type 0 where
  pub lock_ttl : ℕ
  pub heartbeat_interval : ℕ

pub data ServiceError : Type 0 where
  interval_too_long : ServiceError

pub new_service : (lock_ttl heartbeat_interval : ℕ) → Result ServiceError Timing
new_service ttl interval =
    if leb ttl (2 * interval)
    then raise interval_too_long
    else ok (record { lock_ttl = ttl; heartbeat_interval = interval })

-- `_find_valid_lock` with its reading of the clock.
pub unexpired : ℕ → Option AgentLockRow → Option AgentLockRow
unexpired now none = none
unexpired now (some lock) = if leb lock.expires_at_ns now then none else some lock

pub find_valid_agent_lock : Target → ℕ → Table AgentLockRow → Option AgentLockRow
unfolding unexpired
find_valid_agent_lock a now t = unexpired now (find_one (filtered a []) t)

-- `is_locked`
pub is_locked : Target → ℕ → Table AgentLockRow → Bool
is_locked a now t = elim (find_valid_agent_lock a now t) [ none ↦ false | some _ ↦ true ]

-- `force_release`
pub force_release : Target → Table AgentLockRow → Table AgentLockRow × Bool
force_release a t = let (t', n) = delete (filtered a []) t in (t', ltb 0 n)

-- The readings of `time.time_ns()` in `acquire`, in this order, and the times that a lock lives.
pub record Clock : Type 0 where
  pub now : ℕ
  pub base : ℕ
  pub checked : ℕ
  pub rechecked : ℕ

-- What other tasks do to the table while `acquire` waits for the engine: behind its check, behind
-- its clean-up, behind its failure to insert, behind its second check and its second clean-up.
pub record Others : Type 0 where
  pub after_check : Table AgentLockRow → Table AgentLockRow
  pub after_clean : Table AgentLockRow → Table AgentLockRow
  pub after_failure : Table AgentLockRow → Table AgentLockRow
  pub after_recheck : Table AgentLockRow → Table AgentLockRow
  pub after_force : Table AgentLockRow → Table AgentLockRow

-- `TimeoutError`
pub data Busy : Type 0 where
  timeout : Busy

abbrev pub Outcome : Type 0
Outcome = Table AgentLockRow × Result Busy AgentLockRow

abbrev pub fresh_lock :
    Target → (user run : Option Text) → (holder : Text) → (ttl : ℕ) → Clock → AgentLockRow
fresh_lock a user run holder ttl at = record {
  session_id = a.session_id;
  agent_id = a.agent_id;
  user_id = user;
  run_id = run;
  holder_id = holder;
  acquired_at_ns = at.now;
  expires_at_ns = at.base + ttl;
}

-- The last `create`: any exception of it becomes a TimeoutError.
pub or_timeout : Table AgentLockRow × Result EngineError AgentLockRow → Outcome
or_timeout (t, ok r) = (t, ok r)
or_timeout (t, raise _) = (t, raise timeout)

-- The second attempt, where the second check found a lock or none.
second_attempt : Others → Target → AgentLockRow → Option AgentLockRow → Table AgentLockRow → Outcome
unfolding or_timeout force_release
second_attempt o a new (some _) t = (t, raise timeout)
second_attempt o a new none t =
    or_timeout (create agent_pk new (o.after_force (delete (filtered a []) (o.after_recheck t)).0))

-- Behind the first `create`. Its ValueError says "duplicate", which the handler looks for.
pub after_insert :
    Others
    → Target
    → AgentLockRow
    → ℕ
    → Table AgentLockRow × Result EngineError AgentLockRow
    → Outcome
unfolding second_attempt
after_insert o a new rechecked (t, ok r) = (t, ok r)
after_insert o a new rechecked (t, raise _) =
    let u = o.after_failure t in second_attempt o a new (find_valid_agent_lock a rechecked u) u

-- The clean-up of an expired lock, and the first `create`.
first_attempt : Others → Target → AgentLockRow → Clock → Table AgentLockRow → Outcome
unfolding after_insert
first_attempt o a new at t =
    let expired = filtered a (lt (text "expires_at_ns") (num at.now) ∷ []) in
    after_insert o a new at.rechecked
      (create agent_pk new (o.after_clean (delete expired (o.after_check t)).0))

pub after_check :
    Others → Target → AgentLockRow → Clock → Option AgentLockRow → Table AgentLockRow → Outcome
unfolding first_attempt
after_check o a new at (some _) t = (t, raise timeout)
after_check o a new at none t = first_attempt o a new at t

-- `acquire`, up to the start of its heartbeat.
pub acquire_agent :
    Others
    → Target
    → (user run : Option Text) → (holder : Text) → (ttl : ℕ) → Clock
    → Table AgentLockRow
    → Outcome
unfolding after_check
acquire_agent o a user run holder ttl at t =
    after_check o a (fresh_lock a user run holder ttl at) at (find_valid_agent_lock a at.checked t)
      t

-- One round of `_heartbeat_loop` behind its sleep; `base` is the reading of the clock. The loop goes
-- on where the result is true.
renewed : ℕ → Option AgentLockRow → Table AgentLockRow → Table AgentLockRow × Bool
renewed expires none t = (t, false)
renewed expires (some lock) t = (update agent_pk (record lock { expires_at_ns = expires }) t, true)

pub beat :
    Target → (holder : Text) → (ttl base : ℕ) → Table AgentLockRow → Table AgentLockRow × Bool
unfolding renewed
beat a holder ttl base t =
    renewed (base + ttl) (find_one (filtered a (eq (text "holder_id") (str holder) ∷ [])) t) t

-- The `finally` of `acquire`: where the holder's own lock is gone, the lock is forced open.
pub release_agent : Target → (holder : Text) → Table AgentLockRow → Table AgentLockRow
unfolding force_release
release_agent a holder t =
    let (t', deleted_count) = delete (filtered a (eq (text "holder_id") (str holder) ∷ [])) t in
    if deleted_count == 0 then (force_release a t').0 else t'
