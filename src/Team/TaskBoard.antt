-- ===== src/Team/TaskBoard.antt =====
-- nexau/archs/main_sub/team/task_board.py over the in-memory engine: the tasks of a team, with
-- their rows (session/models/team_task.py), under the lock of session/task_lock_service.py.
pub mod Effects
pub mod Claims
pub mod Listing
pub mod Creation
use nex_au.Prelude.{
  ℕ, suc, ◌+◌, ◌≡◌, refl, Bool, true, false, not, ◌&&◌, ◌||◌, Option, none, some, List, [], ◌∷◌,
  ◌++◌, ◌==◌, nat_eq, list_eq, contains, all, map, if◌then◌else◌,
}
use nex_au.Prelude.Results.{Result, ok, raise, Action, and_then, ◌>>=◌, ◌>>◌, pure, throw, throw_if}
use nex_au.Prelude.Text.{Text, text}
use nex_au.Orm.{Value, null, num, str, value_eq}
use nex_au.Orm.Filters.{Filter, eq, all_of, evaluate}
use nex_au.Orm.Engine.{Key, Table, EngineError, find_one, find_many, create, update, count}
use nex_au.Session.TaskLock.{Scope, LockRow, LockError, Readings, acquire, release}
use nex_au.Team.Slug.{slugify, pad_three}

-- TeamTaskModel; times are `datetime.now()` of the caller.
pub record TaskRow : Type 0 where
  pub user_id : Text
  pub session_id : Text
  pub team_id : Text
  pub task_id : Text
  pub title : Text
  pub description : Text
  pub priority : ℕ
  pub status : Text
  pub dependencies : List Text
  pub assignee_agent_id : Option Text
  pub result_summary : Option Text
  pub deliverable_path : Option Text
  pub created_by : Text
  pub created_at : ℕ
  pub updated_at : ℕ

-- TaskInfo
pub record TaskInfo : Type 0 where
  pub task_id : Text
  pub title : Text
  pub description : Text
  pub status : Text
  pub priority : ℕ
  pub dependencies : List Text
  pub assignee_agent_id : Option Text
  pub result_summary : Option Text
  pub created_by : Text
  pub is_blocked : Bool
  pub deliverable_path : Option Text

-- The columns that filters name.
unfoldable pub task_field : TaskRow → Text → Value
task_field r f =
    if f == text "user_id"
    then str r.user_id
    else if f == text "session_id"
    then str r.session_id
    else if f == text "team_id"
    then str r.team_id
    else if f == text "task_id"
    then str r.task_id
    else if f == text "status"
    then str r.status
    else null

abbrev pub task_pk : TaskRow → Key
task_pk r = str r.user_id ∷ str r.session_id ∷ str r.team_id ∷ str r.task_id ∷ []

abbrev pub task_key : Scope → Text → Key
task_key s task = str s.user_id ∷ str s.session_id ∷ str s.team_id ∷ str task ∷ []

-- `AndFilter(filters=[*self._team_filters(), …])`
abbrev pub team_filters : Scope → List Filter → Filter
team_filters s more = all_of (
    eq (text "user_id") (str s.user_id)
    ∷ eq (text "session_id") (str s.session_id)
    ∷ eq (text "team_id") (str s.team_id)
    ∷ more)

abbrev pub matches : Filter → TaskRow → Bool
matches f r = evaluate (task_field r) f

pub data BoardError : Type 0 where
  task_not_found : Text → BoardError
  task_blocked : Text → BoardError
  already_assigned : (task_id assignee : Text) → BoardError
  lock_failed : LockError → BoardError
  not_created : EngineError → BoardError

pub record Board : Type 0 where
  pub tasks : Table TaskRow
  pub locks : Table LockRow

abbrev completed : Text
completed = text "completed"

-- `_get_task`
pub found : Text → Option TaskRow → Result BoardError TaskRow
found task none = raise (task_not_found task)
found task (some r) = ok r

unfoldable pub get_task : Scope → Text → Table TaskRow → Result BoardError TaskRow
unfolding found
get_task s task t =
    found task (find_one (matches (team_filters s (eq (text "task_id") (str task) ∷ []))) t)

-- The loop of `_is_blocked`; `go` is the rest of it.
unfoldable pub blocked_step :
    Result BoardError Bool → Result BoardError TaskRow → Result BoardError Bool
blocked_step go (ok dep) = if dep.status == completed then go else ok true
blocked_step go (raise e) = raise e

unfoldable pub is_blocked : Scope → Table TaskRow → List Text → Result BoardError Bool
is_blocked s t [] = ok false
is_blocked s t (dep ∷ deps) = blocked_step (is_blocked s t deps) (get_task s dep t)

-- `_to_task_info`
pub to_task_info : TaskRow → Bool → TaskInfo
to_task_info r blocked = record {
  task_id = r.task_id;
  title = r.title;
  description = r.description;
  status = r.status;
  priority = r.priority;
  dependencies = r.dependencies;
  assignee_agent_id = r.assignee_agent_id;
  result_summary = r.result_summary;
  created_by = r.created_by;
  is_blocked = blocked;
  deliverable_path = r.deliverable_path;
}

-- A read of the tasks as an action on the board.
abbrev reads : {A : Type 0} → (Table TaskRow → Result BoardError A) → Action Board BoardError A
reads f b = (b, f b.tasks)

abbrev save : TaskRow → Action Board BoardError (Unit {0})
save r b = (record b { tasks = update task_pk r b.tasks }, ok tt)

-- `get_task_info`
pub get_task_info : Scope → Text → Action Board BoardError TaskInfo
get_task_info s task = do
  r ← reads (get_task s task)
  blocked ← reads (λ t. is_blocked s t r.dependencies)
  pure (to_task_info r blocked)

-- `async with self._lock.acquire(…)`: the body runs only if the lock is got, and the lock is given
-- back whether the body returns or raises.
locked :
    {A : Type 0}
    → (Table LockRow → Table LockRow)
    → Action Board BoardError A
    → Board
    → Table LockRow × Result LockError LockRow
    → Board × Result BoardError A
locked give_back body b (t, ok _) =
    let (b', r) = body (record b { locks = t }) in (record b' { locks = give_back b'.locks }, r)
locked give_back body b (t, raise e) = (record b { locks = t }, raise (lock_failed e))

-- One call under the lock: its holder id, the time to live and the readings of the clock.
pub record Call : Type 0 where
  pub holder : Text
  pub ttl_ns : ℕ
  pub at : Readings
  pub now : ℕ

unfoldable pub with_lock :
    {A : Type 0} → Scope → Text → Call → Action Board BoardError A → Action Board BoardError A
unfolding locked
with_lock s task c body b =
    locked (release s task c.holder) body b (acquire s task c.holder c.ttl_ns c.at b.locks)

-- `if task.assignee_agent_id is not None: raise LockConflictError(…)`
unassigned : Text → Option Text → Action Board BoardError (Unit {0})
unassigned task none = pure tt
unassigned task (some agent) = throw (already_assigned task agent)

unfoldable pub claim_body : Scope → (task assignee : Text) → ℕ → Action Board BoardError (Unit {0})
unfolding unassigned
claim_body s task assignee now = do
  r ← reads (get_task s task)
  blocked ← reads (λ t. is_blocked s t r.dependencies)
  throw_if blocked (task_blocked task)
  unassigned task r.assignee_agent_id
  save (record r {
    assignee_agent_id = some assignee;
    status = text "in_progress";
    updated_at = now;
  })

-- `claim_task`
unfoldable pub claim_task :
    Scope → (task assignee : Text) → Call → Action Board BoardError (Unit {0})
claim_task s task assignee c = with_lock s task c (claim_body s task assignee c.now)

pub release_body : Scope → Text → ℕ → Action Board BoardError (Unit {0})
release_body s task now = do
  r ← reads (get_task s task)
  save (record r { assignee_agent_id = none; status = text "pending"; updated_at = now })

-- `release_task`
pub release_task : Scope → Text → Call → Action Board BoardError (Unit {0})
release_task s task c = with_lock s task c (release_body s task c.now)

or_kept : Option Text → Option Text → Option Text
or_kept none old = old
or_kept (some new) old = some new

pub update_body :
    Scope → (task status : Text) → Option Text → ℕ → Action Board BoardError (Unit {0})
unfolding or_kept
update_body s task status summary now = do
  r ← reads (get_task s task)
  save (record r {
    status = status;
    result_summary = or_kept summary r.result_summary;
    updated_at = now;
  })

-- `update_status`
pub update_status :
    Scope → (task status : Text) → Option Text → Call → Action Board BoardError (Unit {0})
update_status s task status summary c = with_lock s task c (update_body s task status summary c.now)
