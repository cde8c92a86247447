-- ===== src/Team/Samples.antt =====
-- The theorems on the task board, its slugs and the watchdog at a sample board.
use nex_au.Prelude.{
  ℕ, ◌≡◌, ◌≢◌, ◌≤◌, refl, true, false, none, some, List, [], ◌∷◌, ◌==◌, list_eq, nat_eq, arith, All,
  if◌then◌else◌,
}
use nex_au.Prelude.Results.{ok}
use nex_au.Prelude.Text.{Text, text}
use nex_au.Orm.{value_eq}
use nex_au.Orm.Filters.{evaluate}
use nex_au.Orm.Engine.{Key, create, delete, store, keep_others, find_one, update}
use nex_au.Orm.Engine.Laws.{lookup}
use nex_au.Session.TaskLock.{Scope, lock_field, find_valid_lock, acquire, release}
use nex_au.Session.TaskLock.Exclusion.{holder_row}
use nex_au.Team.Slug.{slugify}
use nex_au.Team.Slug.Safe.{IsSlug, slugify-IsSlug}
use nex_au.Team.TaskBoard.{
  TaskRow, task_pk, task_key, task_field, Board, task_blocked, Call, get_task, is_blocked,
  blocked_step, claim_body, claim_task, with_lock,
}
use nex_au.Team.TaskBoard.Claims.{row_of, IsDone, claimed, claim_task-claims}
use nex_au.Team.TaskBoard.Effects.{claim_task-raise, claim_task-frees, claim_task-once}
use nex_au.Team.TaskBoard.Listing.{list_tasks, MarkedBlocked, list_tasks-MarkedBlocked}
use nex_au.Team.TaskBoard.Creation.{NewTask, Asked, create_task, or_next, create_task-stores}
use nex_au.Team.Watchdog.{Watchdog, testing, waking, handle_all}
use nex_au.Team.Watchdog.Notices.{stop_notices}

abbrev scope : Scope
scope = record { user_id = text "u"; session_id = text "s"; team_id = text "t" }

abbrev task_row : (task status : Text) → List Text → TaskRow
task_row task status deps = record {
  user_id = text "u";
  session_id = text "s";
  team_id = text "t";
  task_id = task;
  title = text "Plan";
  description = [];
  priority = 0;
  status = status;
  dependencies = deps;
  assignee_agent_id = none;
  result_summary = none;
  deliverable_path = none;
  created_by = text "leader";
  created_at = 1;
  updated_at = 1;
}

abbrev done_row : TaskRow
done_row = task_row (text "A") (text "completed") []

abbrev open_row : TaskRow
open_row = task_row (text "B") (text "pending") (text "A" ∷ [])

abbrev stuck_row : TaskRow
stuck_row = task_row (text "C") (text "pending") (text "B" ∷ [])

abbrev board : Board
board = record {
  tasks =
      (task_pk done_row, done_row)
      ∷ (task_pk open_row, open_row)
      ∷ (task_pk stuck_row, stuck_row)
      ∷ [];
  locks = [];
}

abbrev call_at : ℕ → Call
call_at t = record {
  holder = text "h";
  ttl_ns = 30;
  at = record { now = t; base = t; checked = t };
  now = t;
}

claim_task-claims_example :
    (r : TaskRow) × (row_of scope (text "B") board.tasks ≡ some r)
    × (r.assignee_agent_id ≡ none)
    × All (IsDone scope board.tasks) r.dependencies
    × (lookup task_pk
          (task_key scope (text "B"))
          (claim_task scope (text "B") (text "w") (call_at 5) board).0.tasks
        ≡ (if task_key scope (text "B") == task_key scope (text "B")
            then some (claimed (text "w") 5 r)
            else row_of scope (text "B") board.tasks))
unfolding claim_task with_lock claim_body get_task is_blocked blocked_step acquire release
    find_valid_lock evaluate lock_field task_field create delete store keep_others find_one update
claim_task-claims_example =
    claim_task-claims scope (text "B") (text "w") (call_at 5) board (task_key scope (text "B"))
      (refl, refl, (refl, refl, (refl, refl, tt))) refl

claim_task-once_example :
    (claim_task scope
      (text "B")
      (text "v")
      (call_at 90)
      (claim_task scope (text "B") (text "w") (call_at 5) board).0).1
    ≢ ok tt
unfolding claim_task with_lock claim_body get_task is_blocked blocked_step acquire release
    find_valid_lock evaluate lock_field task_field create delete store keep_others find_one update
claim_task-once_example =
    claim_task-once scope (text "B") (text "w") (text "v") (call_at 5) (call_at 90) board
      (refl, refl, (refl, refl, (refl, refl, tt))) refl

claim_task-raise_example :
    (claim_task scope (text "C") (text "w") (call_at 5) board).0.tasks ≡ board.tasks
unfolding claim_task with_lock claim_body get_task is_blocked blocked_step acquire release
    find_valid_lock evaluate lock_field task_field create delete store keep_others find_one update
claim_task-raise_example =
    claim_task-raise scope (text "C") (text "w") (call_at 5) board {e = task_blocked (text "C")}
      refl

claim_task-frees_example :
    holder_row scope (text "C") (claim_task scope (text "C") (text "w") (call_at 5) board).0.locks
    ≡ none
unfolding acquire find_valid_lock evaluate lock_field create delete store keep_others find_one
claim_task-frees_example = claim_task-frees scope (text "C") (text "w") (call_at 5) board tt refl

list_tasks-MarkedBlocked_example :
    All MarkedBlocked (list_tasks scope (some (text "pending")) board.tasks)
list_tasks-MarkedBlocked_example =
    list_tasks-MarkedBlocked scope (text "pending") board.tasks (λ p. cc)

abbrev draft : NewTask
draft = record {
  title = text "Next";
  description = [];
  priority = 1;
  dependencies = text "Z" ∷ [];
  created_by = text "leader";
  task_id = some (text "D");
}

create_task-stores_example :
    (r : TaskRow) × Asked (λ s. s) scope draft 9 board r
    × ((k : Key)
        → lookup task_pk k (create_task (λ s. s) scope draft 9 board).0.tasks
          ≡ (if task_key scope (text "D") == k then some r else lookup task_pk k board.tasks))
unfolding or_next
create_task-stores_example =
    create_task-stores (λ s. s) scope draft 9 board (refl, refl, (refl, refl, (refl, refl, tt)))
      refl

slugify-IsSlug_example : IsSlug 8 (slugify (λ s. s) 8 (text "../etc: passwd!"))
slugify-IsSlug_example = slugify-IsSlug (λ s. s) 8 (text "../etc: passwd!") (omega arith)

abbrev watchdog : Watchdog
watchdog = record {
  start_times = (text "w", 1) ∷ [];
  stopped = false;
  idle_notified = false;
  wired = true;
  asleep = false;
  notices = 0;
}

stop_notices_example :
    (handle_all
      (waking true ∷ testing ∷ waking true ∷ [])
      (record watchdog { stopped = true; asleep = true })).notices
    ≤ 1
stop_notices_example =
    stop_notices (waking true ∷ testing ∷ waking true ∷ [])
      (record watchdog { stopped = true; asleep = true }) refl
