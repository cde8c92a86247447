-- ===== src/Team/TaskBoard/Creation.antt =====
-- nexau/archs/main_sub/team/task_board.py: `create_task`, and what it does to the board, also where
-- it raises.
use nex_au.Prelude.{
  ℕ, ◌+◌, ◌≡◌, refl, ap, ◌∙◌, Bool, true, false, Option, none, some, List, [], ◌∷◌, ◌++◌, ◌==◌,
  nat_eq, list_eq, if◌then◌else◌,
}
use nex_au.Prelude.Results.{Result, ok, raise, Action, and_then, ◌>>=◌, pure}
use nex_au.Prelude.Text.{Text, text}
use nex_au.Orm.{value_eq}
use nex_au.Orm.Engine.{Key, Table, EngineError, duplicate_primary_key, has_key, create, count}
use nex_au.Orm.Engine.Keys.{WellKeyed}
use nex_au.Orm.Engine.Laws.{lookup, lookup-create}
use nex_au.Session.TaskLock.{Scope}
use nex_au.Team.Slug.{slugify, pad_three}
use nex_au.Team.TaskBoard.{
  TaskRow, TaskInfo, task_pk, task_key, team_filters, matches, BoardError, task_not_found,
  not_created, Board, found, blocked_step, is_blocked, to_task_info, reads,
}
use nex_au.Team.TaskBoard.Claims.{row_of, get_task-row}

-- `_next_task_id`
pub next_task_id : Scope → Table TaskRow → Text
next_task_id s t = text "T-" ++ pad_three (count (matches (team_filters s [])) t + 1)

-- The arguments of `create_task`.
pub record NewTask : Type 0 where
  pub title : Text
  pub description : Text
  pub priority : ℕ
  pub dependencies : List Text
  pub created_by : Text
  pub task_id : Option Text

unfoldable pub or_next : Option Text → Text → Text
or_next none next = next
or_next (some task) next = task

-- `lower` is `str.lower`, for the slug in the deliverable's path.
pub new_row : (lower : Text → Text) → Scope → NewTask → Text → ℕ → TaskRow
new_row lower s n task now = record {
  user_id = s.user_id;
  session_id = s.session_id;
  team_id = s.team_id;
  task_id = task;
  title = n.title;
  description = n.description;
  priority = n.priority;
  status = text "pending";
  dependencies = n.dependencies;
  assignee_agent_id = none;
  result_summary = none;
  deliverable_path =
      some (text ".nexau/tasks/" ++ (task ++ (b'-' ∷ (slugify lower 60 n.title ++ text ".md"))));
  created_by = n.created_by;
  created_at = now;
  updated_at = now;
}

pub inserted :
    Board → Table TaskRow × Result EngineError TaskRow → Board × Result BoardError TaskRow
inserted b (t, ok r) = (record b { tasks = t }, ok r)
inserted b (t, raise e) = (record b { tasks = t }, raise (not_created e))

-- `await self._engine.create(task)`
pub insert_row : TaskRow → Action Board BoardError TaskRow
unfolding inserted
insert_row r b = inserted b (create task_pk r b.tasks)

-- `create_task`: the row is stored before its dependencies are looked up.
pub create_task : (lower : Text → Text) → Scope → NewTask → ℕ → Action Board BoardError TaskInfo
unfolding or_next
create_task lower s n now b =
    let r = new_row lower s n (or_next n.task_id (next_task_id s b.tasks)) now in
    and_then (insert_row r b) (λ row. do
      blocked ← reads (λ t. is_blocked s t row.dependencies)
      pure (to_task_info row blocked))

-- The id that the new task gets.
abbrev pub id_of : Scope → NewTask → Board → Text
id_of s n b = or_next n.task_id (next_task_id s b.tasks)

report_state :
    (r : TaskRow) (c : Board) (q : Result BoardError Bool)
    → (and_then (c, q) (λ blocked. pure (to_task_info r blocked))).0 ≡ c
report_state r c (ok x) = refl
report_state r c (raise e) = refl

module _ (lower : Text → Text) (s : Scope) (n : NewTask) (now : ℕ) (b : Board) where
  abbrev row : TaskRow
  row = new_row lower s n (id_of s n b) now

  insert_free :
      has_key (task_key s (id_of s n b)) b.tasks ≡ false
      → insert_row row b ≡ (record b { tasks = (create task_pk row b.tasks).0 }, ok row)
  unfolding insert_row create new_row
  insert_free h = rw h

  -- The row is a task as it is asked for, which nobody has begun.
  pub data Asked : TaskRow → Type 0 where
    asked :
        {r : TaskRow}
        → task_pk r ≡ task_key s (id_of s n b)
        → r.status ≡ text "pending"
        → r.assignee_agent_id ≡ none
        → r.result_summary ≡ none
        → r.title ≡ n.title
        → r.description ≡ n.description
        → r.priority ≡ n.priority
        → r.dependencies ≡ n.dependencies
        → r.created_by ≡ n.created_by
        → r.created_at ≡ now
        → Asked r

  create_row :
      (k : Key)
      → WellKeyed task_pk b.tasks
      → has_key (task_key s (id_of s n b)) b.tasks ≡ false
      → lookup task_pk k (create_task lower s n now b).0.tasks
        ≡ (if task_key s (id_of s n b) == k then some row else lookup task_pk k b.tasks)
  unfolding create_task new_row
  create_row k w h = rw (insert_free h) (
      ap (λ (x : Board). lookup task_pk k x.tasks)
        (report_state row (record b { tasks = (create task_pk row b.tasks).0 })
          (is_blocked s (create task_pk row b.tasks).0 n.dependencies))
      ∙ lookup-create task_pk k row b.tasks w h)

  -- A new task whose id is free is on the board when `create_task` is over: under its key, pending, with
  -- no assignee and no result, and with the title, the description, the priority, the dependencies and
  -- the creator that were asked for; and every other task is as it was, also where the call raises
  -- because a dependency is not on the board. (Each row of the table is assumed to stand under its own
  -- key.)
  pub create_task-stores :
      WellKeyed task_pk b.tasks
      → has_key (task_key s (id_of s n b)) b.tasks ≡ false
      → (r : TaskRow) × Asked r
        × ((k : Key)
            → lookup task_pk k (create_task lower s n now b).0.tasks
              ≡ (if task_key s (id_of s n b) == k then some r else lookup task_pk k b.tasks))
  unfolding new_row
  create_task-stores w h =
      (row, asked refl refl refl refl refl refl refl refl refl refl, λ k. create_row k w h)

  -- An id that is taken is refused with the engine's ValueError, and the board stays as it is.
  pub create_task-duplicate :
      has_key (task_key s (id_of s n b)) b.tasks ≡ true
      → create_task lower s n now b
        ≡ (b, raise (not_created (duplicate_primary_key (task_key s (id_of s n b)))))
  unfolding create_task insert_row create new_row
  create_task-duplicate h = rw h

  unknown :
      (t : Table TaskRow) (d : Text) (ds : List Text)
      → row_of s d t ≡ none
      → is_blocked s t (d ∷ ds) ≡ raise (task_not_found d)
  unfolding is_blocked blocked_step found
  unknown t d ds h = rw (get_task-row s d t, h)

  -- A task whose id is free and whose first dependency is neither on the board nor the task itself
  -- makes the call raise. (Each row of the table is assumed to stand under its own key.)
  create_task-unknown_dependency :
      (d : Text) (ds : List Text)
      → WellKeyed task_pk b.tasks
      → has_key (task_key s (id_of s n b)) b.tasks ≡ false
      → n.dependencies ≡ d ∷ ds
      → (task_key s (id_of s n b) == task_key s d) ≡ false
      → row_of s d b.tasks ≡ none
      → (create_task lower s n now b).1 ≡ raise (task_not_found d)
  unfolding create_task new_row
  create_task-unknown_dependency d ds w h e ne gone =
      let t = (create task_pk row b.tasks).0 in
      let absent =
        lookup-create task_pk (task_key s d) row b.tasks w h
        ∙ ap (λ (x : Bool). if x then some row else row_of s d b.tasks) ne
        ∙ gone in
      let u = ap (is_blocked s t) e ∙ unknown t d ds absent in
      rw (insert_free h) (
        ap
          (λ (q : Result BoardError Bool).
            (and_then (record b { tasks = t }, q) (λ blocked. pure (to_task_info row blocked))).1)
          u)
