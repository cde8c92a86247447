-- ===== src/Team/TaskBoard/Listing.antt =====
-- nexau/archs/main_sub/team/task_board.py: `list_tasks`, and what it says of the tasks that it lists.
use nex_au.Prelude.{
  ◌≡◌, ◌≢◌, refl, sym, ◌∙◌, inl, inr, Bool, true, false, not, ◌&&◌, Option, none, some, List, [],
  ◌∷◌, ◌==◌, nat_eq, list_eq, arith, All, all, contains, map, select, Bool-cases, beq_path, ne_beq,
  if◌then◌else◌,
}
use nex_au.Prelude.Text.{Text, text}
use nex_au.Orm.{str, value_eq}
use nex_au.Orm.Filters.{Filter, eq, evaluate}
use nex_au.Orm.Engine.{Table, values, find_many}
use nex_au.Session.TaskLock.{Scope}
use nex_au.Team.TaskBoard.{
  TaskRow, TaskInfo, task_field, team_filters, matches, to_task_info, completed,
}

status_filters : Option Text → List Filter
status_filters none = []
status_filters (some status) = eq (text "status") (str status) ∷ []

completed_ids : List TaskRow → List Text
completed_ids [] = []
completed_ids (r ∷ rs) =
    let rest = completed_ids rs in if r.status == completed then r.task_id ∷ rest else rest

pub is_empty : List Text → Bool
is_empty [] = true
is_empty (_ ∷ _) = false

-- `bool(t.dependencies and not all(d in completed_ids for d in t.dependencies))`
listed_blocked : List Text → TaskRow → Bool
unfolding is_empty
listed_blocked done r = not (is_empty r.dependencies) && not (all (contains done) r.dependencies)

-- `list_tasks`
pub list_tasks : Scope → Option Text → Table TaskRow → List TaskInfo
unfolding listed_blocked completed_ids status_filters
list_tasks s status t =
    let rows = find_many (matches (team_filters s (status_filters status))) none none t in
    map (λ r. to_task_info r (listed_blocked (completed_ids rows) r)) rows

-- Rows whose status is another than "completed".
abbrev NoneDone : List TaskRow → Type 0
NoneDone rs = All (λ r. (r.status == completed) ≡ false) rs

completed_ids-none : (rs : List TaskRow) → NoneDone rs → completed_ids rs ≡ []
unfolding completed_ids
completed_ids-none [] h = refl
completed_ids-none (r ∷ rs) h = rw h.0 (completed_ids-none rs h.1)

last_of_four : (a b c d : Bool) → (a && (b && (c && (d && true)))) ≡ true → d ≡ true
last_of_four a b c d h = ground arith

row_status :
    (s : Scope) (status : Text) (r : TaskRow)
    → matches (team_filters s (eq (text "status") (str status) ∷ [])) r ≡ true
    → r.status ≡ status
unfolding evaluate task_field
row_status s status r h = beq_path r.status status (
    last_of_four (r.user_id == s.user_id) (r.session_id == s.session_id) (r.team_id == s.team_id)
      (r.status == status) h)

select-NoneDone :
    (s : Scope) (status : Text) (rs : List TaskRow)
    → status ≢ completed
    → NoneDone (select (matches (team_filters s (eq (text "status") (str status) ∷ []))) rs)
select-NoneDone s status [] h = tt
select-NoneDone s status (r ∷ rs) h =
    elim (Bool-cases (matches (team_filters s (eq (text "status") (str status) ∷ [])) r)) [
      | inl e ↦ rw e (
        ne_beq r.status completed (λ p. h (sym (row_status s status r e) ∙ p)),
        select-NoneDone s status rs h,
      )
      | inr e ↦ rw e (select-NoneDone s status rs h)
    ]

-- A listed task that has dependencies is marked as blocked.
abbrev pub MarkedBlocked : TaskInfo → Type 0
MarkedBlocked i = i.is_blocked ≡ not (is_empty i.dependencies)

all_none : (ds : List Text) → (not (is_empty ds) && not (all (contains []) ds)) ≡ not (is_empty ds)
unfolding is_empty
all_none [] = refl
all_none (d ∷ ds) = refl

marked :
    (rs : List TaskRow) → All MarkedBlocked (map (λ r. to_task_info r (listed_blocked [] r)) rs)
unfolding listed_blocked to_task_info
marked [] = tt
marked (r ∷ rs) = (all_none r.dependencies, marked rs)

-- Asked for the tasks of one status other than "completed", `list_tasks` marks every task that has
-- dependencies as blocked, also where all of these are completed: it looks for the completed tasks
-- among the listed ones only.
pub list_tasks-MarkedBlocked :
    (s : Scope) (status : Text) (t : Table TaskRow)
    → status ≢ completed
    → All MarkedBlocked (list_tasks s (some status) t)
unfolding list_tasks find_many
list_tasks-MarkedBlocked s status t h =
    rw (completed_ids-none _ (select-NoneDone s status (values t) h)) (marked _)
