-- ===== src/Team/TaskBoard/Claims.antt =====
-- nexau/archs/main_sub/team/task_board.py: what `claim_task` finds and leaves.
use mathlib.Core.Path.{fun_ext}
use nex_au.Prelude.{
  ℕ, ◌≡◌, refl, ap, sym, ◌∙◌, inl, inr, Bool, true, false, Option, none, some, List, [], ◌∷◌, ◌==◌,
  nat_eq, list_eq, All, Bool-cases, beq_path, if◌then◌else◌,
}
use nex_au.Prelude.Results.{Result, ok, raise, Action, and_then, ◌>>◌, throw_if}
use nex_au.Prelude.Text.{Text, text}
use nex_au.Orm.{str, value_eq}
use nex_au.Orm.Filters.{eq, evaluate}
use nex_au.Orm.Engine.{Key, Table, find_one, update}
use nex_au.Orm.Engine.Keys.{WellKeyed}
use nex_au.Orm.Engine.Laws.{lookup, by_key, lookup-update, lookup-by_key}
use nex_au.Session.TaskLock.{Scope, LockRow, LockError, acquire, release}
use nex_au.Team.TaskBoard.{
  TaskRow, task_field, task_pk, task_key, team_filters, matches, BoardError, Board, completed,
  found, get_task, blocked_step, is_blocked, save, locked, Call, with_lock, unassigned, claim_body,
  claim_task, task_blocked,
}

-- The row of a task.
abbrev pub row_of : Scope → Text → Table TaskRow → Option TaskRow
row_of s task t = lookup task_pk (task_key s task) t

by_task :
    (s : Scope) (task : Text) (r : TaskRow)
    → matches (team_filters s (eq (text "task_id") (str task) ∷ [])) r
      ≡ by_key task_pk (task_key s task) r
unfolding evaluate task_field
by_task s task r = refl

pub get_task-row :
    (s : Scope) (task : Text) (t : Table TaskRow) → get_task s task t ≡ found task (row_of s task t)
unfolding get_task
get_task-row s task t = ap (λ p. found task (find_one p t)) (fun_ext (by_task s task))

get_task-ok :
    (s : Scope) (task : Text) (t : Table TaskRow) {r : TaskRow}
    → get_task s task t ≡ ok r
    → row_of s task t ≡ some r
get_task-ok s task t h = go (row_of s task t) (sym (get_task-row s task t) ∙ h)
  where
    go : (o : Option TaskRow) {r : TaskRow} → found task o ≡ ok r → o ≡ some r
    go none h = unfold found in cc
    go (some q) h = unfold found in cc

-- A task that stands on the board as completed.
abbrev pub IsDone : Scope → Table TaskRow → Text → Type 0
IsDone s t task = (r : TaskRow) × (row_of s task t ≡ some r) × (r.status ≡ text "completed")

blocked_step-false :
    (go : Result BoardError Bool) (d : Result BoardError TaskRow)
    → blocked_step go d ≡ ok false
    → (r : TaskRow) × (d ≡ ok r) × (r.status ≡ text "completed") × (go ≡ ok false)
unfolding blocked_step
blocked_step-false go (ok r) h = elim (Bool-cases (r.status == completed)) [
  | inl e ↦ (r, refl, beq_path r.status completed e, rw e at h)
  | inr e ↦ let p = rw e at h in cc p
]
blocked_step-false go (raise x) h = cc

is_blocked-false :
    (s : Scope) (t : Table TaskRow) (deps : List Text)
    → is_blocked s t deps ≡ ok false
    → All (IsDone s t) deps
unfolding is_blocked
is_blocked-false s t [] h = tt
is_blocked-false s t (d ∷ ds) h =
    let (r, e, c, rest) = blocked_step-false _ _ h in
    ((r, get_task-ok s d t e, c), is_blocked-false s t ds rest)

-- A step that is followed by more, where the whole returns.
and_then-ok :
    {S E A B : Type 0} (b : S) (r : Result E A) (f : A → Action S E B) {x : B}
    → (and_then (b, r) f).1 ≡ ok x
    → (a : A) × (r ≡ ok a) × (and_then (b, r) f ≡ f a b)
and_then-ok b (ok a) f h = (a, refl, refl)
and_then-ok b (raise e) f h = cc

-- The row as `claim_task` leaves it.
abbrev pub claimed : Text → ℕ → TaskRow → TaskRow
claimed assignee now r = record r {
  assignee_agent_id = some assignee;
  status = text "in_progress";
  updated_at = now;
}

guarded-ok :
    (task : Text) (blocked : Bool) (o : Option Text) (r : TaskRow) (b : Board)
    → ((throw_if blocked (task_blocked task) >> (unassigned task o >> save r)) b).1 ≡ ok tt
    → (blocked ≡ false)
      × (o ≡ none)
      × ((throw_if blocked (task_blocked task) >> (unassigned task o >> save r)) b ≡ save r b)
unfolding unassigned
guarded-ok task true o r b h = cc
guarded-ok task false none r b h = (refl, refl, refl)
guarded-ok task false (some a) r b h = cc

-- What a claim that succeeds has found, and what it leaves.
record Claimed (s : Scope) (task assignee : Text) (now : ℕ) (b : Board) (after : Board)
    : Type 0 where
  row : TaskRow
  there : row_of s task b.tasks ≡ some row
  free : row.assignee_agent_id ≡ none
  ready : All (IsDone s b.tasks) row.dependencies
  stored : after ≡ record b { tasks = update task_pk (claimed assignee now row) b.tasks }

claim_body-ok :
    (s : Scope) (task assignee : Text) (now : ℕ) (b : Board)
    → (claim_body s task assignee now b).1 ≡ ok tt
    → Claimed s task assignee now b (claim_body s task assignee now b).0
unfolding claim_body
claim_body-ok s task assignee now b h =
    let (r, e, p) = and_then-ok b (get_task s task b.tasks) _ h in
    let h' = rw p at h in
    let (blocked, e', p') = and_then-ok b (is_blocked s b.tasks r.dependencies) _ h' in
    let h'' = rw p' at h' in
    let (open_, free, p'') =
      guarded-ok task blocked r.assignee_agent_id (claimed assignee now r) b h'' in
    record {
      row = r;
      there = get_task-ok s task b.tasks e;
      free = free;
      ready = is_blocked-false s b.tasks r.dependencies (e' ∙ ap ok open_);
      stored = ap (λ (x : Board × Result BoardError (Unit {0})). x.0) (p ∙ p' ∙ p'');
    }

-- A body that returns under the lock has run on the board with the lock's row.
locked-ok :
    {A : Type 0} (g : Table LockRow → Table LockRow) (body : Action Board BoardError A) (b : Board)
    (q : Table LockRow × Result LockError LockRow) {x : A}
    → (locked g body b q).1 ≡ ok x
    → ((body (record b { locks = q.0 })).1 ≡ ok x)
      × ((locked g body b q).0.tasks ≡ (body (record b { locks = q.0 })).0.tasks)
unfolding locked
locked-ok g body b (t, ok l) h = (h, refl)
locked-ok g body b (t, raise e) h = cc

-- A claim that returns has found the task on the board, unassigned, and every task that it depends
-- on completed; it leaves the task assigned to the claimant and in progress, and changes no other
-- task of any team. (Each row of the table is assumed to stand under its own key.)
pub claim_task-claims :
    (s : Scope) (task assignee : Text) (c : Call) (b : Board) (k : Key)
    → WellKeyed task_pk b.tasks
    → (claim_task s task assignee c b).1 ≡ ok tt
    → (r : TaskRow) × (row_of s task b.tasks ≡ some r)
      × (r.assignee_agent_id ≡ none)
      × All (IsDone s b.tasks) r.dependencies
      × (lookup task_pk k (claim_task s task assignee c b).0.tasks ≡ (
          if task_key s task == k
          then some (claimed assignee c.now r)
          else lookup task_pk k b.tasks))
unfolding claim_task with_lock
claim_task-claims s task assignee c b k w h =
    let q = acquire s task c.holder c.ttl_ns c.at b.locks in
    let (h', e) = locked-ok (release s task c.holder) (claim_body s task assignee c.now) b q h in
    let done = claim_body-ok s task assignee c.now (record b { locks = q.0 }) h' in
    let key : task_pk done.row ≡ task_key s task =
      beq_path (task_pk done.row) (task_key s task)
        (lookup-by_key task_pk (task_key s task) b.tasks done.there) in
    (
      done.row,
      done.there,
      done.free,
      done.ready,
      ap (lookup task_pk k) (e ∙ ap (λ (x : Board). x.tasks) done.stored)
          ∙ lookup-update task_pk k (claimed assignee c.now done.row) b.tasks w
          ∙ ap
              (λ (j : Key).
                if j == k then some (claimed assignee c.now done.row) else lookup task_pk k b.tasks)
              key,
    )
