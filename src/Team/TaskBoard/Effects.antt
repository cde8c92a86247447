-- ===== src/Team/TaskBoard/Effects.antt =====
-- nexau/archs/main_sub/team/task_board.py: what `claim_task` does to the board, whether it succeeds
-- or raises.
use nex_au.Prelude.{
  ℕ, ◌≡◌, ◌≢◌, refl, ap, sym, ◌∙◌, ◌⊎◌, inl, inr, Bool, true, false, Option, none, some, nat_eq,
  list_eq, beq_self, if◌then◌else◌,
}
use nex_au.Prelude.Results.{Result, ok, raise, Action, and_then, ◌>>◌, throw_if}
use nex_au.Prelude.Text.{Text}
use nex_au.Orm.{value_eq}
use nex_au.Orm.Engine.{Table, update}
use nex_au.Orm.Engine.Keys.{WellKeyed, update-WellKeyed}
use nex_au.Session.TaskLock.{Scope, LockRow, LockError, acquire, release, lock_pk}
use nex_au.Session.TaskLock.Exclusion.{holder_row, acquire_row, release-own}
use nex_au.Team.TaskBoard.{
  TaskRow, task_pk, task_key, BoardError, Board, get_task, is_blocked, save, locked, Call,
  with_lock, unassigned, claim_body, claim_task, task_blocked,
}
use nex_au.Team.TaskBoard.Claims.{row_of, claimed, claim_task-claims}

-- A claim changes the board in its last step only.
Saves : (assignee : Text) (now : ℕ) → Board → Board × Result BoardError (Unit {0}) → Type 0
Saves assignee now b x =
    ((x.0 ≡ b) × ((x.1 ≡ ok tt) → ⊥)) ⊎ ((r : TaskRow) × (x ≡ save (claimed assignee now r) b))

guarded-Saves :
    (task assignee : Text) (now : ℕ) (b : Board) (blocked : Bool) (o : Option Text) (r : TaskRow)
    → Saves assignee now b (
        (throw_if blocked (task_blocked task)
            >> (unassigned task o >> save (claimed assignee now r)))
          b)
unfolding Saves unassigned
guarded-Saves task assignee now b true o r = inl (refl, λ p. cc)
guarded-Saves task assignee now b false none r = inr (r, refl)
guarded-Saves task assignee now b false (some a) r = inl (refl, λ p. cc)

and_then-Saves :
    {A : Type 0} (assignee : Text) (now : ℕ) (b : Board) (q : Result BoardError A)
    (f : A → Action Board BoardError (Unit {0}))
    → ((a : A) → Saves assignee now b (f a b))
    → Saves assignee now b (and_then (b, q) f)
unfolding Saves
and_then-Saves assignee now b (ok a) f h = h a
and_then-Saves assignee now b (raise e) f h = inl (refl, λ p. cc)

claim_body-Saves :
    (s : Scope) (task assignee : Text) (now : ℕ) (b : Board)
    → Saves assignee now b (claim_body s task assignee now b)
unfolding claim_body
claim_body-Saves s task assignee now b =
    and_then-Saves assignee now b (get_task s task b.tasks) _ λ r.
      and_then-Saves assignee now b (is_blocked s b.tasks r.dependencies) _
        λ blocked. guarded-Saves task assignee now b blocked r.assignee_agent_id r

-- The board behind a claim, whether it succeeds or not.
module _ (s : Scope) (task assignee : Text) (c : Call) (b : Board) where
  locked-tasks :
      (q : Table LockRow × Result LockError LockRow)
      → ((locked (release s task c.holder) (claim_body s task assignee c.now) b q).0.tasks
          ≡ b.tasks)
        ⊎ ((r : TaskRow) × (locked (release s task c.holder) (claim_body s task assignee c.now) b q
              ≡ (
                record b {
                  tasks = update task_pk (claimed assignee c.now r) b.tasks;
                  locks = release s task c.holder q.0;
                },
                ok tt,
              )))
  unfolding locked Saves
  locked-tasks (t, ok l) = elim (claim_body-Saves s task assignee c.now (record b { locks = t })) [
    | inl (e, _) ↦ inl (ap (λ (x : Board). x.tasks) e)
    | inr (r, e) ↦ inr (
      r,
      ap
          (λ (x : Board × Result BoardError (Unit {0})).
            (record (x.0) { locks = release s task c.holder x.0.locks }, x.1))
          e,
    )
  ]
  locked-tasks (t, raise e) = inl refl

  -- A claim keeps the invariant of the tasks' table.
  pub claim_task-WellKeyed :
      WellKeyed task_pk b.tasks → WellKeyed task_pk (claim_task s task assignee c b).0.tasks
  unfolding claim_task with_lock
  claim_task-WellKeyed w = elim (locked-tasks (acquire s task c.holder c.ttl_ns c.at b.locks)) [
    | inl e ↦ rw e w
    | inr (r, e) ↦ rw e (update-WellKeyed task_pk (claimed assignee c.now r) b.tasks w)
  ]

  -- A claim that raises, for whatever reason, leaves every task as it was.
  pub claim_task-raise :
      {e : BoardError}
      → (claim_task s task assignee c b).1 ≡ raise e
      → (claim_task s task assignee c b).0.tasks ≡ b.tasks
  unfolding claim_task with_lock
  claim_task-raise h = elim (locked-tasks (acquire s task c.holder c.ttl_ns c.at b.locks)) [
    | inl e ↦ e
    | inr (r, p) ↦ let q = rw p at h in cc q
  ]

  locked-locks :
      (q : Table LockRow × Result LockError LockRow) {l : LockRow}
      → q.1 ≡ ok l
      → (locked (release s task c.holder) (claim_body s task assignee c.now) b q).0.locks
        ≡ release s task c.holder q.0
  unfolding locked Saves
  locked-locks (t, raise e) h = cc
  locked-locks (t, ok l) h =
      elim (claim_body-Saves s task assignee c.now (record b { locks = t })) [
        | inl (e, _) ↦ ap (λ (x : Board). release s task c.holder x.locks) e
        | inr (r, e) ↦
            ap (λ (x : Board × Result BoardError (Unit {0})). release s task c.holder x.0.locks) e
      ]

  -- Whether the claim then succeeds or raises, a lock that it got is free again when it is over.
  -- (Each row of the table is assumed to stand under its own key.)
  pub claim_task-frees :
      {l : LockRow}
      → WellKeyed lock_pk b.locks
      → (acquire s task c.holder c.ttl_ns c.at b.locks).1 ≡ ok l
      → holder_row s task (claim_task s task assignee c b).0.locks ≡ none
  unfolding claim_task with_lock
  claim_task-frees w h =
      let (row, w') = acquire_row s task c.holder c.ttl_ns c.at b.locks w h in
      ap (holder_row s task) (locked-locks (acquire s task c.holder c.ttl_ns c.at b.locks) h)
      ∙ release-own s task c.holder (acquire s task c.holder c.ttl_ns c.at b.locks).0 _ w' row
      ∙ rw (beq_self c.holder)

-- A task that was claimed cannot be claimed again: the next claim of it, whoever tries it and at
-- whatever time, does not succeed. (Each row of the table is assumed to stand under its own key.)
pub claim_task-once :
    (s : Scope) (task assignee other : Text) (c d : Call) (b : Board)
    → WellKeyed task_pk b.tasks
    → (claim_task s task assignee c b).1 ≡ ok tt
    → (claim_task s task other d (claim_task s task assignee c b).0).1 ≢ ok tt
claim_task-once s task assignee other c d b w h again =
    let (r, _, _, _, after) = claim_task-claims s task assignee c b (task_key s task) w h in
    let (r', there, free, _, _) =
      claim_task-claims s task other d (claim_task s task assignee c b).0 (task_key s task)
        (claim_task-WellKeyed s task assignee c b w) again in
    let now =
      after
      ∙ ap (λ (x : Bool). if x then some (claimed assignee c.now r) else row_of s task b.tasks)
          (beq_self (task_key s task)) in
    taken r' (claimed assignee c.now r) (sym there ∙ now) refl free
  where
    taken :
        (r' q : TaskRow)
        → some r' ≡ some q
        → q.assignee_agent_id ≡ some assignee
        → r'.assignee_agent_id ≡ none
        → ⊥
    taken r' q p e f = cc
