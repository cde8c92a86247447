-- ===== src/Session/Samples.antt =====
-- The theorems on the task locks at a sample table.
use nex_au.Prelude.{ℕ, ◌≡◌, refl, some, List, All, [], ◌∷◌, list_eq, nat_eq, arith}
use nex_au.Prelude.Results.{raise}
use nex_au.Prelude.Text.{text}
use nex_au.Orm.Filters.{evaluate}
use nex_au.Orm.Engine.{Table, create, delete, store, keep_others, find_one}
use nex_au.Session.TaskLock.{
  Scope, LockRow, lock_pk, lock_key, lock_field, lock_conflict, Readings, new_lock, find_valid_lock,
  acquire,
}
use nex_au.Session.TaskLock.Exclusion.{holder_row, outcome, acquire-outcome}
use nex_au.Session.TaskLock.Held.{Event, tries, leaves, happen, acquire-excludes}

abbrev scope : Scope
scope = record { user_id = text "u"; session_id = text "s"; team_id = text "t" }

abbrev at_time : ℕ → Readings
at_time t = record { now = t; base = t; checked = t }

abbrev old_lock : LockRow
old_lock = new_lock scope (text "T-001") (text "a") 30 (at_time 10)

abbrev locks : Table LockRow
locks = (lock_pk old_lock, old_lock) ∷ []

acquire-outcome_example :
    (acquire scope (text "T-001") (text "b") 30 (at_time 50) locks).1
    ≡ outcome
        (holder_row scope (text "T-001") locks)
        (lock_key scope (text "T-001"))
        (new_lock scope (text "T-001") (text "b") 30 (at_time 50))
        (at_time 50)
acquire-outcome_example =
    acquire-outcome scope (text "T-001") (text "b") 30 (at_time 50) locks (refl, refl, tt)

-- Two calls before the lock expires, the second behind someone else's release.
abbrev others : List Event
others =
    tries (text "c") 30 (at_time 60) ∷ leaves (text "c") ∷ tries (text "d") 30 (at_time 79) ∷ []

acquire-excludes_example :
    All
      (λ r. r ≡ raise lock_conflict)
      (happen scope
        (text "T-001")
        others
        (acquire scope (text "T-001") (text "b") 30 (at_time 50) locks).0).1
    × (holder_row scope
          (text "T-001")
          (happen scope
            (text "T-001")
            others
            (acquire scope (text "T-001") (text "b") 30 (at_time 50) locks).0).0
        ≡ some (new_lock scope (text "T-001") (text "b") 30 (at_time 50)))
unfolding acquire find_valid_lock evaluate lock_field create delete store keep_others find_one
acquire-excludes_example =
    acquire-excludes scope (text "T-001") (text "b") 30 (at_time 50) locks others (refl, refl, tt)
      refl (omega arith, (refl, (omega arith, tt)))
