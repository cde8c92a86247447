-- ===== src/Team/Slug/Safe.antt =====
-- nexau/archs/main_sub/team/task_board.py: the characters and the length of what `_slugify` returns.
use nex_au.Prelude.{
  ℕ, zero, suc, ◌≤◌, ◌≡◌, ◌≢◌, refl, inl, inr, Bool, true, false, ◌||◌, [], ◌∷◌, ◌==◌, nat_eq,
  arith, length, length-take, take, All, ltb, Bool-cases, if◌then◌else◌,
}
use nex_au.Prelude.Text.{Text}
use nex_au.Team.Slug.{
  is_alnum, squash, drop_dashes, cons_unless_dash, trim_dashes, or_task, slugify,
}

abbrev pub is_slug_char : ℕ → Bool
is_slug_char c = is_alnum c || c == b'-'

abbrev pub IsSafe : Text → Type 0
IsSafe s = All (λ c. is_slug_char c ≡ true) s

squash-IsSafe : (r : Bool) (s : Text) → IsSafe (squash r s)
unfolding squash
squash-IsSafe r [] = tt
squash-IsSafe r (c ∷ s) = elim (Bool-cases (is_alnum c)) [
  | inl e ↦ rw e (rw e refl, squash-IsSafe false s)
  | inr e ↦ rw e (by_run r (squash-IsSafe true s))
]
  where
    by_run :
        (r : Bool)
        → IsSafe (squash true s)
        → IsSafe (if r then squash true s else b'-' ∷ squash true s)
    by_run true h = h
    by_run false h = (refl, h)

drop_dashes-IsSafe : (s : Text) → IsSafe s → IsSafe (drop_dashes s)
unfolding drop_dashes
drop_dashes-IsSafe [] h = tt
drop_dashes-IsSafe (c ∷ s) h = elim (Bool-cases (c == b'-')) [
  | inl e ↦ rw e (drop_dashes-IsSafe s h.1)
  | inr e ↦ rw e h
]

cons_unless_dash-IsSafe :
    (c : ℕ) (s : Text) → is_slug_char c ≡ true → IsSafe s → IsSafe (cons_unless_dash c s)
unfolding cons_unless_dash
cons_unless_dash-IsSafe c [] h hs = elim (Bool-cases (c == b'-')) [
  | inl e ↦ rw e tt
  | inr e ↦ rw e (h, tt)
]
cons_unless_dash-IsSafe c (d ∷ s) h hs = (h, hs)

trim_dashes-IsSafe : (s : Text) → IsSafe s → IsSafe (trim_dashes s)
unfolding trim_dashes
trim_dashes-IsSafe [] h = tt
trim_dashes-IsSafe (c ∷ s) h =
    cons_unless_dash-IsSafe c (trim_dashes s) h.0 (trim_dashes-IsSafe s h.1)

take-IsSafe : (n : ℕ) (s : Text) → IsSafe s → IsSafe (take n s)
take-IsSafe zero s h = tt
take-IsSafe (suc n) [] h = tt
take-IsSafe (suc n) (c ∷ s) h = (h.0, take-IsSafe n s h.1)

length-trim_dashes : (s : Text) → length (trim_dashes s) ≤ length s
unfolding trim_dashes
length-trim_dashes [] = omega arith
length-trim_dashes (c ∷ s) = longer (trim_dashes s) (length-trim_dashes s)
  where
    longer : (r : Text) → length r ≤ length s → length (cons_unless_dash c r) ≤ suc (length s)
    longer [] h = unfold cons_unless_dash in ground arith
    longer (d ∷ r) h = unfold cons_unless_dash in omega arith

-- The three promises about a slug.
pub record IsSlug (max_length : ℕ) (s : Text) : Type 0 where
  pub safe : IsSafe s
  pub short : length s ≤ max_length
  pub present : s ≢ []

or_task-IsSlug : (n : ℕ) (s : Text) → 4 ≤ n → IsSafe s → length s ≤ n → IsSlug n (or_task s)
unfolding or_task
or_task-IsSlug n [] h k l = record {
  safe = (refl, (refl, (refl, (refl, tt))));
  short = h;
  present = λ e. cc;
}
or_task-IsSlug n (c ∷ s) h k l = record { safe = k; short = l; present = λ e. cc }

-- Whatever the title is, its slug holds only a-z, 0-9 and dashes, so no path separator and no dot,
-- it is not empty, and it is at most `max_length` long, if there is room for "task".
pub slugify-IsSlug :
    (lower : Text → Text) (max_length : ℕ) (title : Text)
    → 4 ≤ max_length
    → IsSlug max_length (slugify lower max_length title)
unfolding slugify
slugify-IsSlug lower n title h =
    cut _ (trim_dashes-IsSafe _ (drop_dashes-IsSafe _ (squash-IsSafe false (lower title))))
  where
    cut :
        (s : Text)
        → IsSafe s
        → IsSlug n (or_task (if ltb n (length s) then trim_dashes (take n s) else s))
    cut s k = elim (Bool-cases (ltb n (length s))) [
      | inl e ↦ rw e (
          or_task-IsSlug n _ h (trim_dashes-IsSafe _ (take-IsSafe n s k))
            (omega (arith, length-trim_dashes (take n s), length-take n s)))
      | inr e ↦ rw e (or_task-IsSlug n s h k (ground arith))
    ]
