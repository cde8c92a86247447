-- ===== src/ApplyPatch/Replace.antt =====
-- nexau/archs/tool/builtin/file_tools/apply_patch.py: `_apply_replacements`, and one pass over the
-- lines.
use nex_au.Prelude.{
  ℕ, zero, suc, ◌+◌, ◌-◌, ◌≤◌, ◌≡◌, refl, ap, sym, ◌∙◌, List, [], ◌∷◌, ◌++◌, length, take, drop,
  arith, length-append, length-take, length-drop, take-append-drop,
}
use mathlib.Core.List.{append_assoc}
use nex_au.Prelude.Text.{Text}
use nex_au.ApplyPatch.{
  Replacement, pop_at, pop_times, insert_at, insert_all, apply_one, apply_replacements,
}

pop_times-cons :
    (n i : ℕ) (l : Text) (ls : List Text) → pop_times n (suc i) (l ∷ ls) ≡ l ∷ pop_times n i ls
unfolding pop_times pop_at
pop_times-cons zero i l ls = refl
pop_times-cons (suc n) i l ls = pop_times-cons n i l (pop_at i ls)

pop_times-append : (old ls : List Text) → pop_times (length old) 0 (old ++ ls) ≡ ls
unfolding pop_times pop_at
pop_times-append [] ls = refl
pop_times-append (o ∷ old) ls = pop_times-append old ls

insert_all-cons :
    (i : ℕ) (new : List Text) (l : Text) (ls : List Text)
    → insert_all (suc i) new (l ∷ ls) ≡ l ∷ insert_all i new ls
unfolding insert_all insert_at
insert_all-cons i [] l ls = refl
insert_all-cons i (n ∷ new) l ls = insert_all-cons (suc i) new l (insert_at i n ls)

insert_all-append : (new ls : List Text) → insert_all 0 new ls ≡ new ++ ls
unfolding insert_all insert_at
insert_all-append [] ls = refl
insert_all-append (n ∷ new) ls =
    insert_all-cons 0 new n ls ∙ ap (λ t. n ∷ t) (insert_all-append new ls)

replace_middle :
    (a old new ls : List Text)
    → insert_all (length a) new (pop_times (length old) (length a) (a ++ old ++ ls))
      ≡ a ++ new ++ ls
replace_middle [] old new ls =
    ap (insert_all 0 new) (pop_times-append old ls) ∙ insert_all-append new ls
replace_middle (x ∷ a) old new ls =
    ap (insert_all (suc (length a)) new) (pop_times-cons (length old) (length a) x (a ++ old ++ ls))
    ∙ insert_all-cons (length a) new x _
    ∙ ap (λ t. x ∷ t) (replace_middle a old new ls)

apply_one-middle :
    (r : Replacement) (a old ls : List Text)
    → length a ≡ r.start_index
    → length old ≡ r.old_length
    → apply_one r (a ++ old ++ ls) ≡ a ++ r.new_segment ++ ls
unfolding apply_one
apply_one-middle r a old ls p q = rw (sym p, sym q, replace_middle a old r.new_segment ls)

-- One pass: `ls` are the lines from `at` on.
abbrev pub splice : ℕ → List Text → List Replacement → List Text
splice at ls [] = ls
splice at ls (r ∷ rs) =
    take (r.start_index - at) ls
    ++ r.new_segment
    ++ splice (r.start_index + r.old_length) (drop r.old_length (drop (r.start_index - at) ls)) rs

-- The replacements follow one another and end within `total` lines.
abbrev pub Ordered : ℕ → ℕ → List Replacement → Type 0
Ordered at total [] = Unit
Ordered at total (r ∷ rs) =
    at ≤ r.start_index
    × r.start_index + r.old_length ≤ total
    × Ordered (r.start_index + r.old_length) total rs

apply_replacements-rest :
    (pre ls : List Text) (at total : ℕ) (rs : List Replacement)
    → length pre ≡ at
    → at + length ls ≡ total
    → Ordered at total rs
    → apply_replacements (pre ++ ls) rs ≡ pre ++ splice at ls rs
unfolding apply_replacements
apply_replacements-rest pre ls at total [] p q h = refl
apply_replacements-rest pre ls at total (r ∷ rs) p q (h, h', h'') =
    let k = r.start_index - at in
    let a = pre ++ take k ls in
    let old = take r.old_length (drop k ls) in
    let ls' = drop r.old_length (drop k ls) in
    let length_a : length a ≡ r.start_index =
      omega (arith, length-append pre (take k ls), length-take k ls) in
    let length_old : length old ≡ r.old_length =
      omega (arith, length-take r.old_length (drop k ls), length-drop k ls) in
    let whole : pre ++ ls ≡ a ++ old ++ ls' =
      ap (λ t. pre ++ t)
        (sym (
          ap (λ t. take k ls ++ t) (take-append-drop r.old_length (drop k ls))
          ∙ take-append-drop k ls))
      ∙ sym (append_assoc pre (take k ls) (old ++ ls'))
      ∙ sym (append_assoc a old ls') in
    let rest =
      apply_replacements-rest (a ++ old) ls' (r.start_index + r.old_length) total rs
        (length-append a old ∙ omega arith)
        (omega (arith, length-drop r.old_length (drop k ls), length-drop k ls)) h'' in
    ap (λ t. apply_one r (apply_replacements t rs)) whole
    ∙ ap (apply_one r) rest
    ∙ apply_one-middle r a old _ length_a length_old
    ∙ append_assoc a r.new_segment _
    ∙ append_assoc pre (take k ls) _
    ∙ ap (λ t. pre ++ t) (sym (append_assoc (take k ls) r.new_segment _))

-- Applied from the last to the first, replacements that follow one another within the lines give
-- what one pass from the first to the last does: between them all lines stay, in their order, and
-- the indices that were computed on the original lines are still right.
pub apply_replacements-splice :
    (ls : List Text) (rs : List Replacement)
    → Ordered 0 (length ls) rs
    → apply_replacements ls rs ≡ splice 0 ls rs
apply_replacements-splice ls rs h =
    apply_replacements-rest [] ls 0 (length ls) rs refl (omega arith) h
