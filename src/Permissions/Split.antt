-- ===== src/Permissions/Split.antt =====
-- nexau/archs/permissions/helpers.py: `_split_shell_commands`.
pub mod Chains
pub mod Unbroken
pub mod Bounds
use nex_au.Prelude.{
  ℕ, ◌≡◌, refl, Bool, true, false, not, ◌&&◌, ◌||◌, Option, none, some, List, [], ◌∷◌, ◌++◌, ◌==◌,
  nat_eq, if◌then◌else◌,
}
use nex_au.Prelude.Text.{Text, text, strip, is_space}

-- What one round of the loop does with the character at `i`.
pub data Action : Type 0 where
  escape toggle_single toggle_double break_two break_one plain : Action

abbrev backslash : ℕ
backslash = 92

abbrev is_some : Option ℕ → Bool
is_some none = false
is_some (some _) = true

-- `command[i : i + 2] in ("||", "&&")`
is_and_or : ℕ → Option ℕ → Bool
is_and_or c none = false
is_and_or c (some n) = (c == b'|' && n == b'|') || (c == b'&' && n == b'&')

-- The tests of the loop body, in order; `next` is the character behind `c`, if there is one.
unfoldable pub classify : (in_single in_double : Bool) → ℕ → Option ℕ → Action
unfolding is_and_or
classify s d c next =
    if c == backslash && not s && is_some next
    then escape
    else if c == 39 && not d
    then toggle_single
    else if c == 34 && not s
    then toggle_double
    else if not s && not d && is_and_or c next
    then break_two
    else if not s && not d && (c == b'|' || c == b';')
    then break_one
    else plain

-- `part = "".join(current).strip()`, kept if it is not empty.
keep_part : Text → List Text → List Text
keep_part [] parts = parts
keep_part (c ∷ part) parts = (c ∷ part) ∷ parts

flush : Text → List Text → List Text
unfolding keep_part
flush current parts = keep_part (strip current) parts

-- The loop, from the character at `i` on, with its variables `in_single`, `in_double`, `current`.
pub split_loop : (in_single in_double : Bool) → Text → Text → List Text
split_loop s d current [] = flush current []
split_loop s d current (c ∷ []) = elim (classify s d c none) [
  | escape ↦ flush (current ++ c ∷ []) []
  | toggle_single ↦ split_loop (not s) d (current ++ c ∷ []) []
  | toggle_double ↦ split_loop s (not d) (current ++ c ∷ []) []
  | break_two ↦ flush current (split_loop s d [] [])
  | break_one ↦ flush current (split_loop s d [] [])
  | plain ↦ split_loop s d (current ++ c ∷ []) []
]
split_loop s d current (c ∷ n ∷ rest) = elim (classify s d c (some n)) [
  | escape ↦ split_loop s d (current ++ c ∷ n ∷ []) rest
  | toggle_single ↦ split_loop (not s) d (current ++ c ∷ []) (n ∷ rest)
  | toggle_double ↦ split_loop s (not d) (current ++ c ∷ []) (n ∷ rest)
  | break_two ↦ flush current (split_loop s d [] rest)
  | break_one ↦ flush current (split_loop s d [] (n ∷ rest))
  | plain ↦ split_loop s d (current ++ c ∷ []) (n ∷ rest)
]

unfoldable pub split_shell_commands : Text → List Text
unfolding split_loop classify flush
split_shell_commands command = split_loop false false [] command

split_chain :
    split_shell_commands (text "a 'x;y' && b | c;; d")
    ≡ text "a 'x;y'" ∷ text "b" ∷ text "c" ∷ text "d" ∷ []
unfolding split_shell_commands strip is_space
split_chain = refl
