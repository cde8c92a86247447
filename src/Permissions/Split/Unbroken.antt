-- ===== src/Permissions/Split/Unbroken.antt =====
-- nexau/archs/permissions/helpers.py: commands that `_split_shell_commands` does not cut.
use mathlib.Core.List.{append_assoc, append-nil}
use nex_au.Prelude.{
  ℕ, ◌≡◌, ◌≢◌, ap, ◌∙◌, Bool, true, false, not, ◌&&◌, ◌||◌, [], ◌∷◌, ◌++◌, ◌==◌, nat_eq, arith,
}
use nex_au.Prelude.Text.{Text, strip}
use nex_au.Permissions.Split.{
  plain, backslash, classify, keep_part, flush, split_loop, split_shell_commands,
}
use nex_au.Permissions.Split.Chains.{first, step_plain}

-- A character that is no quote, no backslash, no `|` and no `;`.
abbrev pub is_ordinary : ℕ → Bool
is_ordinary c = not (c == backslash || c == 39 || c == 34 || c == b'|' || c == b';')

-- Ordinary characters only, and no `&` next to another.
abbrev pub unbroken : Text → Bool
unbroken [] = true
unbroken (c ∷ []) = is_ordinary c
unbroken (c ∷ n ∷ rest) = is_ordinary c && not (c == b'&' && n == b'&') && unbroken (n ∷ rest)

unbroken_step :
    (c : ℕ) (l : Text)
    → unbroken (c ∷ l) ≡ true
    → (classify false false c (first l) ≡ plain) × (unbroken l ≡ true)
unfolding classify
unbroken_step c [] h = ground arith
unbroken_step c (n ∷ l) h = ground arith

split_loop-unbroken :
    (cur l : Text) → unbroken l ≡ true → split_loop false false cur l ≡ flush (cur ++ l) []
split_loop-unbroken cur [] h = unfold split_loop in rw append-nil
split_loop-unbroken cur (c ∷ l) h =
    let (step, rest) = unbroken_step c l h in
    step_plain false false cur c l step
    ∙ split_loop-unbroken (cur ++ c ∷ []) l rest
    ∙ ap (λ t. flush t []) (append_assoc cur (c ∷ []) l)

-- A single `&` and a line break do not separate commands: a command of ordinary characters whose
-- `&` stand alone is one part, its text without the surrounding blanks.
pub split_shell_commands-unbroken :
    (command : Text)
    → unbroken command ≡ true
    → strip command ≢ []
    → split_shell_commands command ≡ strip command ∷ []
unfolding split_shell_commands flush keep_part
split_shell_commands-unbroken command h k = split_loop-unbroken [] command h ∙ ground arith
