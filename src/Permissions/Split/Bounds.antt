-- ===== src/Permissions/Split/Bounds.antt =====
-- nexau/archs/permissions/helpers.py: how long the parts are that `_split_shell_commands` returns.
use nex_au.Prelude.{
  ◌+◌, ◌≤◌, ◌≡◌, Bool, false, not, List, [], ◌∷◌, ◌++◌, arith, length, length-append,
}
use nex_au.Prelude.Text.{Text, strip, length-strip, total_length}
use nex_au.Permissions.Split.{keep_part, flush, split_loop, split_shell_commands}

total_length-keep_part :
    (p : Text) (ps : List Text) → total_length (keep_part p ps) ≡ length p + total_length ps
unfolding keep_part
total_length-keep_part [] ps = omega arith
total_length-keep_part (c ∷ p) ps = omega arith

total_length-flush :
    (p : Text) (ps : List Text) → total_length (flush p ps) ≤ length p + total_length ps
unfolding flush
total_length-flush p ps = omega (arith, total_length-keep_part (strip p) ps, length-strip p)

total_length-split_loop :
    (s d : Bool) (cur l : Text) → total_length (split_loop s d cur l) ≤ length cur + length l
unfolding split_loop
total_length-split_loop s d cur [] = omega (arith, total_length-flush cur [])
total_length-split_loop s d cur (c ∷ []) = ground (
  arith,
  length-append cur (c ∷ []),
  total_length-flush cur (flush [] []),
  total_length-flush [] [],
  total_length-flush (cur ++ c ∷ []) [],
)
total_length-split_loop s d cur (c ∷ n ∷ rest) = ground (
  arith,
  length-append cur (c ∷ []),
  length-append cur (c ∷ n ∷ []),
  total_length-flush cur (split_loop s d [] rest),
  total_length-flush cur (split_loop s d [] (n ∷ rest)),
  total_length-split_loop s d [] rest,
  total_length-split_loop s d [] (n ∷ rest),
  total_length-split_loop s d (cur ++ c ∷ n ∷ []) rest,
  total_length-split_loop s d (cur ++ c ∷ []) (n ∷ rest),
  total_length-split_loop (not s) d (cur ++ c ∷ []) (n ∷ rest),
  total_length-split_loop s (not d) (cur ++ c ∷ []) (n ∷ rest),
)

-- Splitting a command makes no characters: its parts together are at most as long as it is.
pub total_length-split_shell_commands :
    (command : Text) → total_length (split_shell_commands command) ≤ length command
unfolding split_shell_commands
total_length-split_shell_commands command =
    omega (arith, total_length-split_loop false false [] command)
