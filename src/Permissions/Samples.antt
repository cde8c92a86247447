-- ===== src/Permissions/Samples.antt =====
-- The theorems on the permission checks at sample commands.
use nex_au.Prelude.{◌≡◌, ◌⊎◌, refl, none, List, [], ◌∷◌, ◌++◌, ◌==◌, list_eq, nat_eq}
use nex_au.Prelude.Text.{Text, text, strip, split_words, is_space}
use nex_au.Permissions.{Rules}
use nex_au.Permissions.Split.{split_shell_commands, classify}
use nex_au.Permissions.Split.Chains.{closed, and_and, split_shell_commands-chain}
use nex_au.Permissions.Split.Unbroken.{split_shell_commands-unbroken}
use nex_au.Permissions.Wrappers.{
  strip_process_wrappers, command_permission_key, has_output_redirect, is_wrapper, has_equals,
}
use nex_au.Permissions.Wrappers.Suffix.{IsSuffix, Settled}
use nex_au.Permissions.Wrappers.Peeled.{Peels, strip_process_wrappers-Settled}
use nex_au.Permissions.Shell.{
  Tokens, is_readonly, is_readonly_git, is_interpreter, rule_verdict, check_sub, check_words,
  words_of, dash_c, check_stripped, check_shell_c_inner, inner_loop, shell_loop,
  check_single_command, check_shell_permission,
}
use nex_au.Permissions.Shell.Fuel.{Fits}
use nex_au.Permissions.Shell.Verdicts.{
  denial, answer, prompt_for, first_asked, part_verdict, check_shell_permission_denied,
  check_shell_permission_open,
}

-- A shlex that fails on every text, and a float that reads "30" only.
abbrev std : Tokens
std = record { shlex_split = λ _. none; is_float = λ t. t == text "30" }

std-Fits : Fits std
std-Fits = record { fits = λ s ts h. cc }

abbrev rules : Rules
rules = record { allow_rules = text "make" ∷ []; deny_rules = text "rm" ∷ [] }

abbrev deleting : Text
deleting = text "ls; nice rm x"

check_shell_permission_denied_example :
    (key : Text) × (check_shell_permission rules std deleting ≡ denial key)
unfolding check_shell_permission check_single_command check_stripped check_shell_c_inner check_sub
    check_words words_of inner_loop shell_loop rule_verdict is_readonly is_readonly_git
    is_interpreter dash_c command_permission_key has_output_redirect split_shell_commands
    strip_process_wrappers is_wrapper has_equals strip is_space split_words
check_shell_permission_denied_example =
    check_shell_permission_denied rules std deleting std-Fits refl refl

abbrev pushing : Text
pushing = text "ls | git push"

check_shell_permission_open_example :
    check_shell_permission rules std pushing
    ≡ answer
        (prompt_for pushing)
        (first_asked (part_verdict rules std pushing) (split_shell_commands pushing))
unfolding check_shell_permission check_single_command check_stripped check_shell_c_inner check_sub
    check_words words_of inner_loop shell_loop rule_verdict is_readonly is_readonly_git
    is_interpreter dash_c command_permission_key has_output_redirect split_shell_commands
    strip_process_wrappers is_wrapper has_equals strip is_space split_words
check_shell_permission_open_example =
    check_shell_permission_open rules std pushing std-Fits refl refl

split_shell_commands-chain_example :
    split_shell_commands (text "echo 'a;b'" ++ text "&&" ++ text "rm x")
    ≡ split_shell_commands (text "echo 'a;b'") ++ split_shell_commands (text "rm x")
unfolding closed classify
split_shell_commands-chain_example =
    split_shell_commands-chain (text "echo 'a;b'") and_and (text "rm x") refl refl

split_shell_commands-unbroken_example :
    split_shell_commands (text " ls & rm x") ≡ strip (text " ls & rm x") ∷ []
unfolding strip is_space
split_shell_commands-unbroken_example =
    split_shell_commands-unbroken (text " ls & rm x") refl (λ p. cc)

abbrev wrapped : List Text
wrapped = text "timeout" ∷ text "30" ∷ text "rm" ∷ text "x" ∷ []

strip_process_wrappers-Settled_example :
    IsSuffix (strip_process_wrappers std.is_float wrapped) wrapped
    × (((strip_process_wrappers std.is_float wrapped ≡ wrapped) × Peels std.is_float wrapped [])
        ⊎ (Peels std.is_float wrapped (strip_process_wrappers std.is_float wrapped)
            × Settled std.is_float (strip_process_wrappers std.is_float wrapped)))
strip_process_wrappers-Settled_example = strip_process_wrappers-Settled std.is_float wrapped
