-- ===== src/Permissions/Shell.antt =====
-- nexau/archs/permissions/helpers.py: `_check_single_command`, `_check_shell_c_inner` and
-- `check_shell_permission`, the three-way check of a shell command.
pub mod Fuel
pub mod Verdicts
use nex_au.Prelude.{
  ℕ, zero, suc, ◌≡◌, refl, Bool, true, false, not, ◌&&◌, ◌||◌, Option, none, some, List, [], ◌∷◌,
  ◌++◌, ◌==◌, nat_eq, list_eq, contains, length, if◌then◌else◌,
}
use nex_au.Prelude.Text.{Text, text, strip, split_words}
use nex_au.Permissions.{
  Outcome, proceed, permission_denied, ask_permission, recursion_error, Rules, wildcard,
}
use nex_au.Permissions.Split.{split_shell_commands}
use nex_au.Permissions.Wrappers.{
  strip_process_wrappers, command_permission_key, has_output_redirect,
}

-- The pair that `_check_single_command` returns, and what it raises.
pub data Verdict : Type 0 where
  allowed : (key : Text) → Verdict
  ask : (key : Text) → Verdict
  denied : (key : Text) → Verdict
  too_deep : Verdict

-- `_READONLY_COMMANDS`
abbrev readonly_commands : List Text
readonly_commands =
    text "ls"
    ∷ text "cat"
    ∷ text "head"
    ∷ text "tail"
    ∷ text "grep"
    ∷ text "find"
    ∷ text "wc"
    ∷ text "diff"
    ∷ text "stat"
    ∷ text "du"
    ∷ text "cd"
    ∷ text "file"
    ∷ text "which"
    ∷ text "whereis"
    ∷ text "whoami"
    ∷ text "pwd"
    ∷ text "echo"
    ∷ text "printf"
    ∷ text "env"
    ∷ text "printenv"
    ∷ text "date"
    ∷ text "uname"
    ∷ text "hostname"
    ∷ text "id"
    ∷ text "uptime"
    ∷ text "basename"
    ∷ text "dirname"
    ∷ text "realpath"
    ∷ text "readlink"
    ∷ text "md5sum"
    ∷ text "sha256sum"
    ∷ text "sort"
    ∷ text "uniq"
    ∷ text "tr"
    ∷ text "cut"
    ∷ text "tac"
    ∷ text "rev"
    ∷ text "nl"
    ∷ text "fmt"
    ∷ text "fold"
    ∷ text "paste"
    ∷ text "join"
    ∷ text "comm"
    ∷ text "column"
    ∷ text "seq"
    ∷ text "strings"
    ∷ text "xxd"
    ∷ text "egrep"
    ∷ text "fgrep"
    ∷ text "rg"
    ∷ text "ag"
    ∷ text "less"
    ∷ text "more"
    ∷ text "tree"
    ∷ text "type"
    ∷ text "man"
    ∷ text "help"
    ∷ text "test"
    ∷ text "true"
    ∷ text "false"
    ∷ text "["
    ∷ []

unfoldable pub is_readonly : Text → Bool
is_readonly head = contains readonly_commands head

-- `_READONLY_GIT_SUBCOMMANDS`
abbrev readonly_git_subcommands : List Text
readonly_git_subcommands =
    text "log"
    ∷ text "status"
    ∷ text "diff"
    ∷ text "show"
    ∷ text "branch"
    ∷ text "tag"
    ∷ text "remote"
    ∷ text "config"
    ∷ text "describe"
    ∷ text "rev-parse"
    ∷ text "rev-list"
    ∷ text "shortlog"
    ∷ text "blame"
    ∷ text "ls-files"
    ∷ text "ls-tree"
    ∷ text "ls-remote"
    ∷ text "cat-file"
    ∷ text "name-rev"
    ∷ text "reflog"
    ∷ text "grep"
    ∷ text "cherry"
    ∷ text "merge-base"
    ∷ text "count-objects"
    ∷ text "verify-commit"
    ∷ text "verify-tag"
    ∷ text "whatchanged"
    ∷ []

unfoldable pub is_readonly_git : Text → List Text → Bool
is_readonly_git head [] = false
is_readonly_git head (sub ∷ _) = head == text "git" && contains readonly_git_subcommands sub

-- `_SHELL_INTERPRETERS`
abbrev shell_interpreters : List Text
shell_interpreters =
    text "sh" ∷ text "bash" ∷ text "zsh" ∷ text "dash" ∷ text "ksh" ∷ text "fish" ∷ []

unfoldable pub is_interpreter : Text → Bool
is_interpreter head = contains shell_interpreters head

-- `tokens[tokens.index("-c") + 1]`, where both are there.
unfoldable pub dash_c : List Text → Option Text
dash_c [] = none
dash_c (t ∷ []) = none
dash_c (t ∷ u ∷ rest) = if t == text "-c" then some u else dash_c (u ∷ rest)

module _ (rules : Rules) where
  -- The end of `_check_single_command`: deny, the read-only lists, allow, ask.
  unfoldable pub rule_verdict : Text → List Text → Verdict
  rule_verdict head rest =
      let key = command_permission_key head rest in
      let redirect = has_output_redirect rest in
      if contains rules.deny_rules head || contains rules.deny_rules key
      then denied key
      else if is_readonly head && not redirect
      then allowed key
      else if is_readonly_git head rest && not redirect
      then allowed key
      else if contains rules.allow_rules head || contains rules.allow_rules key
      then allowed key
      else ask key

-- What the standard library does: `shlex.split`, which may raise ValueError (`none`), and whether
-- `float(s)` returns.
pub record Tokens : Type 0 where
  pub shlex_split : Text → Option (List Text)
  pub is_float : Text → Bool

-- `shlex.split(sub)`, or `sub.split()` where that fails.
unfoldable pub words_of : Tokens → Text → List Text
words_of std sub = elim (std.shlex_split sub) [ none ↦ split_words sub | some ts ↦ ts ]

-- The body of both loops over sub-commands, up to the verdict: a blank one is passed over.
unfoldable pub check_words : (List Text → Verdict) → List Text → Verdict
check_words check [] = allowed []
check_words check (t ∷ ts) = check (t ∷ ts)

unfoldable pub check_sub : Tokens → (List Text → Verdict) → Text → Verdict
unfolding check_words
check_sub std check sub =
    let s = strip sub in if s == [] then allowed [] else check_words check (words_of std s)

-- `if result == "ask" and not first_ask_key: first_ask_key = perm_key`
pub keep_first : Text → Text → Text
keep_first [] key = key
keep_first (c ∷ k) key = c ∷ k

pub asked : Text → Verdict
asked [] = allowed []
asked (c ∷ k) = ask (c ∷ k)

-- One round of the loop of `_check_shell_c_inner`, and the loop; `go` is the rest of it.
pub inner_step : (Text → Verdict) → Text → Verdict → Verdict
inner_step go first_ask_key (allowed _) = go first_ask_key
inner_step go first_ask_key (ask key) = go (keep_first first_ask_key key)
inner_step go first_ask_key (denied key) = denied key
inner_step go first_ask_key too_deep = too_deep

unfoldable pub inner_loop : (Text → Verdict) → Text → List Text → Verdict
inner_loop check first_ask_key [] = asked first_ask_key
inner_loop check first_ask_key (sub ∷ subs) =
    inner_step (λ key. inner_loop check key subs) first_ask_key (check sub)

unfoldable pub check_shell_c_inner : Tokens → (List Text → Verdict) → Text → Verdict
unfolding inner_loop inner_step asked keep_first
check_shell_c_inner std check inner =
    inner_loop (check_sub std check) [] (split_shell_commands inner)

-- `_check_single_command` behind `_strip_process_wrappers`; `check` is the recursive call.
unfoldable pub check_stripped : Rules → Tokens → (List Text → Verdict) → List Text → Verdict
check_stripped rules std check [] = allowed []
check_stripped rules std check (head ∷ rest) =
    if is_interpreter head
    then elim (dash_c (head ∷ rest)) [
      | none ↦ rule_verdict rules head rest
      | some inner ↦ check_shell_c_inner std check inner
    ]
    else rule_verdict rules head rest

-- `_check_single_command`. `depth` bounds the calls that may be open at once.
unfoldable pub check_single_command : Rules → Tokens → ℕ → List Text → Verdict
check_single_command rules std zero tokens = too_deep
check_single_command rules std (suc depth) [] = allowed []
check_single_command rules std (suc depth) (t ∷ ts) =
    let check = check_single_command rules std depth in
    if t == []
    then allowed []
    else check_stripped rules std check (strip_process_wrappers std.is_float (t ∷ ts))

pub or_first : Option Text → Text → Option Text
or_first none key = some key
or_first (some first) key = some first

-- One round of the loop of `check_shell_permission`, and the loop; `first_ask` is `first_ask_key`
-- once `need_ask` is set.
pub shell_step : (Option Text → Outcome) → Option Text → Verdict → Outcome
shell_step go first_ask (allowed _) = go first_ask
shell_step go first_ask (ask key) = go (or_first first_ask key)
shell_step go first_ask (denied key) = permission_denied (text "命令 " ++ key ++ text " 被禁止") key
shell_step go first_ask too_deep = recursion_error

pub shell_end : Text → Option Text → Outcome
shell_end prompt none = proceed
shell_end prompt (some key) = ask_permission prompt key

unfoldable pub shell_loop : (Text → Verdict) → Text → Option Text → List Text → Outcome
shell_loop check prompt first_ask [] = shell_end prompt first_ask
shell_loop check prompt first_ask (sub ∷ subs) =
    shell_step (λ key. shell_loop check prompt key subs) first_ask (check sub)

-- `check_shell_permission`: nested shells are followed as deep as the command is long, which
-- `Fuel` shows to be enough.
unfoldable pub check_shell_permission : Rules → Tokens → Text → Outcome
unfolding shell_loop shell_step shell_end or_first
check_shell_permission rules std command =
    if contains rules.allow_rules wildcard
    then proceed
    else shell_loop (check_sub std (check_single_command rules std (suc (length command))))
        (text "允许执行 " ++ command ++ text " 吗?") none (split_shell_commands command)
