-- ===== src/Permissions/Shell/Verdicts.antt =====
-- What `check_shell_permission` decides, in terms of the parts of the command.
use nex_au.Prelude.{
  ℕ, suc, ◌<◌, ◌≡◌, ◌≢◌, refl, ◌∙◌, ◌⊎◌, Bool, true, false, ◌||◌, Option, none, some, List, [], ◌∷◌,
  ◌++◌, arith, length, All, any, contains, beq_self, ◌==◌, list_eq, nat_eq,
}
use nex_au.Prelude.Text.{Text, text, total_length}
use nex_au.Permissions.{Outcome, proceed, permission_denied, ask_permission, Rules, wildcard}
use nex_au.Permissions.Split.{split_shell_commands}
use nex_au.Permissions.Wrappers.{
  strip_process_wrappers, command_permission_key, has_output_redirect,
}
use nex_au.Permissions.Shell.{
  Verdict, allowed, ask, denied, too_deep, Tokens, is_readonly, is_readonly_git, is_interpreter,
  rule_verdict, dash_c, check_sub, keep_first, inner_loop, inner_step, check_shell_c_inner,
  check_stripped, check_single_command, shell_end, shell_loop, shell_step, or_first,
  check_shell_permission,
}
use nex_au.Permissions.Shell.Fuel.{Fits, parts-ne-too_deep, inner_parts-ne-too_deep}

abbrev pub is_denied : Verdict → Bool
is_denied (denied _) = true
is_denied _ = false

abbrev asks : Verdict → Option Text → Option Text
asks (ask key) later = some key
asks _ later = later

-- The key of the first part that asks.
abbrev pub first_asked : (Text → Verdict) → List Text → Option Text
first_asked check [] = none
first_asked check (s ∷ ss) = asks (check s) (first_asked check ss)

-- The verdict on one part of a command.
abbrev pub part_verdict : Rules → Tokens → Text → Text → Verdict
part_verdict rules std command =
    check_sub std (check_single_command rules std (suc (length command)))

abbrev pub denial : Text → Outcome
denial key = permission_denied (text "命令 " ++ key ++ text " 被禁止") key

abbrev pub or_later : Option Text → Option Text → Option Text
or_later none later = later
or_later (some key) later = some key

-- One round of a loop over the parts, where the rest of the loop meets the claim.
shell_step-denied :
    (go : Option Text → Outcome) (first : Option Text) (v : Verdict) (later : Bool)
    → v ≢ too_deep
    → (is_denied v || later) ≡ true
    → ((k : Option Text) → later ≡ true → (key : Text) × (go k ≡ denial key))
    → (key : Text) × (shell_step go first v ≡ denial key)
unfolding shell_step
shell_step-denied go first (allowed _) later n d h = h first d
shell_step-denied go first (ask k) later n d h = h (or_first first k) d
shell_step-denied go first (denied k) later n d h = (k, refl)
shell_step-denied go first too_deep later n d h = absurd (n refl)

shell_step-open :
    (go : Option Text → Outcome) (prompt : Text) (first : Option Text) (v : Verdict) (later : Bool)
    (rest : Option Text)
    → v ≢ too_deep
    → (is_denied v || later) ≡ false
    → ((k : Option Text) → later ≡ false → go k ≡ shell_end prompt (or_later k rest))
    → shell_step go first v ≡ shell_end prompt (or_later first (asks v rest))
unfolding shell_step or_first
shell_step-open go prompt first (allowed _) later rest n d h = h first d
shell_step-open go prompt none (ask k) later rest n d h = h (some k) d
shell_step-open go prompt (some f) (ask k) later rest n d h = h (some f) d
shell_step-open go prompt first (denied k) later rest n d h = cc
shell_step-open go prompt first too_deep later rest n d h = absurd (n refl)

inner_step-denied :
    (go : Text → Verdict) (first : Text) (v : Verdict) (later : Bool)
    → v ≢ too_deep
    → (is_denied v || later) ≡ true
    → ((k : Text) → later ≡ true → (key : Text) × (go k ≡ denied key))
    → (key : Text) × (inner_step go first v ≡ denied key)
unfolding inner_step
inner_step-denied go first (allowed _) later n d h = h first d
inner_step-denied go first (ask k) later n d h = h (keep_first first k) d
inner_step-denied go first (denied k) later n d h = (k, refl)
inner_step-denied go first too_deep later n d h = absurd (n refl)

module _ (check : Text → Verdict) where
  shell_loop-denied :
      (prompt : Text) (first : Option Text) (parts : List Text)
      → All (λ s. check s ≢ too_deep) parts
      → any (λ s. is_denied (check s)) parts ≡ true
      → (key : Text) × (shell_loop check prompt first parts ≡ denial key)
  unfolding shell_loop
  shell_loop-denied prompt first [] h d = cc
  shell_loop-denied prompt first (s ∷ ss) h d =
      shell_step-denied _ first (check s) _ h.0 d (λ k e. shell_loop-denied prompt k ss h.1 e)

  shell_loop-open :
      (prompt : Text) (first : Option Text) (parts : List Text)
      → All (λ s. check s ≢ too_deep) parts
      → any (λ s. is_denied (check s)) parts ≡ false
      → shell_loop check prompt first parts
        ≡ shell_end prompt (or_later first (first_asked check parts))
  unfolding shell_loop
  shell_loop-open prompt none [] h d = refl
  shell_loop-open prompt (some k) [] h d = refl
  shell_loop-open prompt first (s ∷ ss) h d =
      shell_step-open _ prompt first (check s) _ _ h.0 d (λ k e. shell_loop-open prompt k ss h.1 e)

  inner_loop-denied :
      (first : Text) (parts : List Text)
      → All (λ s. check s ≢ too_deep) parts
      → any (λ s. is_denied (check s)) parts ≡ true
      → (key : Text) × (inner_loop check first parts ≡ denied key)
  unfolding inner_loop
  inner_loop-denied first [] h d = cc
  inner_loop-denied first (s ∷ ss) h d =
      inner_step-denied _ first (check s) _ h.0 d (λ k e. inner_loop-denied k ss h.1 e)

abbrev pub prompt_for : Text → Text
prompt_for command = text "允许执行 " ++ command ++ text " 吗?"

-- What a key that is asked for, or none, leads to.
abbrev pub answer : Text → Option Text → Outcome
answer prompt none = proceed
answer prompt (some key) = ask_permission prompt key

shell_end-answer : (prompt : Text) (k : Option Text) → shell_end prompt k ≡ answer prompt k
unfolding shell_end
shell_end-answer prompt none = refl
shell_end-answer prompt (some k) = refl

-- Without the wildcard, where a rule denies one part of the command, in whatever place, the whole
-- command is denied: no part before it that asks, or is allowed, changes that. (`shlex.split` is
-- assumed to return no more characters than it is given.)
pub check_shell_permission_denied :
    (rules : Rules) (std : Tokens) (command : Text)
    → Fits std
    → contains rules.allow_rules wildcard ≡ false
    → any (λ s. is_denied (part_verdict rules std command s)) (split_shell_commands command) ≡ true
    → (key : Text) × (check_shell_permission rules std command ≡ denial key)
unfolding check_shell_permission
check_shell_permission_denied rules std command f w d = rw w (
    shell_loop-denied (part_verdict rules std command) _ none _
      (parts-ne-too_deep rules std f command) d)

-- Without the wildcard, where no part of the command is denied, the check comes to an end, however
-- deep the shells are nested: it asks, with the key of the first part that asks, and it proceeds
-- only where every part is allowed. (`shlex.split` is assumed to return no more characters than it
-- is given.)
pub check_shell_permission_open :
    (rules : Rules) (std : Tokens) (command : Text)
    → Fits std
    → contains rules.allow_rules wildcard ≡ false
    → any (λ s. is_denied (part_verdict rules std command s)) (split_shell_commands command) ≡ false
    → check_shell_permission rules std command
      ≡ answer
          (prompt_for command)
          (first_asked (part_verdict rules std command) (split_shell_commands command))
unfolding check_shell_permission
check_shell_permission_open rules std command f w d = rw w (
    shell_loop-open (part_verdict rules std command) _ none _
      (parts-ne-too_deep rules std f command) d
    ∙ shell_end-answer _ _)

-- A command that is run by `sh -c`, behind process wrappers or not, is judged by its own parts:
-- where a rule denies one of them, the shell that would run it is denied.
pub nested_shell_denied :
    (rules : Rules) (std : Tokens) (depth : ℕ) (t : Text) (ts : List Text) (head inner : Text)
    (rest : List Text)
    → Fits std
    → total_length (t ∷ ts) < suc depth
    → (t == []) ≡ false
    → strip_process_wrappers std.is_float (t ∷ ts) ≡ head ∷ text "-c" ∷ inner ∷ rest
    → is_interpreter head ≡ true
    → (head == text "-c") ≡ false
    → any
        (λ s. is_denied (check_sub std (check_single_command rules std depth) s))
        (split_shell_commands inner)
      ≡ true
    → (key : Text) × (check_single_command rules std (suc depth) (t ∷ ts) ≡ denied key)
unfolding check_single_command check_stripped dash_c check_shell_c_inner
nested_shell_denied rules std depth t ts head inner rest f b n e i m d =
    rw (n, e, i, m)
      (inner_loop-denied _ [] (split_shell_commands inner)
        (inner_parts-ne-too_deep rules std f depth t ts head inner rest e b) d)

-- A command that is neither blank nor run by a shell is allowed without asking only if no deny
-- rule names its head or its key, and it is a read-only command whose output is not redirected or
-- an allow rule names its head or its key.
pub rule_verdict_allowed :
    (rules : Rules) (head : Text) (rest : List Text) {key : Text}
    → rule_verdict rules head rest ≡ allowed key
    → (key ≡ command_permission_key head rest)
      × (contains rules.deny_rules head ≡ false)
      × (contains rules.deny_rules key ≡ false)
      × (((is_readonly head || is_readonly_git head rest) ≡ true)
            × (has_output_redirect rest ≡ false)
          ⊎ ((contains rules.allow_rules head || contains rules.allow_rules key) ≡ true))
unfolding rule_verdict
rule_verdict_allowed rules head rest h = ground arith

-- The rules once the user has granted a key.
abbrev pub grant : Text → Rules → Rules
grant key rules = record rules { allow_rules = key ∷ rules.allow_rules }

-- Granting the key that a command asked for resolves the question: with that key among the allow
-- rules the same command is allowed.
pub rule_verdict-grant :
    (rules : Rules) (head : Text) (rest : List Text) {key : Text}
    → rule_verdict rules head rest ≡ ask key
    → rule_verdict (grant key rules) head rest ≡ allowed key
unfolding rule_verdict
rule_verdict-grant rules head rest {key} h =
    ground (arith, beq_self key, beq_self (command_permission_key head rest))
