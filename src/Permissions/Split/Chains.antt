-- ===== src/Permissions/Split/Chains.antt =====
-- nexau/archs/permissions/helpers.py: where `_split_shell_commands` cuts a command.
use mathlib.Core.List.{append_assoc}
use nex_au.Prelude.{
  ℕ, ◌≡◌, refl, sym, ◌∙◌, Bool, true, false, not, ◌&&◌, ◌||◌, Option, none, some, List, [], ◌∷◌,
  ◌++◌, ◌==◌, nat_eq, arith, if◌then◌else◌, Bool-cases, inl, inr,
}
use nex_au.Prelude.Text.{Text, strip}
use nex_au.Permissions.Split.{
  escape, toggle_single, toggle_double, break_two, break_one, plain, backslash, classify, is_and_or,
  keep_part, flush, split_loop, split_shell_commands,
}

-- The operators of a command chain.
pub data Operator : Type 0 where
  semicolon pipe and_and or_or : Operator

abbrev pub symbol : Operator → Text
symbol semicolon = b';' ∷ []
symbol pipe = b'|' ∷ []
symbol and_and = b'&' ∷ b'&' ∷ []
symbol or_or = b'|' ∷ b'|' ∷ []

-- A `|` with a `|` behind it is another operator.
abbrev pub stands_before : Operator → Text → Bool
stands_before pipe (c ∷ _) = not (c == b'|')
stands_before _ _ = true

-- At the end of the text, read from the given state, no quote is open, and the last character
-- neither escapes what follows nor may begin an operator. In this reading a backslash outside single
-- quotes hides the next character, a quote inside the other kind of quotes is a character, and `&&`
-- and `||` outside quotes are read at once.
unfoldable pub closed : (in_single in_double : Bool) → Text → Bool
closed s d [] = not s && not d
closed s d (c ∷ []) =
    if s
    then c == 39 && not d
    else if d
    then c == 34
    else not (c == backslash || c == b'|' || c == b'&' || c == 39 || c == 34)
closed s d (c ∷ n ∷ rest) =
    let behind = closed s d rest in
    let next = closed s d (n ∷ rest) in
    let single = closed (not s) d (n ∷ rest) in
    let double = closed s (not d) (n ∷ rest) in
    if not s && c == backslash
    then behind
    else if not d && c == 39
    then single
    else if not s && c == 34
    then double
    else if not (s || d) && c == n && (c == b'&' || c == b'|')
    then behind
    else next

-- The same, by the tests of the loop.
scan_closed : (in_single in_double : Bool) → Text → Bool
scan_closed s d [] = not s && not d
scan_closed s d (c ∷ []) =
    if s
    then c == 39 && not d
    else if d
    then c == 34
    else not (c == backslash || c == b'|' || c == b'&' || c == 39 || c == 34)
scan_closed s d (c ∷ n ∷ rest) = elim (classify s d c (some n)) [
  | escape ↦ scan_closed s d rest
  | toggle_single ↦ scan_closed (not s) d (n ∷ rest)
  | toggle_double ↦ scan_closed s (not d) (n ∷ rest)
  | break_two ↦ scan_closed s d rest
  | break_one ↦ scan_closed s d (n ∷ rest)
  | plain ↦ scan_closed s d (n ∷ rest)
]

closed-scan : (s d : Bool) (t : Text) → closed s d t ≡ scan_closed s d t
unfolding closed scan_closed classify is_and_or
closed-scan s d [] = refl
closed-scan s d (c ∷ []) = refl
closed-scan s d (c ∷ n ∷ rest) = ground (
  arith,
  closed-scan s d rest,
  closed-scan s d (n ∷ rest),
  closed-scan (not s) d (n ∷ rest),
  closed-scan s (not d) (n ∷ rest),
)

keep_part-append : (p : Text) (ps : List Text) → keep_part p ps ≡ keep_part p [] ++ ps
unfolding keep_part
keep_part-append [] ps = refl
keep_part-append (c ∷ p) ps = refl

flush-append : (p : Text) (ps qs : List Text) → flush p (ps ++ qs) ≡ flush p ps ++ qs
unfolding flush
flush-append p ps qs =
    rw (keep_part-append (strip p) (ps ++ qs), keep_part-append (strip p) ps)
      (sym (append_assoc (keep_part (strip p) []) ps qs))

abbrev pub first : Text → Option ℕ
first [] = none
first (c ∷ _) = some c

-- One round of the loop, for each action that takes one character.
pub step_plain :
    (s d : Bool) (cur : Text) (c : ℕ) (l : Text)
    → classify s d c (first l) ≡ plain
    → split_loop s d cur (c ∷ l) ≡ split_loop s d (cur ++ c ∷ []) l
unfolding split_loop
step_plain s d cur c [] h = ground arith
step_plain s d cur c (n ∷ l) h = ground arith

step_single :
    (s d : Bool) (cur : Text) (c : ℕ) (l : Text)
    → classify s d c (first l) ≡ toggle_single
    → split_loop s d cur (c ∷ l) ≡ split_loop (not s) d (cur ++ c ∷ []) l
unfolding split_loop
step_single s d cur c [] h = ground arith
step_single s d cur c (n ∷ l) h = ground arith

step_double :
    (s d : Bool) (cur : Text) (c : ℕ) (l : Text)
    → classify s d c (first l) ≡ toggle_double
    → split_loop s d cur (c ∷ l) ≡ split_loop s (not d) (cur ++ c ∷ []) l
unfolding split_loop
step_double s d cur c [] h = ground arith
step_double s d cur c (n ∷ l) h = ground arith

step_break :
    (s d : Bool) (cur : Text) (c : ℕ) (l : Text)
    → classify s d c (first l) ≡ break_one
    → split_loop s d cur (c ∷ l) ≡ flush cur (split_loop s d [] l)
unfolding split_loop
step_break s d cur c [] h = ground arith
step_break s d cur c (n ∷ l) h = ground arith

-- An operator outside quotes ends the part.
split_at_symbol :
    (o : Operator) (cur b : Text)
    → stands_before o b ≡ true
    → split_loop false false cur (symbol o ++ b) ≡ flush cur (split_loop false false [] b)
unfolding split_loop classify
split_at_symbol semicolon cur [] h = refl
split_at_symbol semicolon cur (n ∷ b) h = ground arith
split_at_symbol pipe cur [] h = refl
split_at_symbol pipe cur (n ∷ b) h = ground arith
split_at_symbol and_and cur b h = refl
split_at_symbol or_or cur b h = refl

-- The last character of a closed text does the same whatever comes behind it.
data Last (s d : Bool) (c : ℕ) : Type 0 where
  ends_single :
      s ≡ true → d ≡ false → ((n : Option ℕ) → classify s d c n ≡ toggle_single) → Last s d c
  ends_double :
      s ≡ false → d ≡ true → ((n : Option ℕ) → classify s d c n ≡ toggle_double) → Last s d c
  ends_plain : s ≡ false → d ≡ false → ((n : Option ℕ) → classify s d c n ≡ plain) → Last s d c
  ends_break : s ≡ false → d ≡ false → ((n : Option ℕ) → classify s d c n ≡ break_one) → Last s d c

closed-Last : (s d : Bool) (c : ℕ) → scan_closed s d (c ∷ []) ≡ true → Last s d c
unfolding scan_closed classify
closed-Last true true c h = ground arith
closed-Last true false c h = ends_single refl refl (λ n. ground arith)
closed-Last false true c h = ends_double refl refl (λ n. ground arith)
closed-Last false false c h = elim (Bool-cases (c == b';')) [
  | inl e ↦ ends_break refl refl λ n. ground arith
  | inr e ↦ ends_plain refl refl λ n. ground arith
]

split_after :
    (cur : Text) (o : Operator) (b : Text)
    → stands_before o b ≡ true
    → split_loop false false cur (symbol o ++ b)
      ≡ split_loop false false cur [] ++ split_loop false false [] b
unfolding split_loop
split_after cur o b k =
    split_at_symbol o cur b k ∙ flush-append cur [] (split_loop false false [] b)

split-Last :
    (s d : Bool) (cur : Text) (c : ℕ) (o : Operator) (b : Text)
    → Last s d c
    → stands_before o b ≡ true
    → split_loop s d cur (c ∷ symbol o ++ b)
      ≡ split_loop s d cur (c ∷ []) ++ split_loop false false [] b
split-Last s d cur c o b (ends_single p q at) k = ground (
  arith,
  step_single s d cur c (symbol o ++ b) (at _),
  step_single s d cur c [] (at _),
  split_after (cur ++ c ∷ []) o b k,
)
split-Last s d cur c o b (ends_double p q at) k = ground (
  arith,
  step_double s d cur c (symbol o ++ b) (at _),
  step_double s d cur c [] (at _),
  split_after (cur ++ c ∷ []) o b k,
)
split-Last s d cur c o b (ends_plain p q at) k = ground (
  arith,
  step_plain s d cur c (symbol o ++ b) (at _),
  step_plain s d cur c [] (at _),
  split_after (cur ++ c ∷ []) o b k,
)
split-Last s d cur c o b (ends_break p q at) k = ground (
  arith,
  step_break s d cur c (symbol o ++ b) (at _),
  step_break s d cur c [] (at _),
  split_after [] o b k,
  flush-append cur (split_loop false false [] []) (split_loop false false [] b),
)

split_closed :
    (s d : Bool) (cur a : Text) (o : Operator) (b : Text)
    → scan_closed s d a ≡ true
    → stands_before o b ≡ true
    → split_loop s d cur (a ++ symbol o ++ b) ≡ split_loop s d cur a ++ split_loop false false [] b
unfolding scan_closed split_loop
split_closed s d cur [] o b h k = ground (arith, split_after cur o b k)
split_closed s d cur (c ∷ []) o b h k = split-Last s d cur c o b (closed-Last s d c h) k
split_closed s d cur (c ∷ n ∷ a) o b h k = ground (
  arith,
  split_closed s d (cur ++ c ∷ n ∷ []) a o b,
  split_closed (not s) d (cur ++ c ∷ []) (n ∷ a) o b,
  split_closed s (not d) (cur ++ c ∷ []) (n ∷ a) o b,
  split_closed s d (cur ++ c ∷ []) (n ∷ a) o b,
  split_closed s d [] a o b,
  split_closed s d [] (n ∷ a) o b,
  flush-append cur (split_loop s d [] a) (split_loop false false [] b),
  flush-append cur (split_loop s d [] (n ∷ a)) (split_loop false false [] b),
)

-- A chain is split at its operators: where the text before `;`, `|`, `&&` or `||` has its quotes
-- closed and does not end in a backslash or the start of an operator, and what follows `|` is not
-- another `|`, the parts of the chain are the parts of both sides, in order.
pub split_shell_commands-chain :
    (a : Text) (o : Operator) (b : Text)
    → closed false false a ≡ true
    → stands_before o b ≡ true
    → split_shell_commands (a ++ symbol o ++ b) ≡ split_shell_commands a ++ split_shell_commands b
unfolding split_shell_commands
split_shell_commands-chain a o b h k =
    split_closed false false [] a o b (sym (closed-scan false false a) ∙ h) k
