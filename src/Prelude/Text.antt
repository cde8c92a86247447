-- ===== src/Prelude/Text.antt =====
-- Python's `str` as its code points, with the methods that the program walks text by.
use Prim.Native.Char.{code}
use nex_au.Prelude.Tests.{leb, if◌then◌else◌}
use nex_au.Prelude.Equality.{◌==◌, nat_eq, list_eq}
use nex_au.Prelude.Lists.{length, length-append}
use Prim.Native.Nat.{ℕ, suc, ◌+◌, ◌≤◌}
use Prim.Native.String.{String}
use mathlib.Core.Path.{◌≡◌, refl}
use mathlib.Core.Bool.{Bool, true, false, ◌&&◌, ◌||◌}
use mathlib.Core.List.{List, [], ◌∷◌, ◌++◌}
use native.Mathlib.Omega.{arith}

abbrev pub Text : Type 0
Text = List ℕ

-- The code points of a literal.
abbrev pub text : String → Text
text String.[] = []
text (String.◌∷◌ c s) = code c ∷ text s

-- `str.isspace` of one character.
unfoldable pub is_space : ℕ → Bool
is_space c =
    (leb 9 c && leb c 13)
    || (leb 28 c && leb c 32)
    || c == 0x85
    || c == 0xa0
    || c == 0x1680
    || (leb 0x2000 c && leb c 0x200a)
    || c == 0x2028
    || c == 0x2029
    || c == 0x202f
    || c == 0x205f
    || c == 0x3000

-- `str.startswith`
unfoldable pub starts_with : Text → Text → Bool
starts_with s [] = true
starts_with [] (p ∷ ps) = false
starts_with (c ∷ s) (p ∷ ps) = (c == p) && starts_with s ps

-- `str.lstrip()`, `str.rstrip()` and `str.strip()`
pub lstrip : Text → Text
lstrip [] = []
lstrip (c ∷ s) = let rest = lstrip s in if is_space c then rest else c ∷ s

cons_unless_blank : ℕ → Text → Text
cons_unless_blank c [] = if is_space c then [] else c ∷ []
cons_unless_blank c (d ∷ s) = c ∷ d ∷ s

pub rstrip : Text → Text
unfolding cons_unless_blank
rstrip [] = []
rstrip (c ∷ s) = cons_unless_blank c (rstrip s)

unfoldable pub strip : Text → Text
unfolding lstrip rstrip
strip s = lstrip (rstrip s)

-- `str.split()`: `word` holds the current word.
flush_word : Text → List Text → List Text
flush_word [] ws = ws
flush_word (c ∷ w) ws = (c ∷ w) ∷ ws

split_from : Text → Text → List Text
unfolding flush_word
split_from word [] = flush_word word []
split_from word (c ∷ s) =
    let rest = flush_word word (split_from [] s) in
    let longer = split_from (word ++ c ∷ []) s in if is_space c then rest else longer

unfoldable pub split_words : Text → List Text
unfolding split_from is_space
split_words s = split_from [] s

pub length-lstrip : (s : Text) → length (lstrip s) ≤ length s
unfolding lstrip
length-lstrip [] = omega arith
length-lstrip (c ∷ s) = ground (arith, length-lstrip s)

length-cons_unless_blank : (c : ℕ) (s : Text) → length (cons_unless_blank c s) ≤ suc (length s)
unfolding cons_unless_blank
length-cons_unless_blank c [] = ground arith
length-cons_unless_blank c (d ∷ s) = omega arith

pub length-rstrip : (s : Text) → length (rstrip s) ≤ length s
unfolding rstrip
length-rstrip [] = omega arith
length-rstrip (c ∷ s) = omega (arith, length-cons_unless_blank c (rstrip s), length-rstrip s)

pub length-strip : (s : Text) → length (strip s) ≤ length s
unfolding strip
length-strip s = omega (arith, length-lstrip (rstrip s), length-rstrip s)

split_sample : split_words (text " a bc  d") ≡ text "a" ∷ text "bc" ∷ text "d" ∷ []
unfolding split_words
split_sample = refl

strip_sample : strip (text " a b  ") ≡ text "a b"
unfolding strip is_space
strip_sample = refl

-- The characters of the words, all together.
abbrev pub total_length : List Text → ℕ
total_length [] = 0
total_length (w ∷ ws) = length w + total_length ws

total_length-flush_word :
    (w : Text) (ws : List Text) → total_length (flush_word w ws) ≡ length w + total_length ws
unfolding flush_word
total_length-flush_word [] ws = omega arith
total_length-flush_word (c ∷ w) ws = refl

total_length-split_from : (w s : Text) → total_length (split_from w s) ≤ length w + length s
unfolding split_from
total_length-split_from w [] = omega (arith, total_length-flush_word w [])
total_length-split_from w (c ∷ s) = ground (
  arith,
  total_length-flush_word w (split_from [] s),
  total_length-split_from [] s,
  total_length-split_from (w ++ c ∷ []) s,
  length-append w (c ∷ []),
)

pub total_length-split_words : (s : Text) → total_length (split_words s) ≤ length s
unfolding split_words
total_length-split_words s = omega (arith, total_length-split_from [] s)
