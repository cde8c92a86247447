-- ===== src/ApplyPatch/Seek.antt =====
-- nexau/archs/tool/builtin/file_tools/apply_patch.py: where `_seek_sequence` finds a pattern.
use nex_au.Prelude.{
  ℕ, zero, suc, ◌+◌, ◌-◌, ◌≤◌, ◌<◌, ◌≡◌, refl, ap, sym, ◌∙◌, ◌⊎◌, inl, inr, Bool, true, false,
  Option, none, some, List, [], ◌∷◌, ◌==◌, list_eq, nat_eq, length, take, drop, map, arith, ltb,
  Bool-cases, beq_path, beq_self, and-eq-true, subst,
}
use nex_au.Prelude.Text.{Text, strip, rstrip, lstrip}
use nex_au.ApplyPatch.{
  normalize_unicode_line, all_same, first_index, or_else, exact_at, rstrip_at, strip_at, unicode_at,
  normalize_char, search, search_start, seek_sequence,
}

module _ (test : ℕ → Bool) where
  first_index-found :
      (start n : ℕ) {i : ℕ}
      → first_index test start n ≡ some i
      → test i ≡ true × start ≤ i × i < start + n
  unfolding first_index
  first_index-found start zero h = cc
  first_index-found start (suc n) {i} h = elim (Bool-cases (test start)) [
    | inl e ↦
        let p : start ≡ i = (let q = rw e at h in cc q) in
        (ap test (sym p) ∙ e, omega (arith, p), omega (arith, p))
    | inr e ↦
        let (a, b, c) = first_index-found (suc start) n (rw e at h) in (a, omega arith, omega arith)
  ]

  next_index : (start i : ℕ) → test i ≡ true → test start ≡ false → start ≤ i → suc start ≤ i
  next_index start i h e a = elim (Bool-cases (ltb start i)) [
    | inl l ↦ ground (arith, l)
    | inr l ↦ let p : start ≡ i = ground (arith, l) in let q = ap test p ∙ h in absurd (cc (q, e))
  ]

  -- The first index from `start` on that passes.
  abbrev pub FirstFrom : ℕ → ℕ → Type 0
  FirstFrom start j = (test j ≡ true) × start ≤ j × ((k : ℕ) → start ≤ k → k < j → test k ≡ false)

  FirstFrom-next : (start j : ℕ) → test start ≡ false → FirstFrom (suc start) j → FirstFrom start j
  FirstFrom-next start j e (t, a, none_before) = (
    t,
    omega arith,
    λ k l u. elim (Bool-cases (ltb start k)) [
      | inl d ↦ none_before k (ground (arith, d)) u
      | inr d ↦ let p : start ≡ k = ground (arith, d) in sym (ap test p) ∙ e
    ],
  )

  first_index-least :
      (start n i : ℕ)
      → test i ≡ true
      → start ≤ i
      → i < start + n
      → (j : ℕ) × (first_index test start n ≡ some j) × j ≤ i × FirstFrom start j
  unfolding first_index
  first_index-least start zero i h a b = absurd (omega arith)
  first_index-least start (suc n) i h a b = elim (Bool-cases (test start)) [
    | inl e ↦ (start, rw e refl, a, (e, omega arith, λ k l u. absurd (omega (arith, l, u))))
    | inr e ↦
        let below : suc start ≤ i = next_index start i h e a in
        let (j, p, q, r) = first_index-least (suc start) n i h below (omega arith) in
        (j, rw e p, q, FirstFrom-next start j e r)
  ]

-- A test that holds between equal lines holds wherever the lines are the pattern itself.
all_same-take :
    (same : Text → Text → Bool) (lines pattern : List Text)
    → ((l : Text) → same l l ≡ true)
    → take (length pattern) lines ≡ pattern
    → all_same same lines pattern ≡ true
unfolding all_same
all_same-take same lines [] h p = refl
all_same-take same [] (q ∷ qs) h p = cc
all_same-take same (l ∷ lines) (q ∷ qs) h p =
    let e : l ≡ q = cc p in
    let e' : take (length qs) lines ≡ qs = cc p in
    rw (all_same-take same lines qs h e', subst (λ x. same l x ≡ true) e (h l)) refl

-- A test that follows from another one.
all_same-weaker :
    (f g : Text → Text) (lines pattern : List Text)
    → all_same (λ l p. f l == f p) lines pattern ≡ true
    → all_same (λ l p. g (f l) == g (f p)) lines pattern ≡ true
unfolding all_same
all_same-weaker f g lines [] h = refl
all_same-weaker f g [] (q ∷ qs) h = cc
all_same-weaker f g (l ∷ lines) (q ∷ qs) h =
    let (a, b) = and-eq-true (f l == f q) (all_same (λ l p. f l == f p) lines qs) h in
    rw (beq_path (f l) (f q) a, all_same-weaker f g lines qs b, beq_self (g (f q))) refl

-- However the four tests find a place, the lines there are the pattern's, up to blanks at both ends
-- and the punctuation that is normalized.
unicode_at-exact :
    (lines pattern : List Text) (i : ℕ)
    → exact_at lines pattern i ≡ true
    → unicode_at lines pattern i ≡ true
unfolding exact_at unicode_at
unicode_at-exact lines pattern i h =
    all_same-take _ (drop i lines) pattern (λ l. beq_self (normalize_unicode_line l))
      (beq_path _ pattern h)

unicode_at-strip :
    (lines pattern : List Text) (i : ℕ)
    → strip_at lines pattern i ≡ true
    → unicode_at lines pattern i ≡ true
unfolding strip_at unicode_at normalize_unicode_line
unicode_at-strip lines pattern i h =
    all_same-weaker strip (map normalize_char) (drop i lines) pattern h

unicode_at-rstrip :
    (lines pattern : List Text) (i : ℕ)
    → rstrip_at lines pattern i ≡ true
    → unicode_at lines pattern i ≡ true
unfolding rstrip_at unicode_at normalize_unicode_line strip
unicode_at-rstrip lines pattern i h =
    all_same-weaker rstrip (λ t. map normalize_char (lstrip t)) (drop i lines) pattern h

or_else-cases : (a b : Option ℕ) {i : ℕ} → or_else a b ≡ some i → (a ≡ some i) ⊎ (b ≡ some i)
unfolding or_else
or_else-cases none b h = inr h
or_else-cases (some j) b h = inl h

search_step :
    (lines pattern : List Text) (test : ℕ → Bool) (start n : ℕ) {other : Option ℕ} {i : ℕ}
    → ((k : ℕ) → test k ≡ true → unicode_at lines pattern k ≡ true)
    → (other ≡ some i → unicode_at lines pattern i ≡ true × start ≤ i × i < start + n)
    → or_else (first_index test start n) other ≡ some i
    → unicode_at lines pattern i ≡ true × start ≤ i × i < start + n
search_step lines pattern test start n {other} {i} weaker rest h =
    elim (or_else-cases (first_index test start n) other h) [
      | inl a ↦ let (t, l, u) = first_index-found test start n a in (weaker i t, l, u)
      | inr b ↦ rest b
    ]

search-found :
    (lines pattern : List Text) (start n : ℕ) {i : ℕ}
    → search lines pattern start n ≡ some i
    → unicode_at lines pattern i ≡ true × start ≤ i × i < start + n
unfolding search
search-found lines pattern start n h =
    search_step lines pattern (exact_at lines pattern) start n (unicode_at-exact lines pattern)
      (search_step lines pattern (rstrip_at lines pattern) start n (unicode_at-rstrip lines pattern)
        (search_step lines pattern (strip_at lines pattern) start n (unicode_at-strip lines pattern)
          (first_index-found (unicode_at lines pattern) start n)))
      h

-- Where a pattern with a line is found, it lies within the file, at the place from which it is looked
-- for or behind that, and the lines there are the pattern's up to the blanks at both ends and the
-- punctuation that is normalized.
pub seek_sequence-found :
    (lines : List Text) (p : Text) (ps : List Text) (start : ℕ) (eof : Bool) {i : ℕ}
    → seek_sequence lines (p ∷ ps) start eof ≡ some i
    → (unicode_at lines (p ∷ ps) i ≡ true)
      × (search_start lines (p ∷ ps) start eof ≤ i)
      × (i + length (p ∷ ps) ≤ length lines)
unfolding seek_sequence
seek_sequence-found lines p ps start eof {i} h =
    elim (Bool-cases (ltb (length lines) (length (p ∷ ps)))) [
      | inl e ↦ let q = rw e at h in absurd (cc q)
      | inr e ↦
          let (t, a, b) = search-found lines (p ∷ ps) _ _ (rw e at h) in
          (t, a, ground (arith, e, a, b))
    ]

-- An exact match is preferred: where the pattern stands in the lines as it is, at the place from which
-- it is looked for or behind that, the first such place is found: at or behind the place from which it
-- is looked for, with no exact match between the two, whatever looser matches there are before it.
pub seek_sequence-exact :
    (lines : List Text) (p : Text) (ps : List Text) (start : ℕ) (eof : Bool) (i : ℕ)
    → exact_at lines (p ∷ ps) i ≡ true
    → search_start lines (p ∷ ps) start eof ≤ i
    → i + length (p ∷ ps) ≤ length lines
    → (j : ℕ) × (seek_sequence lines (p ∷ ps) start eof ≡ some j)
      × j ≤ i
      × FirstFrom (exact_at lines (p ∷ ps)) (search_start lines (p ∷ ps) start eof) j
unfolding seek_sequence search or_else
seek_sequence-exact lines p ps start eof i h a b =
    let (j, f, l, first) =
      first_index-least (exact_at lines (p ∷ ps)) (search_start lines (p ∷ ps) start eof)
        (length lines - length (p ∷ ps) + 1 - search_start lines (p ∷ ps) start eof) i h a
        (omega arith) in
    let e : ltb (length lines) (length (p ∷ ps)) ≡ false = ground arith in
    (j, rw (e, f) refl, l, first)
