-- ===== src/Sandbox/Output/Repeated.antt =====
-- nexau/archs/sandbox/output_utils.py: `collapse_repetitive` on lines that it has collapsed.
use nex_au.Prelude.{
  ℕ, zero, suc, ◌-◌, ◌≤◌, ◌<◌, ◌≡◌, refl, ap, sym, ◌∙◌, inl, inr, Bool, true, false, List, [], ◌∷◌,
  ◌++◌, ◌==◌, nat_eq, list_eq, arith, leb, length, take, All, Bool-cases, beq_path, subst, beq_self,
  ne_beq, beq_ne,
}
use nex_au.Prelude.Text.{Text}
use nex_au.Sandbox.Output.{
  summary_of, last_of, shown, normalize_for_similarity, similar, collapse_from,
}

module _ (digit : ℕ → Bool) (m : ℕ) where
  -- A list of lines that does not begin with one of the given form.
  abbrev Other : Text → List Text → Type 0
  Other key [] = Unit {0}
  Other key (l ∷ ls) = (normalize_for_similarity digit l == key) ≡ false

  abbrev Alike : Text → List Text → Type 0
  Alike key ls = All (λ l. (normalize_for_similarity digit l == key) ≡ true) ls

  collapse_from-suc :
      (k : ℕ) (l : Text) (ls : List Text)
      → collapse_from digit m (suc k) (l ∷ ls) ≡ collapse_from digit m k ls
  unfolding collapse_from
  collapse_from-suc k l ls =
      let e : (suc k == 0) ≡ false = ground arith in
      let p : suc k - 1 ≡ k = omega arith in rw e (ap (λ n. collapse_from digit m n ls) p)

  collapse_from-ahead :
      (xs rest : List Text)
      → collapse_from digit m (length xs) (xs ++ rest) ≡ collapse_from digit m 0 rest
  collapse_from-ahead [] rest = refl
  collapse_from-ahead (x ∷ xs) rest =
      collapse_from-suc (length xs) x (xs ++ rest) ∙ collapse_from-ahead xs rest

  similar-Alike :
      (key : Text) (xs rest : List Text)
      → Alike key xs
      → Other key rest
      → similar digit key (xs ++ rest) ≡ length xs
  unfolding similar
  similar-Alike key [] [] a o = refl
  similar-Alike key [] (r ∷ rest) a o = rw o refl
  similar-Alike key (x ∷ xs) rest a o = rw (a.0) (ap suc (similar-Alike key xs rest a.1 o))

  take-run : (xs rest : List Text) → take (length xs) (xs ++ rest) ≡ xs
  take-run [] [] = refl
  take-run [] (r ∷ rest) = refl
  take-run (x ∷ xs) rest = ap (λ ys. x ∷ ys) (take-run xs rest)

  -- A run that is too short to collapse stays.
  collapse_from-short :
      (l : Text) (xs rest : List Text)
      → Alike (normalize_for_similarity digit l) xs
      → Other (normalize_for_similarity digit l) rest
      → suc (length xs) < m
      → collapse_from digit m 0 (l ∷ xs ++ rest) ≡ l ∷ xs ++ collapse_from digit m 0 rest
  unfolding collapse_from shown
  collapse_from-short l xs rest a o h =
      let long : leb m (suc (length xs)) ≡ false = ground arith in
      rw (similar-Alike (normalize_for_similarity digit l) xs rest a o, take-run xs rest, long)
        (ap (λ ys. l ∷ xs ++ ys) (collapse_from-ahead xs rest))

  shown-Other :
      (key l : Text) (more rest : List Text)
      → (normalize_for_similarity digit l == key) ≡ false
      → Other key (shown m l more ++ rest)
  unfolding shown
  shown-Other key l more rest e = elim (Bool-cases (leb m (suc (length more)))) [
    | inl b ↦ rw b e
    | inr b ↦ rw b e
  ]

  -- What is left behind a run begins with another form.
  similar-others :
      (key : Text) (ls : List Text) → Other key (collapse_from digit m (similar digit key ls) ls)
  unfolding similar collapse_from
  similar-others key [] = tt
  similar-others key (l ∷ ls) = elim (Bool-cases (normalize_for_similarity digit l == key)) [
    | inl b ↦ rw b (
        subst (Other key) (sym (collapse_from-suc (similar digit key ls) l ls))
          (similar-others key ls))
    | inr b ↦ rw b (shown-Other key l _ _ b)
  ]

  similar-run : (key : Text) (ls : List Text) → Alike key (take (similar digit key ls) ls)
  unfolding similar
  similar-run key [] = tt
  similar-run key (l ∷ ls) = elim (Bool-cases (normalize_for_similarity digit l == key)) [
    | inl b ↦ rw b (b, similar-run key ls)
    | inr b ↦ rw b tt
  ]

  last_of-Alike :
      (key l : Text) (more : List Text)
      → (normalize_for_similarity digit l == key) ≡ true
      → Alike key more
      → (normalize_for_similarity digit (last_of l more) == key) ≡ true
  last_of-Alike key l [] e a = e
  last_of-Alike key l (x ∷ more) e a = last_of-Alike key x more a.0 a.1

  abbrev Settled : List Text → Type 0
  Settled ls = collapse_from digit m 0 ls ≡ ls

  -- The first and the last line of a run with a line between them.
  ends-Settled :
      (l s z : Text) (rest : List Text)
      → 4 ≤ m
      → (normalize_for_similarity digit z == normalize_for_similarity digit l) ≡ true
      → Other (normalize_for_similarity digit l) rest
      → Settled rest
      → Settled (l ∷ s ∷ z ∷ rest)
  ends-Settled l s z rest h e o r =
      elim (Bool-cases (normalize_for_similarity digit s == normalize_for_similarity digit l)) [
        | inl b ↦
            collapse_from-short l (s ∷ z ∷ []) rest (b, (e, tt)) o (omega arith)
            ∙ ap (λ ys. l ∷ s ∷ z ∷ ys) r
        | inr b ↦
            let same : normalize_for_similarity digit z ≡ normalize_for_similarity digit l =
              beq_path (normalize_for_similarity digit z) (normalize_for_similarity digit l) e in
            let differ : (normalize_for_similarity digit z == normalize_for_similarity digit s)
                ≡ false =
              ne_beq (normalize_for_similarity digit z) (normalize_for_similarity digit s) λ p.
                beq_ne (normalize_for_similarity digit s) (normalize_for_similarity digit l) b
                  (sym p ∙ same) in
            collapse_from-short l [] (s ∷ z ∷ rest) tt b (omega arith)
            ∙ ap (λ ys. l ∷ ys)
                (collapse_from-short s [] (z ∷ rest) tt differ (omega arith)
                  ∙ ap (λ ys. s ∷ ys)
                      (collapse_from-short z [] rest tt (subst (λ key. Other key rest) (sym same) o)
                          (omega arith)
                        ∙ ap (λ ys. z ∷ ys) r))
      ]

  shown-Settled :
      (l : Text) (more rest : List Text)
      → 4 ≤ m
      → Alike (normalize_for_similarity digit l) more
      → Other (normalize_for_similarity digit l) rest
      → Settled rest
      → Settled (shown m l more ++ rest)
  unfolding shown
  shown-Settled l more rest h a o r = elim (Bool-cases (leb m (suc (length more)))) [
    | inl b ↦ rw b (
        ends-Settled l (summary_of (suc (length more))) (last_of l more) rest h
          (last_of-Alike (normalize_for_similarity digit l) l more
            (beq_self (normalize_for_similarity digit l)) a)
          o r)
    | inr b ↦
        rw b (collapse_from-short l more rest a o (ground arith) ∙ ap (λ ys. l ∷ more ++ ys) r)
  ]

  collapse_from-Settled :
      (left : ℕ) (ls : List Text) → 4 ≤ m → Settled (collapse_from digit m left ls)
  unfolding collapse_from
  collapse_from-Settled left [] h = refl
  collapse_from-Settled zero (l ∷ ls) h =
      shown-Settled l (take (similar digit (normalize_for_similarity digit l) ls) ls)
        (collapse_from digit m (similar digit (normalize_for_similarity digit l) ls) ls) h
        (similar-run (normalize_for_similarity digit l) ls)
        (similar-others (normalize_for_similarity digit l) ls)
        (collapse_from-Settled (similar digit (normalize_for_similarity digit l) ls) ls h)
  collapse_from-Settled (suc left) (l ∷ ls) h =
      subst Settled (sym (collapse_from-suc left l ls)) (collapse_from-Settled left ls h)

  -- Where a run collapses from four lines on, or from more, collapsing the lines of an output a
  -- second time changes nothing, whatever the lines are: also where a line has the form of the
  -- summary.
  pub collapse_from-again :
      (ls : List Text)
      → 4 ≤ m
      → collapse_from digit m 0 (collapse_from digit m 0 ls) ≡ collapse_from digit m 0 ls
  collapse_from-again ls h = collapse_from-Settled 0 ls h
