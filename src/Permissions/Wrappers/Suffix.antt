-- ===== src/Permissions/Wrappers/Suffix.antt =====
-- What is left when the process wrappers are stripped.
use mathlib.Core.List.{append_assoc}
use nex_au.Prelude.{
  ℕ, zero, suc, ◌+◌, ◌≤◌, ◌≡◌, ◌≢◌, refl, ap, ◌⊎◌, inl, inr, Bool, false, not, ◌&&◌, ◌||◌, List, [],
  ◌∷◌, ◌++◌, arith, length, Bool-cases,
}
use nex_au.Prelude.Text.{Text, total_length}
use nex_au.Permissions.Wrappers.{
  Head, wrapper, env, xargs, other, head_kind, env_loop, or_else, starts_with_dash, has_equals,
  skip_flags, skip_assignments, skip_arguments, strip_loop, strip_process_wrappers, is_wrapper,
}

-- `ys` is what is left of `xs` when words are dropped from its front.
abbrev pub IsSuffix : List Text → List Text → Type 0
IsSuffix ys xs = (dropped : List Text) × (xs ≡ dropped ++ ys)

IsSuffix-refl : (xs : List Text) → IsSuffix xs xs
IsSuffix-refl xs = ([], refl)

IsSuffix-cons : (t : Text) {ys xs : List Text} → IsSuffix ys xs → IsSuffix ys (t ∷ xs)
IsSuffix-cons t (p, e) = (t ∷ p, ap (λ l. t ∷ l) e)

IsSuffix-trans : {zs ys xs : List Text} → IsSuffix zs ys → IsSuffix ys xs → IsSuffix zs xs
IsSuffix-trans {zs} (p, e) (q, f) = (q ++ p, cc (e, f, append_assoc q p zs))

total_length-append :
    (xs ys : List Text) → total_length (xs ++ ys) ≡ total_length xs + total_length ys
total_length-append [] ys = omega arith
total_length-append (x ∷ xs) ys = omega (arith, total_length-append xs ys)

length-append_texts : (xs ys : List Text) → length (xs ++ ys) ≡ length xs + length ys
length-append_texts [] ys = omega arith
length-append_texts (x ∷ xs) ys = omega (arith, length-append_texts xs ys)

pub IsSuffix-length : {ys xs : List Text} → IsSuffix ys xs → length ys ≤ length xs
IsSuffix-length {ys} {xs} (p, e) = omega (arith, ap length e, length-append_texts p ys)

pub IsSuffix-total_length : {ys xs : List Text} → IsSuffix ys xs → total_length ys ≤ total_length xs
IsSuffix-total_length {ys} {xs} (p, e) = omega (arith, ap total_length e, total_length-append p ys)

pub skip_flags-IsSuffix : (ts : List Text) → IsSuffix (skip_flags ts) ts
unfolding skip_flags
skip_flags-IsSuffix [] = IsSuffix-refl []
skip_flags-IsSuffix (t ∷ ts) = elim (Bool-cases (starts_with_dash t)) [
  | inl e ↦ rw e (IsSuffix-cons t (skip_flags-IsSuffix ts))
  | inr e ↦ rw e (IsSuffix-refl (t ∷ ts))
]

pub skip_assignments-IsSuffix : (ts : List Text) → IsSuffix (skip_assignments ts) ts
unfolding skip_assignments
skip_assignments-IsSuffix [] = IsSuffix-refl []
skip_assignments-IsSuffix (t ∷ ts) = elim (Bool-cases (has_equals t && not (starts_with_dash t))) [
  | inl e ↦ rw e (IsSuffix-cons t (skip_assignments-IsSuffix ts))
  | inr e ↦ rw e (IsSuffix-refl (t ∷ ts))
]

pub Head-cases : (h : Head) → (h ≡ wrapper) ⊎ ((h ≡ env) ⊎ ((h ≡ xargs) ⊎ (h ≡ other)))
Head-cases wrapper = inl refl
Head-cases env = inr (inl refl)
Head-cases xargs = inr (inr (inl refl))
Head-cases other = inr (inr (inr refl))

module _ (is_float : Text → Bool) where
  pub skip_arguments-IsSuffix : (ts : List Text) → IsSuffix (skip_arguments is_float ts) ts
  unfolding skip_arguments
  skip_arguments-IsSuffix [] = IsSuffix-refl []
  skip_arguments-IsSuffix (t ∷ ts) = elim (Bool-cases (starts_with_dash t || is_float t)) [
    | inl e ↦ rw e (IsSuffix-cons t (skip_arguments-IsSuffix ts))
    | inr e ↦ rw e (IsSuffix-refl (t ∷ ts))
  ]

  env_loop-IsSuffix :
      (go : List Text → List Text) (whole rest : List Text)
      → IsSuffix rest whole
      → ((t : Text) (ts : List Text) → rest ≡ t ∷ ts → IsSuffix (go (t ∷ ts)) (t ∷ ts))
      → IsSuffix (env_loop go whole rest) whole
  unfolding env_loop
  env_loop-IsSuffix go whole [] s h = IsSuffix-refl whole
  env_loop-IsSuffix go whole (t ∷ ts) s h = IsSuffix-trans (h t ts refl) s

  strip_loop-IsSuffix : (fuel : ℕ) (ts : List Text) → IsSuffix (strip_loop is_float fuel ts) ts
  unfolding strip_loop
  strip_loop-IsSuffix zero ts = IsSuffix-refl ts
  strip_loop-IsSuffix (suc fuel) [] = IsSuffix-refl []
  strip_loop-IsSuffix (suc fuel) (t ∷ ts) = elim (Head-cases (head_kind t ts)) [
    | inl e ↦
        rw (e, strip_loop)
          (IsSuffix-cons t
            (IsSuffix-trans (strip_loop-IsSuffix fuel _) (skip_arguments-IsSuffix ts)))
    | inr (inl e) ↦
        rw (e, strip_loop)
          (env_loop-IsSuffix (strip_loop is_float fuel) (t ∷ ts) _
            (IsSuffix-cons t
              (IsSuffix-trans (skip_assignments-IsSuffix _) (skip_flags-IsSuffix ts)))
            (λ u us _. strip_loop-IsSuffix fuel (u ∷ us)))
    | inr (inr (inl e)) ↦ rw (e, strip_loop) (IsSuffix-cons t (strip_loop-IsSuffix fuel ts))
    | inr (inr (inr e)) ↦ rw (e, strip_loop) (IsSuffix-refl (t ∷ ts))
  ]

  -- Stripping the process wrappers only drops words from the front of a command.
  pub strip_process_wrappers-IsSuffix :
      (tokens : List Text) → IsSuffix (strip_process_wrappers is_float tokens) tokens
  unfolding strip_process_wrappers or_else
  strip_process_wrappers-IsSuffix tokens =
      or_else_IsSuffix _ (strip_loop-IsSuffix (length tokens) tokens)
    where
      or_else_IsSuffix : (r : List Text) → IsSuffix r tokens → IsSuffix (or_else r tokens) tokens
      or_else_IsSuffix [] h = IsSuffix-refl tokens
      or_else_IsSuffix (t ∷ ts) h = h

  -- No wrapper stands at the head.
  abbrev pub Settled : List Text → Type 0
  Settled [] = Unit
  Settled (t ∷ ts) = is_wrapper t ≡ false

  head_kind_wrapper : (t : Text) (ts : List Text) → head_kind t ts ≢ wrapper → is_wrapper t ≡ false
  unfolding head_kind
  head_kind_wrapper t ts h = ground arith

  env_loop-Settled :
      (go : List Text → List Text) (whole rest : List Text)
      → Settled whole
      → ((t : Text) (ts : List Text) → rest ≡ t ∷ ts → Settled (go (t ∷ ts)))
      → Settled (env_loop go whole rest)
  unfolding env_loop
  env_loop-Settled go whole [] s h = s
  env_loop-Settled go whole (t ∷ ts) s h = h t ts refl

  pub strip_loop-Settled :
      (fuel : ℕ) (ts : List Text) → length ts ≤ fuel → Settled (strip_loop is_float fuel ts)
  unfolding strip_loop
  strip_loop-Settled zero [] h = tt
  strip_loop-Settled zero (t ∷ ts) h = absurd (omega arith)
  strip_loop-Settled (suc fuel) [] h = tt
  strip_loop-Settled (suc fuel) (t ∷ ts) h = elim (Head-cases (head_kind t ts)) [
    | inl e ↦
        rw (e, strip_loop)
          (strip_loop-Settled fuel _ (omega (arith, IsSuffix-length (skip_arguments-IsSuffix ts))))
    | inr (inl e) ↦
        rw (e, strip_loop)
          (env_loop-Settled (strip_loop is_float fuel) (t ∷ ts) _ (head_kind_wrapper t ts (λ p. cc))
            (λ u us p. strip_loop-Settled fuel (u ∷ us) (
              omega (
                arith,
                IsSuffix-length (skip_flags-IsSuffix ts),
                IsSuffix-length (skip_assignments-IsSuffix (skip_flags ts)),
                ap length p,
              ))))
    | inr (inr (inl e)) ↦ rw (e, strip_loop) (strip_loop-Settled fuel ts (omega arith))
    | inr (inr (inr e)) ↦ rw (e, strip_loop) (head_kind_wrapper t ts (λ p. cc))
  ]
