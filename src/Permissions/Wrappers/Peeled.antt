-- ===== src/Permissions/Wrappers/Peeled.antt =====
-- What the program makes of a command that runs through process wrappers.
use nex_au.Prelude.{
  ℕ, zero, suc, ◌≤◌, ◌≡◌, refl, ap, ◌⊎◌, inl, inr, Bool, true, false, not, ◌&&◌, ◌||◌, List, [],
  ◌∷◌, arith, length, Bool-cases,
}
use nex_au.Prelude.Text.{Text}
use nex_au.Permissions.Wrappers.{
  wrapper, env, xargs, other, head_kind, env_loop, or_else, skip_flags, skip_assignments,
  skip_arguments, strip_loop, strip_process_wrappers, starts_with_dash, has_equals,
}
use nex_au.Permissions.Wrappers.Suffix.{
  IsSuffix, IsSuffix-length, skip_flags-IsSuffix, skip_assignments-IsSuffix,
  skip_arguments-IsSuffix, Head-cases, Settled, strip_loop-Settled, strip_process_wrappers-IsSuffix,
}

-- The words from the first one on that does not pass the test.
pub data Dropped (test : Text → Bool) : List Text → List Text → Type 0 where
  all_dropped : Dropped test [] []
  stays : {t : Text} {ts : List Text} → test t ≡ false → Dropped test (t ∷ ts) (t ∷ ts)
  drops :
      {t : Text} {ts us : List Text} → test t ≡ true → Dropped test ts us → Dropped test (t ∷ ts) us

abbrev pub is_assignment : Text → Bool
is_assignment t = has_equals t && not (starts_with_dash t)

skip_flags-Dropped : (ts : List Text) → Dropped starts_with_dash ts (skip_flags ts)
unfolding skip_flags
skip_flags-Dropped [] = all_dropped
skip_flags-Dropped (t ∷ ts) = elim (Bool-cases (starts_with_dash t)) [
  | inl e ↦ rw e (drops e (skip_flags-Dropped ts))
  | inr e ↦ rw e (stays e)
]

skip_assignments-Dropped : (ts : List Text) → Dropped is_assignment ts (skip_assignments ts)
unfolding skip_assignments
skip_assignments-Dropped [] = all_dropped
skip_assignments-Dropped (t ∷ ts) = elim (Bool-cases (is_assignment t)) [
  | inl e ↦ rw e (drops e (skip_assignments-Dropped ts))
  | inr e ↦ rw e (stays e)
]

module _ (is_float : Text → Bool) where
  abbrev pub is_argument : Text → Bool
  is_argument t = starts_with_dash t || is_float t

  skip_arguments-Dropped : (ts : List Text) → Dropped is_argument ts (skip_arguments is_float ts)
  unfolding skip_arguments
  skip_arguments-Dropped [] = all_dropped
  skip_arguments-Dropped (t ∷ ts) = elim (Bool-cases (is_argument t)) [
    | inl e ↦ rw e (drops e (skip_arguments-Dropped ts))
    | inr e ↦ rw e (stays e)
  ]

  -- How the program takes a command apart: `Peels ts rest` where `rest` is what it comes to when
  -- one wrapper after the other is taken off, with the flags and numbers behind it; behind `env`, its
  -- flags and assignments; and `xargs` alone. A bare `env` is a command.
  pub data Peels : List Text → List Text → Type 0 where
    used_up : Peels [] []
    command : {t : Text} {ts : List Text} → head_kind t ts ≡ other → Peels (t ∷ ts) (t ∷ ts)
    behind_wrapper :
        {t : Text} {ts us rest : List Text}
        → head_kind t ts ≡ wrapper
        → Dropped is_argument ts us
        → Peels us rest
        → Peels (t ∷ ts) rest
    bare_env :
        {t : Text} {ts us : List Text}
        → head_kind t ts ≡ env
        → Dropped starts_with_dash ts us
        → Dropped is_assignment us []
        → Peels (t ∷ ts) (t ∷ ts)
    behind_env :
        {t v : Text} {ts us vs rest : List Text}
        → head_kind t ts ≡ env
        → Dropped starts_with_dash ts us
        → Dropped is_assignment us (v ∷ vs)
        → Peels (v ∷ vs) rest
        → Peels (t ∷ ts) rest
    behind_xargs :
        {t : Text} {ts rest : List Text}
        → head_kind t ts ≡ xargs
        → Peels ts rest
        → Peels (t ∷ ts) rest

  env_loop-Peels :
      (fuel : ℕ) (t : Text) (ts rest : List Text)
      → head_kind t ts ≡ env
      → Dropped is_assignment (skip_flags ts) rest
      → ((u : Text) (us : List Text)
          → rest ≡ u ∷ us
          → Peels (u ∷ us) (strip_loop is_float fuel (u ∷ us)))
      → Peels (t ∷ ts) (env_loop (strip_loop is_float fuel) (t ∷ ts) rest)
  unfolding env_loop
  env_loop-Peels fuel t ts [] e p h = bare_env e (skip_flags-Dropped ts) p
  env_loop-Peels fuel t ts (u ∷ us) e p h = behind_env e (skip_flags-Dropped ts) p (h u us refl)

  strip_loop-Peels :
      (fuel : ℕ) (ts : List Text) → length ts ≤ fuel → Peels ts (strip_loop is_float fuel ts)
  unfolding strip_loop
  strip_loop-Peels zero [] h = used_up
  strip_loop-Peels zero (t ∷ ts) h = absurd (omega arith)
  strip_loop-Peels (suc fuel) [] h = used_up
  strip_loop-Peels (suc fuel) (t ∷ ts) h = elim (Head-cases (head_kind t ts)) [
    | inl e ↦
        rw (e, strip_loop)
          (behind_wrapper e (skip_arguments-Dropped ts) (
            strip_loop-Peels fuel _
              (omega (arith, IsSuffix-length (skip_arguments-IsSuffix is_float ts)))))
    | inr (inl e) ↦
        rw (e, strip_loop)
          (env_loop-Peels fuel t ts (skip_assignments (skip_flags ts)) e
            (skip_assignments-Dropped (skip_flags ts))
            (λ u us p. strip_loop-Peels fuel (u ∷ us) (
              omega (
                arith,
                IsSuffix-length (skip_flags-IsSuffix ts),
                IsSuffix-length (skip_assignments-IsSuffix (skip_flags ts)),
                ap length p,
              ))))
    | inr (inr (inl e)) ↦
        rw (e, strip_loop) (behind_xargs e (strip_loop-Peels fuel ts (omega arith)))
    | inr (inr (inr e)) ↦ rw (e, strip_loop) (command e)
  ]

  -- The words that a command is judged by are the last words of the command: those that are left when
  -- its wrappers are taken off, and they begin with no process wrapper; or the whole command, where
  -- taking the wrappers off leaves no word.
  pub strip_process_wrappers-Settled :
      (tokens : List Text)
      → IsSuffix (strip_process_wrappers is_float tokens) tokens
        × (((strip_process_wrappers is_float tokens ≡ tokens) × Peels tokens [])
            ⊎ (Peels tokens (strip_process_wrappers is_float tokens)
                × Settled is_float (strip_process_wrappers is_float tokens)))
  unfolding strip_process_wrappers or_else
  strip_process_wrappers-Settled tokens = (
    strip_process_wrappers-IsSuffix is_float tokens,
    settled _ (strip_loop-Peels (length tokens) tokens (omega arith))
        (strip_loop-Settled is_float (length tokens) tokens (omega arith)),
  )
    where
      settled :
          (r : List Text)
          → Peels tokens r
          → Settled is_float r
          → ((or_else r tokens ≡ tokens) × Peels tokens [])
            ⊎ (Peels tokens (or_else r tokens) × Settled is_float (or_else r tokens))
      settled [] p h = inl (refl, p)
      settled (t ∷ ts) p h = inr (p, h)
