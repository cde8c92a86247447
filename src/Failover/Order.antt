-- ===== src/Failover/Order.antt =====
-- nexau/archs/main_sub/execution/middleware/llm_failover.py: which providers `wrap_model_call`
-- reaches, and whose answer it returns.
use nex_au.Prelude.{
  ℕ, ◌≡◌, refl, ◌⊎◌, inl, inr, true, false, Option, none, some, List, [], ◌∷◌, ◌++◌, if◌then◌else◌,
  map,
}
use nex_au.Prelude.Results.{Result, ok, raise}
use nex_au.Failover.{
  CircuitBreaker, Exc, Trigger, raised, primary, fallback, exhausted, skips, should_failover,
  fallback_loop, wrap_model_call, try_next, after_primary,
}

module _ {P R : Type 0} (call : P → Result Exc R) where
  -- Every one of these providers raises.
  pub data Raises : List P → Type 0 where
    nothing : Raises []
    raises : (p : P) (e : Exc) (ps : List P) → call p ≡ raise e → Raises ps → Raises (p ∷ ps)

  fallback_loop-first :
      (before : List P) (p : P) (after : List P) (r : R) (last : Option Exc)
      → Raises before
      → call p ≡ ok r
      → fallback_loop call last (before ++ p ∷ after) ≡ (map fallback (before ++ p ∷ []), ok r)
  unfolding fallback_loop try_next
  fallback_loop-first [] p after r last h c = rw c
  fallback_loop-first (q ∷ before) p after r last (raises _ e _ raised_q h) c =
      rw (raised_q, fallback_loop-first before p after r (some e) h c)

  -- The primary is skipped, whatever it would do, or it raises an exception that the trigger names.
  abbrev pub GoesOver : Trigger → Result Exc R → ℕ → Option CircuitBreaker → Type 0
  GoesOver t call_primary start b =
      (skips start b ≡ true)
      ⊎ ((skips start b ≡ false)
          × ((e : Exc) × (call_primary ≡ raise e) × (should_failover t e ≡ true)))

  -- Where the primary is skipped, whatever it would return or raise, or raises an exception that the
  -- trigger names, the result is that of the first fallback that returns, and no provider behind it is
  -- called; the primary is called exactly where it is not skipped.
  pub wrap_model_call-first :
      (t : Trigger) (call_primary : Result Exc R) (before : List P) (p : P) (after : List P) (r : R)
      (start now : ℕ) (b : Option CircuitBreaker)
      → GoesOver t call_primary start b
      → Raises before
      → call p ≡ ok r
      → (wrap_model_call t call_primary call (before ++ p ∷ after) start now b).result ≡ ok r
        × (wrap_model_call t call_primary call (before ++ p ∷ after) start now b).attempts
          ≡ (if skips start b then [] else primary ∷ []) ++ map fallback (before ++ p ∷ [])
  unfolding wrap_model_call after_primary
  wrap_model_call-first t call_primary before p after r start now b (inl s) h c =
      rw (s, fallback_loop-first before p after r none h c) (refl, refl)
  wrap_model_call-first t call_primary before p after r start now b
        (inr (s, (e, raised_e, matches))) h c =
      rw (raised_e, s, matches, fallback_loop-first before p after r (some e) h c) (refl, refl)

  fallback_loop-last :
      (ps : List P) (p : P) (e : Exc) (last : Option Exc)
      → Raises ps
      → call p ≡ raise e
      → fallback_loop call last (ps ++ p ∷ []) ≡ (map fallback (ps ++ p ∷ []), raise (raised e))
  unfolding fallback_loop try_next exhausted
  fallback_loop-last [] p e last h c = rw c
  fallback_loop-last (q ∷ ps) p e last (raises _ e' _ raised_q h) c =
      rw (raised_q, fallback_loop-last ps p e (some e') h c)

  -- Where the primary is skipped, whatever it would return or raise, or raises an exception that the
  -- trigger names, and every fallback raises, the result is the exception of the last one, and each of
  -- them was called, in order; the primary is called exactly where it is not skipped.
  pub wrap_model_call-last :
      (t : Trigger) (call_primary : Result Exc R) (ps : List P) (p : P) (e' : Exc) (start now : ℕ)
      (b : Option CircuitBreaker)
      → GoesOver t call_primary start b
      → Raises ps
      → call p ≡ raise e'
      → (wrap_model_call t call_primary call (ps ++ p ∷ []) start now b).result ≡ raise (raised e')
        × (wrap_model_call t call_primary call (ps ++ p ∷ []) start now b).attempts
          ≡ (if skips start b then [] else primary ∷ []) ++ map fallback (ps ++ p ∷ [])
  unfolding wrap_model_call after_primary
  wrap_model_call-last t call_primary ps p e' start now b (inl s) h c =
      rw (s, fallback_loop-last ps p e' none h c) (refl, refl)
  wrap_model_call-last t call_primary ps p e' start now b (inr (s, (e, raised_e, matches))) h c =
      rw (raised_e, s, matches, fallback_loop-last ps p e' (some e) h c) (refl, refl)
