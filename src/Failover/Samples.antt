-- ===== src/Failover/Samples.antt =====
-- The theorems on the failover at sample providers.
use nex_au.Prelude.{
  ℕ, ◌+◌, ◌-◌, ◌≡◌, refl, inl, inr, not, ◌&&◌, ◌==◌, nat_eq, none, some, [], ◌∷◌, ◌++◌, map, leb,
  if◌then◌else◌,
}
use nex_au.Prelude.Results.{Result, ok, raise}
use nex_au.Prelude.Text.{text}
use nex_au.Failover.{
  CircuitBreaker, still_open, new_breaker, record_failure, should_skip_primary, Exc, Trigger,
  should_failover, raised, primary, fallback, skips, wrap_model_call,
}
use nex_au.Failover.Breaker.{failure, told_all, streak, tripped, record_failure-skips}
use nex_au.Failover.Order.{nothing, raises, wrap_model_call-first, wrap_model_call-last}

record_failure-skips_example :
    should_skip_primary 30 (record_failure 9 (told_all (failure 7 ∷ []) (new_breaker 2 60)))
    ≡ tripped 2 (streak 0 (failure 7 ∷ []) + 1) && not (leb 60 (30 - 9))
record_failure-skips_example = record_failure-skips 2 60 (failure 7 ∷ []) 9 30

abbrev overloaded : Exc
overloaded = record { status_code = some 503; type_name = text "InternalServerError" }

abbrev trigger : Trigger
trigger = record { status_codes = 500 ∷ 502 ∷ 503 ∷ []; exception_types = [] }

-- The provider 2 answers, the others are overloaded.
abbrev call : ℕ → Result Exc ℕ
call p = if p == 2 then ok 42 else raise overloaded

wrap_model_call-first_example :
    (wrap_model_call trigger (raise overloaded) call (1 ∷ 2 ∷ 3 ∷ []) 0 1 none).result ≡ ok 42
    × (wrap_model_call trigger (raise overloaded) call (1 ∷ 2 ∷ 3 ∷ []) 0 1 none).attempts
      ≡ (if skips 0 none then [] else primary ∷ []) ++ map fallback (1 ∷ 2 ∷ [])
unfolding should_failover skips
wrap_model_call-first_example =
    wrap_model_call-first call trigger (raise overloaded) (1 ∷ []) 2 (3 ∷ []) 42 0 1 none
      (inr (refl, (overloaded, refl, refl))) (raises 1 overloaded [] refl nothing) refl

-- A breaker that is open: the primary would answer, and is not called.
abbrev opened : CircuitBreaker
opened = record {
  threshold = 1;
  recovery_timeout = 60;
  consecutive_failures = 1;
  opened_at = some 4;
}

wrap_model_call-last_example :
    (wrap_model_call trigger (ok 7) call (1 ∷ 3 ∷ []) 5 6 (some opened)).result
      ≡ raise (raised overloaded)
    × (wrap_model_call trigger (ok 7) call (1 ∷ 3 ∷ []) 5 6 (some opened)).attempts
      ≡ (if skips 5 (some opened) then [] else primary ∷ []) ++ map fallback (1 ∷ 3 ∷ [])
unfolding skips should_skip_primary still_open
wrap_model_call-last_example =
    wrap_model_call-last call trigger (ok 7) (1 ∷ []) 3 overloaded 5 6 (some opened) (inl refl)
      (raises 1 overloaded [] refl nothing) refl
