-- ===== src/Failover/Breaker.antt =====
-- The circuit breaker of nexau/archs/main_sub/execution/middleware/llm_failover.py, over the calls
-- of the primary that it is told of.
use nex_au.Prelude.{
  ℕ, ◌+◌, ◌≡◌, refl, ap, ◌∙◌, Bool, List, [], ◌∷◌, arith, leb, inl, inr, not, Bool-cases, ◌-◌, ◌&&◌,
}
use nex_au.Orm.Engine.Laws.{is_some, is_some-none}
use nex_au.Failover.{
  still_open, should_skip_primary, CircuitBreaker, new_breaker, record_success, record_failure,
}

-- What the breaker is told: a call of the primary that returned, or one that raised at a time.
pub data Report : Type 0 where
  success : Report
  failure : (now : ℕ) → Report

abbrev pub told : Report → CircuitBreaker → CircuitBreaker
told success b = record_success b
told (failure now) b = record_failure now b

abbrev pub told_all : List Report → CircuitBreaker → CircuitBreaker
told_all [] b = b
told_all (r ∷ rs) b = told_all rs (told r b)

-- The failures since the last success, on top of `n`.
abbrev pub streak : ℕ → List Report → ℕ
streak n [] = n
streak n (success ∷ rs) = streak 0 rs
streak n (failure _ ∷ rs) = streak (n + 1) rs

-- Whether the count says that the breaker is open: the threshold is reached by a failure.
abbrev pub tripped : ℕ → ℕ → Bool
tripped threshold n = leb 1 n && leb threshold n

abbrev pub Consistent : CircuitBreaker → Type 0
Consistent b = is_some b.opened_at ≡ tripped b.threshold b.consecutive_failures

told-Consistent :
    (r : Report) (b : CircuitBreaker)
    → Consistent b
    → Consistent (told r b)
      × (told r b).threshold ≡ b.threshold
      × (told r b).recovery_timeout ≡ b.recovery_timeout
      × (told r b).consecutive_failures ≡ streak b.consecutive_failures (r ∷ [])
unfolding record_success record_failure
told-Consistent success b h = (refl, refl, refl, refl)
told-Consistent (failure now) b h = (ground arith, ground arith, ground arith, ground arith)

told_all-Consistent :
    (rs : List Report) (b : CircuitBreaker)
    → Consistent b
    → Consistent (told_all rs b)
      × (told_all rs b).threshold ≡ b.threshold
      × (told_all rs b).recovery_timeout ≡ b.recovery_timeout
      × (told_all rs b).consecutive_failures ≡ streak b.consecutive_failures rs
unfolding record_success
told_all-Consistent [] b h = (h, refl, refl, refl)
told_all-Consistent (success ∷ rs) b h =
    let (good, _, _, _) = told-Consistent success b h in
    told_all-Consistent rs (told success b) good
told_all-Consistent (failure now ∷ rs) b h =
    let (good, same, time, count) = told-Consistent (failure now) b h in
    let (good', same', time', count') = told_all-Consistent rs (told (failure now) b) good in
    (good', same' ∙ same, time' ∙ time, count' ∙ ap (λ n. streak n rs) count)

record_failure-skip :
    (b : CircuitBreaker) (now later : ℕ)
    → Consistent b
    → should_skip_primary later (record_failure now b)
      ≡ tripped b.threshold (b.consecutive_failures + 1)
        && not (leb b.recovery_timeout (later - now))
unfolding should_skip_primary record_failure still_open
record_failure-skip b now later h =
    elim (Bool-cases (leb b.threshold (b.consecutive_failures + 1))) [
      | inl p ↦ ground (arith, p)
      | inr p ↦
          let closed = is_some-none b.opened_at (h ∙ ground (arith, p)) in ground (arith, p, closed)
    ]

-- At a failure of the primary, which is reported at the time `now`, behind any earlier reports:
-- the primary is skipped at a later time exactly if the failures since the last success, this one
-- counted, reach the threshold, and the recovery timeout has not passed since `now`.
pub record_failure-skips :
    (n timeout : ℕ) (rs : List Report) (now later : ℕ)
    → should_skip_primary later (record_failure now (told_all rs (new_breaker n timeout)))
      ≡ tripped n (streak 0 rs + 1) && not (leb timeout (later - now))
unfolding new_breaker
record_failure-skips n timeout rs now later =
    let (good, same, time, count) = told_all-Consistent rs (new_breaker n timeout) refl in
    record_failure-skip (told_all rs (new_breaker n timeout)) now later good
    ∙ rw (same, time, count) refl
