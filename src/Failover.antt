-- ===== src/Failover.antt =====
-- nexau/archs/main_sub/execution/middleware/llm_failover.py: the failover to other providers, and
-- the circuit breaker that skips a failing primary.
pub mod Breaker
pub mod Order
mod Samples
use nex_au.Prelude.{
  ℕ, suc, ◌+◌, ◌-◌, ◌≡◌, refl, Bool, true, false, not, ◌&&◌, ◌||◌, Option, none, some, List, [],
  ◌∷◌, ◌==◌, nat_eq, list_eq, contains, leb, if◌then◌else◌,
}
use nex_au.Prelude.Results.{Result, ok, raise}
use nex_au.Prelude.Text.{Text, text}

-- _CircuitBreaker with its CircuitBreakerConfig; times are readings of `time.monotonic()`, in the
-- unit of `recovery_timeout`.
pub record CircuitBreaker : Type 0 where
  pub threshold : ℕ
  pub recovery_timeout : ℕ
  pub consecutive_failures : ℕ
  pub opened_at : Option ℕ

-- `__init__`
pub new_breaker : (failure_threshold recovery_timeout : ℕ) → CircuitBreaker
new_breaker n timeout = record {
  threshold = n;
  recovery_timeout = timeout;
  consecutive_failures = 0;
  opened_at = none;
}

pub still_open : (timeout now : ℕ) → Option ℕ → Bool
still_open timeout now none = false
still_open timeout now (some opened) = not (leb timeout (now - opened))

pub should_skip_primary : ℕ → CircuitBreaker → Bool
unfolding still_open
should_skip_primary now b = still_open b.recovery_timeout now b.opened_at

pub record_success : CircuitBreaker → CircuitBreaker
record_success b = record b { consecutive_failures = 0; opened_at = none }

pub record_failure : ℕ → CircuitBreaker → CircuitBreaker
record_failure now b =
    let b' : CircuitBreaker = record b { consecutive_failures = b.consecutive_failures + 1 } in
    if leb b.threshold (b.consecutive_failures + 1) then record b' { opened_at = some now } else b'

-- An exception, as far as the middleware looks at it: the status code that an SDK's APIStatusError
-- carries, and the name of its type.
pub record Exc : Type 0 where
  pub status_code : Option ℕ
  pub type_name : Text

-- FailoverTrigger
pub record Trigger : Type 0 where
  pub status_codes : List ℕ
  pub exception_types : List Text

status_in : List ℕ → Option ℕ → Bool
status_in codes none = false
status_in codes (some c) = contains codes c

-- `_should_failover`
pub should_failover : Trigger → Exc → Bool
unfolding status_in
should_failover t e =
    status_in t.status_codes e.status_code || contains t.exception_types e.type_name

-- What a call may raise: an exception of the provider, or the RuntimeError of the last line.
pub data Failure : Type 0 where
  raised : Exc → Failure
  no_provider : Failure

-- The providers in the order in which they are called.
pub data Attempt (P : Type 0) : Type 0 where
  primary : Attempt P
  fallback : P → Attempt P

-- What `wrap_model_call` leaves: the breaker, the calls that it made, and its result.
pub record Answer (P R : Type 0) : Type 0 where
  pub breaker : Option CircuitBreaker
  pub attempts : List (Attempt P)
  pub result : Result Failure R

-- The end of the method, where no fallback is left.
pub exhausted : {R : Type 0} → Option Exc → Result Failure R
exhausted none = raise no_provider
exhausted (some e) = raise (raised e)

-- The breaker is optional.
when_present : (CircuitBreaker → CircuitBreaker) → Option CircuitBreaker → Option CircuitBreaker
when_present f none = none
when_present f (some b) = some (f b)

pub skips : ℕ → Option CircuitBreaker → Bool
skips now none = false
skips now (some b) = should_skip_primary now b

module _ {P R : Type 0} where
  -- The loop over the fallback providers; `call` is `_apply_fallback` with the call behind it.
  pub try_next :
      P
      → (Option Exc → List (Attempt P) × Result Failure R)
      → Result Exc R
      → List (Attempt P) × Result Failure R
  try_next p go (ok r) = (fallback p ∷ [], ok r)
  try_next p go (raise e) = (fallback p ∷ (go (some e)).0, (go (some e)).1)

  pub fallback_loop : (P → Result Exc R) → Option Exc → List P → List (Attempt P) × Result Failure R
  unfolding exhausted try_next
  fallback_loop call last [] = ([], exhausted last)
  fallback_loop call last (p ∷ ps) = try_next p (λ e. fallback_loop call e ps) (call p)

  -- Behind the call of the primary, which returned or raised at the time `now`.
  pub after_primary :
      Trigger → (P → Result Exc R) → List P → ℕ → Option CircuitBreaker → Result Exc R → Answer P R
  unfolding when_present
  after_primary t call ps now b (ok r) = record {
    breaker = when_present record_success b;
    attempts = primary ∷ [];
    result = ok r;
  }
  after_primary t call ps now b (raise e) =
      let rest = fallback_loop call (some e) ps in
      record {
        breaker = when_present (record_failure now) b;
        attempts = if should_failover t e then primary ∷ rest.0 else primary ∷ [];
        result = if should_failover t e then rest.1 else raise (raised e);
      }

  -- `wrap_model_call`, called at `start`; the call of the primary ends at `now`.
  pub wrap_model_call :
      Trigger
      → (call_primary : Result Exc R) → (P → Result Exc R)
      → List P
      → (start now : ℕ) → Option CircuitBreaker
      → Answer P R
  unfolding after_primary fallback_loop
  wrap_model_call t call_primary call ps start now b =
      let skipped = fallback_loop call none ps in
      if skips start b
      then record { breaker = b; attempts = skipped.0; result = skipped.1 }
      else after_primary t call ps now b call_primary
