-- ===== src/Team/Watchdog.antt =====
-- nexau/archs/main_sub/team/watchdog.py: the watchdog that wakes the leader when all agents idle.
pub mod Notices
use nex_au.Prelude.{
  ℕ, ◌+◌, ◌≡◌, refl, Bool, true, false, not, ◌&&◌, List, [], ◌∷◌, ◌==◌, nat_eq, list_eq,
  if◌then◌else◌,
}
use nex_au.Prelude.Text.{Text, text}

-- TeammateWatchdog: `_start_times`, `_stopped`, `_idle_notified`, and whether both callbacks of the
-- idle check are given. `asleep` says that the loop of `run` is inside its sleep, and `notices` counts
-- the calls of `_notify_leader`.
pub record Watchdog : Type 0 where
  pub start_times : List (Text × ℕ)
  pub stopped : Bool
  pub idle_notified : Bool
  pub wired : Bool
  pub asleep : Bool
  pub notices : ℕ

-- `self._start_times[agent_id] = t`
put_time : Text → ℕ → List (Text × ℕ) → List (Text × ℕ)
put_time a t [] = (a, t) ∷ []
put_time a t ((b, u) ∷ m) =
    let rest = put_time a t m in if b == a then (a, t) ∷ m else (b, u) ∷ rest

-- `self._start_times.pop(agent_id, None)`
drop_time : Text → List (Text × ℕ) → List (Text × ℕ)
drop_time a [] = []
drop_time a ((b, u) ∷ m) = let rest = drop_time a m in if b == a then m else (b, u) ∷ rest

is_watching : List (Text × ℕ) → Bool
is_watching [] = false
is_watching (_ ∷ _) = true

pub stop : Watchdog → Watchdog
stop w = record w { stopped = true }

pub register : Text → ℕ → Watchdog → Watchdog
unfolding put_time
register a now w = record w { start_times = put_time a now w.start_times; idle_notified = false }

pub unregister : Text → Watchdog → Watchdog
unfolding drop_time
unregister a w = record w { start_times = drop_time a w.start_times; idle_notified = false }

pub reset_idle_notification : Watchdog → Watchdog
reset_idle_notification w = record w { idle_notified = false }

-- The start of `run`.
pub start_run : Watchdog → Watchdog
start_run w = record w { stopped = false; idle_notified = false; asleep = false }

-- `while not self._stopped`, and into the sleep.
pub test_loop : Watchdog → Watchdog
test_loop w = if w.stopped then w else record w { asleep = true }

-- The body of the loop behind the sleep; `all_idle` is what `_check_all_idle` returns.
pub tick : (all_idle : Bool) → Watchdog → Watchdog
unfolding is_watching
tick all_idle w =
    if w.wired && is_watching w.start_times && (all_idle && not w.idle_notified)
    then record w { asleep = false; idle_notified = true; notices = w.notices + 1 }
    else record w { asleep = false }

-- What happens to a watchdog while it runs: its loop tests whether it goes on and falls asleep, or
-- wakes up; or a call comes from outside, also during the sleep.
pub data Event : Type 0 where
  testing : Event
  waking : (all_idle : Bool) → Event
  registered : Text → ℕ → Event
  unregistered : Text → Event
  reset stopping : Event

pub handle : Event → Watchdog → Watchdog
unfolding test_loop tick register unregister reset_idle_notification stop
handle testing w = test_loop w
handle (waking all_idle) w = if w.asleep then tick all_idle w else w
handle (registered a now) w = register a now w
handle (unregistered a) w = unregister a w
handle reset w = reset_idle_notification w
handle stopping w = stop w

pub handle_all : List Event → Watchdog → Watchdog
unfolding handle
handle_all [] w = w
handle_all (e ∷ es) w = handle_all es (handle e w)
