-- ===== src/Team/Watchdog/Notices.antt =====
-- nexau/archs/main_sub/team/watchdog.py: how often the watchdog wakes the leader.
use nex_au.Prelude.{ℕ, ◌+◌, ◌≤◌, ◌≡◌, refl, Bool, true, false, List, [], ◌∷◌, arith, if◌then◌else◌}
use nex_au.Team.Watchdog.{
  Watchdog, Event, testing, waking, registered, unregistered, reset, stopping, handle, handle_all,
  start_run,
}

-- The events that allow another notice.
abbrev pub is_change : Event → Bool
is_change (registered _ _) = true
is_change (unregistered _) = true
is_change reset = true
is_change _ = false

abbrev pub changes : List Event → ℕ
changes [] = 0
changes (e ∷ es) = (if is_change e then 1 else 0) + changes es

-- A notice that can still be given before the next change.
abbrev pub due : Watchdog → ℕ
due w = if w.idle_notified then 0 else 1

handle-due :
    (e : Event) (w : Watchdog)
    → (handle e w).notices + due (handle e w) ≤ w.notices + due w + (if is_change e then 1 else 0)
unfolding handle
handle-due testing w = ground arith
handle-due (waking all_idle) w = ground arith
handle-due (registered a now) w = ground arith
handle-due (unregistered a) w = ground arith
handle-due reset w = ground arith
handle-due stopping w = ground arith

handle_all-due :
    (es : List Event) (w : Watchdog)
    → (handle_all es w).notices + due (handle_all es w) ≤ w.notices + due w + changes es
unfolding handle_all
handle_all-due [] w = omega arith
handle_all-due (e ∷ es) w = omega (arith, handle-due e w, handle_all-due es (handle e w))

-- In one run the leader is woken at most once more often than the team changed: however many rounds
-- find all agents idle, without a registration, an unregistration or a reset there is one notice.
pub run_notices :
    (es : List Event) (w : Watchdog)
    → (handle_all es (start_run w)).notices ≤ w.notices + 1 + changes es
unfolding start_run
run_notices es w =
    omega (
      arith,
      handle_all-due es (record w { stopped = false; idle_notified = false; asleep = false }),
    )

-- A notice that a sleeping loop can still give.
abbrev pub last : Watchdog → ℕ
last w = if w.asleep then 1 else 0

handle_stopped :
    (e : Event) (w : Watchdog)
    → w.stopped ≡ true
    → (handle e w).stopped ≡ true × (handle e w).notices + last (handle e w) ≤ w.notices + last w
unfolding handle
handle_stopped testing w h = (ground (arith, h), ground (arith, h))
handle_stopped (waking b) w h = (ground (arith, h), ground (arith, h))
handle_stopped (registered a now) w h = (h, omega arith)
handle_stopped (unregistered a) w h = (h, omega arith)
handle_stopped reset w h = (h, omega arith)
handle_stopped stopping w h = (refl, omega arith)

-- Once it is stopped, a watchdog gives at most one more notice, and that only if it was stopped
-- during the sleep of its loop.
pub stop_notices :
    (es : List Event) (w : Watchdog)
    → w.stopped ≡ true
    → (handle_all es w).notices ≤ w.notices + (if w.asleep then 1 else 0)
unfolding handle_all
stop_notices es w h = omega (arith, bound es w h)
  where
    bound :
        (es : List Event) (w : Watchdog)
        → w.stopped ≡ true
        → (handle_all es w).notices + last (handle_all es w) ≤ w.notices + last w
    bound [] w h = omega arith
    bound (e ∷ es) w h =
        let (still, fewer) = handle_stopped e w h in
        omega (arith, bound es (handle e w) still, fewer)
