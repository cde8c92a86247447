-- ===== src/Session/AgentLock/Samples.antt =====
-- nexau/archs/session/agent_lock_service.py: a table of locks to run the service on.
use nex_au.Prelude.{ℕ, ◌+◌, ◌≡◌, refl, none, List, [], ◌∷◌, list_eq, nat_eq, arith, All}
use nex_au.Prelude.Results.{ok, raise}
use nex_au.Prelude.Text.{text}
use nex_au.Orm.{value_eq}
use nex_au.Orm.Engine.{Table, find_one}
use nex_au.Orm.Engine.Keys.{WellKeyed}
use nex_au.Session.AgentLock.{
  AgentLockRow, Target, agent_pk, agent_key, Clock, Others, timeout, fresh_lock, new_service,
  acquire_agent, release_agent,
}
use nex_au.Session.AgentLock.Rows.{agent_row, agent_row-release}
use nex_au.Session.AgentLock.Attempts.{KeepKeys, Holding}
use nex_au.Session.AgentLock.Exclusion.{quiet, alone, acquire_agent-Holding, acquire_agent-outcome}
use nex_au.Session.AgentLock.Heartbeat.{Event, beats, attempts, inside, Held, inside-excludes}

abbrev agent : Target
agent = record { session_id = text "s"; agent_id = text "a" }

abbrev early : Clock
early = record { now = 10; base = 11; checked = 12; rechecked = 13 }

abbrev first_lock : AgentLockRow
first_lock = fresh_lock agent none none (text "one") 30 early

abbrev held : Table AgentLockRow
held = (agent_key agent, first_lock) ∷ []

held-WellKeyed : WellKeyed agent_pk held
held-WellKeyed = (refl, refl, tt)

abbrev late : Clock
late = record { now = 39; base = 40; checked = 41; rechecked = 42 }

-- A lock that expires between the reading of `now` and the check.
acquire_agent-outcome_example :
    (acquire_agent quiet agent none none (text "two") 30 late held).1
    ≡ alone (fresh_lock agent none none (text "two") 30 late) late (agent_row agent held)
acquire_agent-outcome_example =
    acquire_agent-outcome agent none none (text "two") 30 late held held-WellKeyed (omega arith)

-- Another task that takes the lock behind the check.
abbrev racing : Others
racing = record {
  after_check = λ t. t;
  after_clean = λ t. (agent_key agent, first_lock) ∷ [];
  after_failure = λ t. t;
  after_recheck = λ t. t;
  after_force = λ t. t;
}

racing-KeepKeys : KeepKeys racing
racing-KeepKeys = record {
  check_keeps = λ t w. w;
  clean_keeps = λ t w. held-WellKeyed;
  failure_keeps = λ t w. w;
  recheck_keeps = λ t w. w;
  force_keeps = λ t w. w;
}

acquire_agent-Holding_example :
    Holding agent
      (fresh_lock agent none none (text "two") 30 late)
      (acquire_agent racing agent none none (text "two") 30 late [])
acquire_agent-Holding_example =
    acquire_agent-Holding agent none none (text "two") 30 late [] tt racing racing-KeepKeys

-- A release by a holder whose lock is gone.
agent_row-release_example : agent_row agent (release_agent agent (text "two") held) ≡ none
agent_row-release_example = agent_row-release agent (text "two") held held-WellKeyed

abbrev events : List Event
events =
    attempts racing none none (text "two") 30 early
    ∷ beats 25
    ∷ attempts quiet none none (text "three") 30 late
    ∷ []

valid : new_service 30 10 ≡ ok (record { lock_ttl = 30; heartbeat_interval = 10 })
unfolding new_service
valid = refl

held-Held : Held agent (text "one") 41 held
unfolding find_one
held-Held = (held-WellKeyed, (first_lock, refl, refl, refl))

inside-excludes_example :
    All (λ r. r ≡ raise timeout) (inside agent (text "one") 30 events held).1
    × ((now : ℕ) × Held agent (text "one") (now + 30) (inside agent (text "one") 30 events held).0)
inside-excludes_example =
    inside-excludes agent (text "one") 30 10 11 events held valid (omega arith, (omega arith, tt))
      held-Held
