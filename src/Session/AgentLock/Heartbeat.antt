-- ===== src/Session/AgentLock/Heartbeat.antt =====
-- nexau/archs/session/agent_lock_service.py: a lock that its holder's heartbeat renews, among the
-- calls of other tasks.
use nex_au.Prelude.{
  ℕ, ◌+◌, ◌*◌, ◌≤◌, ◌<◌, ◌≡◌, refl, ap, ◌∙◌, inl, inr, Bool, true, not, ◌&&◌, Option, none, some,
  List, [], ◌∷◌, ◌==◌, list_eq, nat_eq, arith, leb, Bool-cases, beq_self, if◌then◌else◌, All,
}
use nex_au.Prelude.Results.{Result, ok, raise}
use nex_au.Prelude.Text.{Text, text}
use nex_au.Orm.{str, value_eq}
use nex_au.Orm.Filters.{evaluate, eq}
use nex_au.Orm.Engine.{Table, find_one}
use nex_au.Orm.Engine.Keys.{WellKeyed, update-WellKeyed}
use nex_au.Orm.Engine.Laws.{by_key, lookup-by_key, lookup-update, find_one-at, unless}
use nex_au.Session.AgentLock.{
  AgentLockRow, agent_field, Target, agent_pk, agent_key, filtered, Timing, new_service, Clock,
  Others, Busy, timeout, acquire_agent, beat, renewed,
}
use nex_au.Session.AgentLock.Rows.{agent_row}
use nex_au.Session.AgentLock.Exclusion.{acquire_agent-refused}

-- What happens while a holder is inside: its heartbeat reads the clock, or some task calls `acquire`,
-- from its start to its end.
pub data Event : Type 0 where
  beats : (base : ℕ) → Event
  attempts : Others → (user run : Option Text) → (holder : Text) → (ttl : ℕ) → Clock → Event

-- The events in a row: the table, and the results of the calls of `acquire`.
pub inside :
    Target
    → Text
    → (ttl : ℕ) → List Event
    → Table AgentLockRow
    → Table AgentLockRow × List (Result Busy AgentLockRow)
inside a holder ttl [] t = (t, [])
inside a holder ttl (beats base ∷ es) t = inside a holder ttl es (beat a holder ttl base t).0
inside a holder ttl (attempts o user run other ttl' at ∷ es) t =
    let (u, r) = acquire_agent o a user run other ttl' at t in
    let (v, rs) = inside a holder ttl es u in (v, r ∷ rs)

-- No call checks later than two intervals behind the last beat before it; the first beat counts
-- from the acquisition.
abbrev pub Timely : ℕ → ℕ → List Event → Type 0
Timely interval last [] = Unit
Timely interval last (beats base ∷ es) = Timely interval base es
Timely interval last (attempts _ _ _ _ _ at ∷ es) =
    (at.checked ≤ last + 2 * interval) × Timely interval last es

and_last : (b c x : Bool) → (b && (c && (x && true))) ≡ ((b && (c && true)) && x)
and_last b c x = ground arith

own-by_key :
    (a : Target) (holder : Text) (r : AgentLockRow)
    → filtered a (eq (text "holder_id") (str holder) ∷ []) r
      ≡ (by_key agent_pk (agent_key a) r && (r.holder_id == holder))
unfolding evaluate agent_field
own-by_key a holder r =
    and_last (r.session_id == a.session_id) (r.agent_id == a.agent_id) (r.holder_id == holder)

-- The agent's row is a lock of `holder` that expires at `expires`.
abbrev pub Held : Target → Text → ℕ → Table AgentLockRow → Type 0
Held a holder expires t =
    WellKeyed agent_pk t
    × ((r : AgentLockRow) × (agent_row a t ≡ some r)
        × (r.holder_id ≡ holder)
        × (r.expires_at_ns ≡ expires))

beat_row :
    (a : Target) (holder : Text) (ttl base expires : ℕ) (t : Table AgentLockRow)
    → Held a holder expires t
    → Held a holder (base + ttl) (beat a holder ttl base t).0
unfolding beat renewed
beat_row a holder ttl base expires t (w, (r, e, own, _)) =
    let found : find_one (filtered a (eq (text "holder_id") (str holder) ∷ [])) t ≡ some r =
      find_one-at agent_pk _ (λ m. m.holder_id == holder) (agent_key a) t w (own-by_key a holder)
      ∙ ap (unless (λ m. not (m.holder_id == holder))) e
      ∙ ap (λ (b : Bool). if not b then none else some r)
          (ap (λ h. h == holder) own ∙ beq_self holder) in
    let new = record r { expires_at_ns = base + ttl } in
    let key : (agent_pk new == agent_key a) ≡ true = lookup-by_key agent_pk (agent_key a) t e in
    rw found (
      update-WellKeyed agent_pk new t w,
      (
        new,
        lookup-update agent_pk (agent_key a) new t w
            ∙ ap (λ (b : Bool). if b then some new else agent_row a t) key,
        own,
        refl,
      ),
    )

valid_service :
    (ttl interval : ℕ) {s : Timing} → new_service ttl interval ≡ ok s → 2 * interval < ttl
unfolding new_service
valid_service ttl interval h = elim (Bool-cases (leb ttl (2 * interval))) [
  | inl e ↦ absurd (cc (rw e at h))
  | inr e ↦ ground arith
]

-- While the holder's heartbeat goes on, no call of `acquire` that begins behind the holder's own gets
-- in: with an interval that the service accepts, and as long as none of the calls checks later than two
-- intervals behind the last beat, every call raises TimeoutError, and the lock stays the holder's,
-- whatever the calls and in whatever order. (Nothing else is assumed to touch the agent's row
-- meanwhile: no `release`, by whomever, since it deletes the row of any holder, no `force_release`, and
-- no call of `acquire` that is past its first check when the holder gets the lock. Each row of the table
-- is assumed to stand under its own key.)
pub inside-excludes :
    (a : Target) (holder : Text) (ttl interval last : ℕ) {s : Timing} (es : List Event)
    (t : Table AgentLockRow)
    → new_service ttl interval ≡ ok s
    → Timely interval last es
    → Held a holder (last + ttl) t
    → All (λ r. r ≡ raise timeout) (inside a holder ttl es t).1
      × ((now : ℕ) × Held a holder (now + ttl) (inside a holder ttl es t).0)
unfolding inside
inside-excludes a holder ttl interval last [] t s h held = (tt, (last, held))
inside-excludes a holder ttl interval last (beats base ∷ es) t s h held =
    inside-excludes a holder ttl interval base es (beat a holder ttl base t).0 s h
      (beat_row a holder ttl base (last + ttl) t held)
inside-excludes a holder ttl interval last (attempts o user run other ttl' at ∷ es) t s (h, hs)
      (w, (r, e, own, x)) =
    let short = valid_service ttl interval s in
    let refused =
      acquire_agent-refused a user run other ttl' at t w o r e (omega (arith, x, h, short)) in
    let (all, rest) = inside-excludes a holder ttl interval last es t s hs (w, (r, e, own, x)) in
    rw refused ((refl, all), rest)
