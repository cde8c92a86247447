-- ===== src/Team/MessageBus/Drains.antt =====
-- nexau/archs/main_sub/team/message_bus.py: who gets a message, and how often.
use nex_au.Prelude.{
  ℕ, ◌≡◌, refl, ap, sym, ◌∙◌, ◌⊎◌, inl, inr, Bool, true, false, not, ◌&&◌, ◌||◌, Option, none, some,
  List, [], ◌∷◌, ◌==◌, nat_eq, list_eq, arith, contains, select, select-and, All, All-append,
  All-select, All-mono, map, Bool-cases, beq_path, or-eq-false, or_true,
}
use nex_au.Prelude.Text.{Text}
use nex_au.Orm.{str, flag, value_eq}
use nex_au.Orm.Filters.{evaluate}
use nex_au.Orm.Engine.{Key, Table, values, find_many}
use nex_au.Orm.Engine.Keys.{WellKeyed}
use nex_au.Orm.Engine.Laws.{lookup, select-none, lookup-select}
use nex_au.Orm.Engine.Batches.{
  keys, update_each-WellKeyed, lookup-update_each, lookup-update_each_other, keys-select,
  contains-keys,
}
use nex_au.Session.TaskLock.{Scope}
use nex_au.Team.MessageBus.{
  MessageRow, optional_text, message_field, message_pk, undelivered, marked, found, drain,
}

-- The messages that a drain of the agent is to find.
abbrev pub wanted : Scope → Text → MessageRow → Bool
wanted s agent m =
    undelivered s (some agent) m || (undelivered s none m && not (m.from_agent_id == agent))

pub keys-marked :
    (now : ℕ) (ms : List MessageRow) → keys message_pk (map (marked now) ms) ≡ keys message_pk ms
keys-marked now [] = refl
keys-marked now (m ∷ ms) = ap (λ ks. message_pk m ∷ ks) (keys-marked now ms)

All-marked : (now : ℕ) (ms : List MessageRow) → All (λ m. m.delivered ≡ true) (map (marked now) ms)
All-marked now [] = tt
All-marked now (m ∷ ms) = (refl, All-marked now ms)

and_last : (a b c d e : Bool) → e ≡ false → (a && (b && (c && (d && (e && true))))) ≡ false
and_last a b c d e h = ground arith

-- A message that is delivered is no longer looked for.
delivered-undelivered :
    (s : Scope) (to : Option Text) (m : MessageRow)
    → m.delivered ≡ true
    → undelivered s to m ≡ false
unfolding evaluate message_field
delivered-undelivered s to m h =
    and_last (m.user_id == s.user_id) (m.session_id == s.session_id) (m.team_id == s.team_id)
      (optional_text m.to_agent_id == optional_text to) (flag m.delivered == flag false) (rw h refl)

delivered-wanted :
    (s : Scope) (agent : Text) (m : MessageRow) → m.delivered ≡ true → wanted s agent m ≡ false
delivered-wanted s agent m h =
    rw (delivered-undelivered s (some agent) m h, delivered-undelivered s none m h) refl

module _ (s : Scope) (agent : Text) (now : ℕ) (t : Table MessageRow)
    (w : WellKeyed message_pk t) where
  pub keys-found :
      (k : Key) {m : MessageRow}
      → lookup message_pk k t ≡ some m
      → wanted s agent m ≡ true
      → contains (keys message_pk (found s agent t)) k ≡ true
  unfolding found find_many
  keys-found k {m} e h =
      contains-keys message_pk k (select (undelivered s (some agent)) (values t)) _
      ∙ elim (Bool-cases (undelivered s (some agent) m)) [
        | inl f ↦ rw (keys-select message_pk (undelivered s (some agent)) k t e f) refl
        | inr f ↦
            let other : (undelivered s none m && not (m.from_agent_id == agent)) ≡ true =
              rw f at h in
            let there =
              ap (λ ms. contains (keys message_pk ms) k)
                (sym (
                  select-and (undelivered s none) (λ m. not (m.from_agent_id == agent)) (values t)))
              ∙ keys-select message_pk (λ m. undelivered s none m && not (m.from_agent_id == agent))
                  k t e other in
            rw there (or_true _)
      ]

  -- What is in the table behind a drain.
  behind_drain :
      (k : Key) {m : MessageRow}
      → lookup message_pk k (drain s agent now t).0 ≡ some m
      → (m.delivered ≡ true) ⊎ ((lookup message_pk k t ≡ some m) × (wanted s agent m ≡ false))
  unfolding drain
  behind_drain k {m} e =
      elim (lookup-update_each message_pk (λ m. m.delivered ≡ true) k
        (map (marked now) (found s agent t)) t w (All-marked now (found s agent t)) e) [
          | inl d ↦ inl d
          | inr (old, other) ↦ elim (Bool-cases (wanted s agent m)) [
            | inr n ↦ inr (old, n)
            | inl h ↦
                let free =
                  ap (λ ks. contains ks k) (sym (keys-marked now (found s agent t))) ∙ other in
                absurd (cc (keys-found k old h, free))
          ]
        ]

  drain-WellKeyed : WellKeyed message_pk (drain s agent now t).0
  unfolding drain
  drain-WellKeyed = update_each-WellKeyed message_pk (map (marked now) (found s agent t)) t w

  behind-wanted :
      (k : Key) (m : MessageRow)
      → lookup message_pk k (drain s agent now t).0 ≡ some m
      → wanted s agent m ≡ false
  behind-wanted k m e = elim (behind_drain k e) [
    | inl d ↦ delivered-wanted s agent m d
    | inr (old, n) ↦ n
  ]

  nobody :
      (p : MessageRow → Bool)
      → ((m : MessageRow) → wanted s agent m ≡ false → p m ≡ false)
      → select p (values (drain s agent now t).0) ≡ []
  nobody p f =
      select-none message_pk p (drain s agent now t).0 drain-WellKeyed
        λ k m e. f m (behind-wanted k m e)

  -- A second drain of an agent, with nothing sent in between, returns no message: each is delivered
  -- to the agent once. (Each row of the table is assumed to stand under its own key.)
  pub drain-again : (now' : ℕ) → (drain s agent now' (drain s agent now t).0).1 ≡ []
  unfolding drain found find_many
  drain-again now' =
      let direct : select (undelivered s (some agent)) (values (drain s agent now t).0) ≡ [] =
        nobody (undelivered s (some agent)) (λ m h. (or-eq-false _ _ h).0) in
      let others =
        select-and (undelivered s none) (λ m. not (m.from_agent_id == agent))
          (values (drain s agent now t).0) in
      let broadcasts =
        nobody (λ m. undelivered s none m && not (m.from_agent_id == agent))
          (λ m h. (or-eq-false _ _ h).1) in
      rw (direct, sym others ∙ broadcasts) refl

  -- A message that a drain does not return is as it was.
  pub drain-others :
      (k : Key)
      → contains (keys message_pk (drain s agent now t).1) k ≡ false
      → lookup message_pk k (drain s agent now t).0 ≡ lookup message_pk k t
  unfolding drain
  drain-others k h =
      lookup-update_each_other message_pk k (map (marked now) (found s agent t)) t w h

-- A message to one agent, or of one agent.
abbrev pub ToOrFrom : Text → Text → MessageRow → Type 0
ToOrFrom to from m = (m.to_agent_id ≡ some to) ⊎ (m.from_agent_id ≡ from)

direct-to :
    (s : Scope) (agent : Text) (m : MessageRow)
    → undelivered s (some agent) m ≡ true
    → m.to_agent_id ≡ some agent
unfolding evaluate message_field
direct-to s agent m h = go m.to_agent_id (fourth (m.user_id == s.user_id) _ _ _ _ h)
  where
    fourth : (a b c d e : Bool) → (a && (b && (c && (d && e)))) ≡ true → d ≡ true
    fourth a b c d e h = ground arith

    go : (o : Option Text) → (optional_text o == str agent) ≡ true → o ≡ some agent
    go none h = cc
    go (some to) h = ap some (beq_path to agent h)

module _ (s : Scope) (a b : Text) (now now' : ℕ) (t : Table MessageRow)
    (w : WellKeyed message_pk t) where
  abbrev after : Table MessageRow
  after = (drain s a now t).0

  direct_case :
      (m : MessageRow)
      → (lookup message_pk (message_pk m) after ≡ some m) × (undelivered s (some b) m ≡ true)
      → ToOrFrom b a m
  direct_case m h = inl (direct-to s b m h.1)

  broadcast_case :
      (m : MessageRow)
      → (lookup message_pk (message_pk m) after ≡ some m) × (undelivered s none m ≡ true)
      → ToOrFrom b a m
  broadcast_case m (e, h) = elim (Bool-cases (m.from_agent_id == a)) [
    | inl f ↦ inr (beq_path m.from_agent_id a f)
    | inr f ↦
        let n =
          (or-eq-false (undelivered s (some a) m) _
            (behind-wanted s a now t w (message_pk m) m e)).1 in
        absurd (cc (rw (h, f) at n))
  ]

  All-found : All (λ m. ToOrFrom b a m) (found s b after)
  unfolding found find_many
  All-found =
      let inside = drain-WellKeyed s a now t w in
      All-append (λ m. ToOrFrom b a m) (select (undelivered s (some b)) (values after)) _
        (All-mono _ (λ m. ToOrFrom b a m) _ direct_case
          (lookup-select message_pk (undelivered s (some b)) after inside))
        (All-select (λ m. ToOrFrom b a m) (λ m. not (m.from_agent_id == b)) _
          (All-mono _ (λ m. ToOrFrom b a m) _ broadcast_case
            (lookup-select message_pk (undelivered s none) after inside)))

  All-same_marked :
      (ms : List MessageRow)
      → All (λ m. ToOrFrom b a m) ms
      → All (λ m. ToOrFrom b a m) (map (marked now') ms)
  All-same_marked [] h = tt
  All-same_marked (m ∷ ms) h = (h.0, All-same_marked ms h.1)

  -- Whatever is in the table, a drain of one agent takes the broadcasts of the others away from the
  -- rest of the team: the drain of another agent right behind it returns only messages that are to
  -- that agent itself, and broadcasts of the one that drained first. (Each row of the table is
  -- assumed to stand under its own key.)
  pub drain-drain : All (λ m. ToOrFrom b a m) (drain s b now' (drain s a now t).0).1
  unfolding drain
  drain-drain = All-same_marked (found s b (drain s a now t).0) All-found
