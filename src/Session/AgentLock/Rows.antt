-- ===== src/Session/AgentLock/Rows.antt =====
-- nexau/archs/session/agent_lock_service.py: the row of one agent under each step of the service.
use mathlib.Core.Path.{fun_ext}
use nex_au.Prelude.{
  ℕ, ◌≡◌, refl, ap, sym, ◌∙◌, inl, inr, Bool, true, false, ◌&&◌, Option, none, some, [], ◌∷◌, ◌==◌,
  list_eq, nat_eq, arith, ltb, select, length, Bool-cases, beq_path, subst,
}
use nex_au.Prelude.Text.{Text, text}
use nex_au.Orm.{num, str, value_eq}
use nex_au.Orm.Filters.{evaluate, eq, lt}
use nex_au.Orm.Engine.{Table, values, find_one, delete}
use nex_au.Orm.Engine.Keys.{WellKeyed, delete-WellKeyed}
use nex_au.Orm.Engine.Laws.{lookup, by_key, lookup-by_key, lookup-delete_at, select-none, unless}
use nex_au.Session.AgentLock.{
  AgentLockRow, agent_field, Target, agent_pk, agent_key, filtered, unexpired,
  find_valid_agent_lock, force_release, release_agent,
}

-- The row of an agent, expired or not.
abbrev pub agent_row : Target → Table AgentLockRow → Option AgentLockRow
agent_row a t = lookup agent_pk (agent_key a) t

by_agent : (a : Target) (r : AgentLockRow) → filtered a [] r ≡ by_key agent_pk (agent_key a) r
unfolding evaluate agent_field
by_agent a r = refl

pub find_valid_agent_lock-row :
    (a : Target) (now : ℕ) (t : Table AgentLockRow)
    → find_valid_agent_lock a now t ≡ unexpired now (agent_row a t)
unfolding find_valid_agent_lock
find_valid_agent_lock-row a now t = ap (λ p. unexpired now (find_one p t)) (fun_ext (by_agent a))

-- A further condition on the agent's own row.
and_pair : (b c x : Bool) → (b && (c && true)) ≡ true → (b && (c && (x && true))) ≡ x
and_pair b c x h = ground arith

pub filtered-expired :
    (a : Target) (now : ℕ) (r : AgentLockRow)
    → by_key agent_pk (agent_key a) r ≡ true
    → filtered a (lt (text "expires_at_ns") (num now) ∷ []) r ≡ ltb r.expires_at_ns now
unfolding evaluate agent_field
filtered-expired a now r h =
    and_pair (r.session_id == a.session_id) (r.agent_id == a.agent_id) (ltb r.expires_at_ns now) h

pub filtered-holder :
    (a : Target) (holder : Text) (r : AgentLockRow)
    → by_key agent_pk (agent_key a) r ≡ true
    → filtered a (eq (text "holder_id") (str holder) ∷ []) r ≡ (r.holder_id == holder)
unfolding evaluate agent_field
filtered-holder a holder r h =
    and_pair (r.session_id == a.session_id) (r.agent_id == a.agent_id) (r.holder_id == holder) h

-- The clean-up, and the forced one.
pub agent_row-delete_expired :
    (a : Target) (now : ℕ) (t : Table AgentLockRow)
    → WellKeyed agent_pk t
    → agent_row a (delete (filtered a (lt (text "expires_at_ns") (num now) ∷ [])) t).0
      ≡ unless (λ r. ltb r.expires_at_ns now) (agent_row a t)
agent_row-delete_expired a now t w =
    lookup-delete_at agent_pk _ (λ r. ltb r.expires_at_ns now) (agent_key a) t w
      (filtered-expired a now)

pub agent_row-delete_all :
    (a : Target) (t : Table AgentLockRow)
    → WellKeyed agent_pk t
    → agent_row a (delete (filtered a []) t).0 ≡ none
agent_row-delete_all a t w =
    lookup-delete_at agent_pk _ (λ _. true) (agent_key a) t w (λ r h. by_agent a r ∙ h)
    ∙ nothing (agent_row a t)
  where
    nothing : (o : Option AgentLockRow) → unless (λ _. true) o ≡ none
    nothing none = refl
    nothing (some r) = refl

pub agent_row-delete_own :
    (a : Target) (holder : Text) (t : Table AgentLockRow)
    → WellKeyed agent_pk t
    → agent_row a (delete (filtered a (eq (text "holder_id") (str holder) ∷ [])) t).0
      ≡ unless (λ r. r.holder_id == holder) (agent_row a t)
agent_row-delete_own a holder t w =
    lookup-delete_at agent_pk _ (λ r. r.holder_id == holder) (agent_key a) t w
      (filtered-holder a holder)

and_first : (b c x : Bool) → (b && (c && (x && true))) ≡ true → (b && (c && true)) ≡ true
and_first b c x h = ground arith

filtered-own :
    (a : Target) (holder : Text) (r : AgentLockRow)
    → filtered a (eq (text "holder_id") (str holder) ∷ []) r ≡ true
    → by_key agent_pk (agent_key a) r ≡ true
unfolding evaluate agent_field
filtered-own a holder r h =
    and_first (r.session_id == a.session_id) (r.agent_id == a.agent_id) (r.holder_id == holder) h

-- Where another one is the holder, no row is the caller's.
none-own :
    (a : Target) (holder : Text) (t : Table AgentLockRow) (r : AgentLockRow)
    → WellKeyed agent_pk t
    → agent_row a t ≡ some r
    → (r.holder_id == holder) ≡ false
    → select (filtered a (eq (text "holder_id") (str holder) ∷ [])) (values t) ≡ []
none-own a holder t r w h n = select-none agent_pk _ t w λ k m e.
    elim (Bool-cases (filtered a (eq (text "holder_id") (str holder) ∷ []) m)) [
      | inr f ↦ f
      | inl f ↦
          let mine = filtered-own a holder m f in
          let same_key : k ≡ agent_key a =
            sym (beq_path (agent_pk m) k (lookup-by_key agent_pk k t e))
            ∙ beq_path (agent_pk m) (agent_key a) mine in
          let there : lookup agent_pk (agent_key a) t ≡ some m =
            subst (λ j. lookup agent_pk j t ≡ some m) same_key e in
          let same : m ≡ r = cc (there, h) in
          let q : (m.holder_id == holder) ≡ false =
            subst (λ (x : AgentLockRow). (x.holder_id == holder) ≡ false) (sym same) n in
          filtered-holder a holder m mine ∙ q
    ]

-- Leaving the critical section frees the agent, whoever holds its lock by then.
-- (Each row of the table is assumed to stand under its own key.)
pub agent_row-release :
    (a : Target) (holder : Text) (t : Table AgentLockRow)
    → WellKeyed agent_pk t
    → agent_row a (release_agent a holder t) ≡ none
unfolding release_agent delete force_release
agent_row-release a holder t w =
    elim (Bool-cases
      (length (select (filtered a (eq (text "holder_id") (str holder) ∷ [])) (values t)) == 0)) [
        | inl e ↦ rw e (
            agent_row-delete_all a _ (
              delete-WellKeyed agent_pk (filtered a (eq (text "holder_id") (str holder) ∷ [])) t w))
        | inr e ↦ rw e (agent_row-delete_own a holder t w ∙ rest (agent_row a t) refl e)
      ]
  where
    rest :
        (o : Option AgentLockRow)
        → agent_row a t ≡ o
        → (length (select (filtered a (eq (text "holder_id") (str holder) ∷ [])) (values t)) == 0)
          ≡ false
        → unless (λ r. r.holder_id == holder) o ≡ none
    rest none h e = refl
    rest (some r) h e = elim (Bool-cases (r.holder_id == holder)) [
      | inl f ↦ rw f refl
      | inr f ↦ absurd (cc (rw (none-own a holder t r w h f) at e))
    ]
