-- ===== src/Team/MessageBus/Sending.antt =====
-- nexau/archs/main_sub/team/message_bus.py: a message that has just been sent.
use nex_au.Prelude.{
  ℕ, ◌≡◌, refl, ap, ◌∙◌, Bool, true, false, Option, none, some, List, ◌==◌, nat_eq, list_eq,
  contains, beq_self, or_true, if◌then◌else◌,
}
use nex_au.Prelude.Results.{Result, ok, raise}
use nex_au.Prelude.Text.{Text, text}
use nex_au.Orm.{value_eq}
use nex_au.Orm.Filters.{evaluate}
use nex_au.Orm.Engine.{Table, EngineError, has_key, create}
use nex_au.Orm.Engine.Keys.{WellKeyed, create-WellKeyed}
use nex_au.Orm.Engine.Laws.{lookup, lookup-create}
use nex_au.Orm.Engine.Batches.{keys}
use nex_au.Session.TaskLock.{Scope}
use nex_au.Team.MessageBus.{
  MessageRow, Delivery, optional_text, message_field, message_pk, new_message, posted, undelivered,
  found, send, broadcast, drain,
}
use nex_au.Team.MessageBus.Drains.{wanted, keys-marked, keys-found}

posted-table :
    (ds : List Delivery) (r : Table MessageRow × Result EngineError MessageRow)
    → (posted ds r).0 ≡ r.0
unfolding posted
posted-table ds (t, ok m) = refl
posted-table ds (t, raise e) = refl

undelivered-new :
    (s : Scope) (id from : Text) (to : Option Text) (content type : Text) (now : ℕ)
    → undelivered s to (new_message s id from to content type now) ≡ true
unfolding evaluate message_field
undelivered-new s id from to content type now =
    rw (beq_self s.user_id, beq_self s.session_id, beq_self s.team_id, beq_self (optional_text to))
      refl

-- A new row is found by the drain that wants it.
drain-new :
    (s : Scope) (agent : Text) (now : ℕ) (m : MessageRow) (t : Table MessageRow)
    → WellKeyed message_pk t
    → has_key (message_pk m) t ≡ false
    → wanted s agent m ≡ true
    → contains (keys message_pk (drain s agent now (create message_pk m t).0).1) (message_pk m)
      ≡ true
unfolding drain
drain-new s agent now m t w free h =
    let there =
      lookup-create message_pk (message_pk m) m t w free
      ∙ ap (λ (b : Bool). if b then some m else lookup message_pk (message_pk m) t)
          (beq_self (message_pk m)) in
    ap (λ ks. contains ks (message_pk m))
      (keys-marked now (found s agent (create message_pk m t).0))
    ∙ keys-found s agent now (create message_pk m t).0 (create-WellKeyed message_pk m t w)
        (message_pk m) there h

-- A message that is sent under an id that is free is among those that the next drain of its
-- recipient returns. (Each row of the table is assumed to stand under its own key.)
pub send-drain :
    (s : Scope) (wired : Bool) (id from to content type : Text) (now now' : ℕ)
    (t : Table MessageRow)
    → WellKeyed message_pk t
    → has_key (message_pk (new_message s id from (some to) content type now)) t ≡ false
    → contains
        (keys message_pk (drain s to now' (send s wired id from to content type now t).0).1)
        (message_pk (new_message s id from (some to) content type now))
      ≡ true
unfolding send
send-drain s wired id from to content type now now' t w free =
    rw (posted-table _ (create message_pk (new_message s id from (some to) content type now) t)) (
      drain-new s to now' (new_message s id from (some to) content type now) t w free
        (rw (undelivered-new s id from (some to) content type now) refl))

-- A broadcast under an id that is free is among the messages that the next drain returns, of any
-- agent but the sender. (Each row of the table is assumed to stand under its own key.)
pub broadcast-drain :
    (s : Scope) (recipients : List Text) (id from agent content : Text) (now now' : ℕ)
    (t : Table MessageRow)
    → WellKeyed message_pk t
    → has_key (message_pk (new_message s id from none content (text "text") now)) t ≡ false
    → (from == agent) ≡ false
    → contains
        (keys message_pk (drain s agent now' (broadcast s recipients id from content now t).0).1)
        (message_pk (new_message s id from none content (text "text") now))
      ≡ true
unfolding broadcast
broadcast-drain s recipients id from agent content now now' t w free other =
    rw (posted-table _ (create message_pk (new_message s id from none content (text "text") now) t))
      (drain-new s agent now' (new_message s id from none content (text "text") now) t w free
        (rw (undelivered-new s id from none content (text "text") now, other) (or_true _)))
