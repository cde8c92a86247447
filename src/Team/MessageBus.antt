-- ===== src/Team/MessageBus.antt =====
-- nexau/archs/main_sub/team/message_bus.py over the in-memory engine: the messages between the agents
-- of a team (session/models/team_message.py). Times are `datetime.now()` of the caller, ids
-- `uuid4().hex`.
pub mod Sending
pub mod Drains
mod Samples
use nex_au.Prelude.{
  ℕ, Bool, true, false, not, Option, none, some, List, [], ◌∷◌, ◌++◌, ◌==◌, nat_eq, list_eq, map,
  select, if◌then◌else◌,
}
use nex_au.Prelude.Results.{Result, ok, raise}
use nex_au.Prelude.Text.{Text, text}
use nex_au.Orm.{Value, null, num, str, flag, value_eq}
use nex_au.Orm.Filters.{Filter, eq, all_of, evaluate}
use nex_au.Orm.Engine.{Key, Table, EngineError, find_many, create}
use nex_au.Orm.Engine.Batches.{update_each}
use nex_au.Session.TaskLock.{Scope}

-- TeamMessageModel
pub record MessageRow : Type 0 where
  pub user_id : Text
  pub session_id : Text
  pub team_id : Text
  pub message_id : Text
  pub from_agent_id : Text
  pub to_agent_id : Option Text
  pub content : Text
  pub message_type : Text
  pub delivered : Bool
  pub delivered_at : Option ℕ
  pub created_at : ℕ

abbrev pub optional_text : Option Text → Value
optional_text none = null
optional_text (some s) = str s

-- The columns that the bus filters by.
pub message_field : MessageRow → Text → Value
message_field m f =
    if f == text "user_id"
    then str m.user_id
    else if f == text "session_id"
    then str m.session_id
    else if f == text "team_id"
    then str m.team_id
    else if f == text "to_agent_id"
    then optional_text m.to_agent_id
    else if f == text "delivered"
    then flag m.delivered
    else null

abbrev pub message_pk : MessageRow → Key
message_pk m = str m.user_id ∷ str m.session_id ∷ str m.team_id ∷ str m.message_id ∷ []

-- `_deliver_message(to_agent_id, content, from_agent_id)`
pub record Delivery : Type 0 where
  pub to_agent_id : Text
  pub content : Text
  pub from_agent_id : Text

-- What a call of the bus comes to: the table, the calls of the delivery callback, and the message or
-- the engine's exception.
abbrev pub Posted : Type 0
Posted = Table MessageRow × List Delivery × Result EngineError MessageRow

abbrev pub new_message :
    Scope
    → (id : Text) → (from : Text) → (to : Option Text) → (content type : Text) → (now : ℕ)
    → MessageRow
new_message s id from to content type now = record {
  user_id = s.user_id;
  session_id = s.session_id;
  team_id = s.team_id;
  message_id = id;
  from_agent_id = from;
  to_agent_id = to;
  content = content;
  message_type = type;
  delivered = false;
  delivered_at = none;
  created_at = now;
}

-- The rest of a method behind the engine's `create`.
pub posted : List Delivery → Table MessageRow × Result EngineError MessageRow → Posted
posted ds (t, ok m) = (t, ds, ok m)
posted ds (t, raise e) = (t, [], raise e)

-- The calls for the recipients; without callbacks there are none.
direct_delivery : (wired : Bool) → (to content from : Text) → List Delivery
direct_delivery wired to content from =
    if wired then record { to_agent_id = to; content = content; from_agent_id = from } ∷ [] else []

pub broadcast_deliveries : (recipients : List Text) → (content from : Text) → List Delivery
broadcast_deliveries [] content from = []
broadcast_deliveries (r ∷ rs) content from =
    let rest = broadcast_deliveries rs content from in
    if r == from
    then rest
    else record { to_agent_id = r; content = content; from_agent_id = from } ∷ rest

-- `send`
pub send :
    Scope
    → (wired : Bool) → (id from to content type : Text) → (now : ℕ) → Table MessageRow
    → Posted
unfolding posted direct_delivery
send s wired id from to content type now t =
    posted (direct_delivery wired to content from)
      (create message_pk (new_message s id from (some to) content type now) t)

-- `broadcast`; `recipients` are those of `_get_broadcast_recipients`, none where it is not wired.
pub broadcast :
    Scope
    → (recipients : List Text) → (id from content : Text) → (now : ℕ) → Table MessageRow
    → Posted
unfolding posted
broadcast s recipients id from content now t =
    posted (broadcast_deliveries recipients content from)
      (create message_pk (new_message s id from none content (text "text") now) t)

-- `_team_filters` with the conditions on the recipient and on `delivered`.
abbrev pub undelivered : Scope → Option Text → MessageRow → Bool
undelivered s to m = evaluate (message_field m) (
    all_of (
      eq (text "user_id") (str s.user_id)
      ∷ eq (text "session_id") (str s.session_id)
      ∷ eq (text "team_id") (str s.team_id)
      ∷ eq (text "to_agent_id") (optional_text to)
      ∷ eq (text "delivered") (flag false)
      ∷ []))

abbrev pub marked : ℕ → MessageRow → MessageRow
marked now m = record m { delivered = true; delivered_at = some now }

-- What `drain` finds: the messages to the agent, and the broadcasts of the others.
unfoldable pub found : Scope → (agent_id : Text) → Table MessageRow → List MessageRow
found s agent_id t =
    let direct_msgs = find_many (undelivered s (some agent_id)) none none t in
    let broadcast_msgs = find_many (undelivered s none) none none t in
    direct_msgs ++ select (λ m. not (m.from_agent_id == agent_id)) broadcast_msgs

-- `drain`
pub drain :
    Scope → (agent_id : Text) → (now : ℕ) → Table MessageRow → Table MessageRow × List MessageRow
unfolding found
drain s agent_id now t =
    let all_msgs = map (marked now) (found s agent_id t) in
    (update_each message_pk all_msgs t, all_msgs)
