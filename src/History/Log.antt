-- ===== src/History/Log.antt =====
-- nexau/archs/session/agent_run_action_service.py: the log of actions, with what writes it and what
-- reads it. The log holds the rows of AgentRunActionModel with the newest first, as the queries
-- order them by `-created_at_ns` and `-action_id`.
use nex_au.Prelude.{
  ℕ, Bool, true, false, ◌&&◌, Option, none, some, List, [], ◌∷◌, ◌++◌, ◌==◌, nat_eq, list_eq,
  option_eq, option_eq, ltb, select, take, any, if◌then◌else◌,
}
use nex_au.Prelude.Results.{Result, ok, raise}
use nex_au.Prelude.Text.{Text, text}
use nex_au.Team.Slug.{decimal}
use nex_au.History.Messages.{Message, non_system, meaningful}

-- AgentRunActionKey
pub record ActionKey : Type 0 where
  pub user_id : Text
  pub session_id : Text
  pub agent_id : Text

-- RunActionType
pub data RunActionType : Type 0 where
  append : RunActionType
  undo : RunActionType
  replace : RunActionType
  run_start : RunActionType
  run_end : RunActionType

-- AgentRunActionModel, with the columns that the service reads.
pub record ActionRow : Type 0 where
  pub user_id : Text
  pub session_id : Text
  pub agent_id : Text
  pub run_id : Text
  pub created_at_ns : ℕ
  pub action_type : RunActionType
  pub append_messages : List Message
  pub replace_messages : List Message
  pub undo_before_run_id : Option Text
  pub idempotency_key : Option Text

pub data PersistError : Type 0 where
  no_messages : PersistError

-- The common part of the factories `create_append`, `create_undo`, `create_replace`,
-- `create_run_start` and `create_run_end`; `now` is the default of `created_at_ns`.
abbrev pub new_row : ActionKey → (run_id : Text) → (now : ℕ) → RunActionType → ActionRow
new_row key run_id now type = record {
  user_id = key.user_id;
  session_id = key.session_id;
  agent_id = key.agent_id;
  run_id = run_id;
  created_at_ns = now;
  action_type = type;
  append_messages = [];
  replace_messages = [];
  undo_before_run_id = none;
  idempotency_key = none;
}

-- The filters on the three columns of the key.
unfoldable pub owned : ActionKey → ActionRow → Bool
owned key r =
    r.user_id == key.user_id && (r.session_id == key.session_id && r.agent_id == key.agent_id)

-- The column `idempotency_key` is UNIQUE where it is not NULL.
unfoldable pub taken : Option Text → List ActionRow → Bool
taken none log = false
taken (some k) log = any (λ r. r.idempotency_key == some k) log

-- f"{run_id}:{iter_index}"
unfoldable pub iteration_key : Text → Option ℕ → Option Text
iteration_key run_id none = none
iteration_key run_id (some n) = some (run_id ++ text ":" ++ decimal n)

-- The engine's `create` of a row, where an IntegrityError leaves nothing.
unfoldable pub create_once : ActionRow → List ActionRow → List ActionRow × Option ActionRow
create_once r log = if taken r.idempotency_key log then (log, none) else (r ∷ log, some r)

-- `persist_append` behind its two filters.
unfoldable pub append_rest :
    ActionKey
    → Text
    → ℕ
    → Option Text
    → List Message
    → List ActionRow
    → List ActionRow × Result PersistError (Option ActionRow)
append_rest key run_id now k [] log = (log, raise no_messages)
append_rest key run_id now k (m ∷ ms) log =
    let row = record (new_row key run_id now append) {
      append_messages = m ∷ ms;
      idempotency_key = k;
    } in
    let (log', r) = create_once row log in (log', ok r)

-- `persist_append`
unfoldable pub persist_append :
    ActionKey
    → (run_id : Text) → (now : ℕ) → (idempotency_key : Option Text) → List Message
    → List ActionRow
    → List ActionRow × Result PersistError (Option ActionRow)
unfolding append_rest create_once
persist_append key run_id now k ms log =
    append_rest key run_id now k (meaningful (non_system ms)) log

-- `persist_replace` behind its filter.
unfoldable pub replace_rest :
    ActionKey
    → Text
    → ℕ
    → List Message
    → List ActionRow
    → List ActionRow × Result PersistError ActionRow
replace_rest key run_id now [] log = (log, raise no_messages)
replace_rest key run_id now (m ∷ ms) log =
    let row = record (new_row key run_id now replace) { replace_messages = m ∷ ms } in
    (row ∷ log, ok row)

-- `persist_replace`; the variant `extra` goes into a column that no code here reads.
unfoldable pub persist_replace :
    ActionKey
    → (run_id : Text) → (now : ℕ) → List Message
    → List ActionRow
    → List ActionRow × Result PersistError ActionRow
unfolding replace_rest
persist_replace key run_id now ms log = replace_rest key run_id now (non_system ms) log

-- `persist_undo`
unfoldable pub persist_undo :
    ActionKey → (run_id : Text) → (now : ℕ) → (before : Text) → List ActionRow → List ActionRow
persist_undo key run_id now before log =
    record (new_row key run_id now undo) { undo_before_run_id = some before } ∷ log

-- `persist_run_start` and `persist_run_end`
pub persist_run_start :
    ActionKey → (run_id : Text) → (now : ℕ) → List ActionRow → List ActionRow × Option ActionRow
unfolding create_once
persist_run_start key run_id now log =
    create_once
      (record (new_row key run_id now run_start) {
        idempotency_key = some (run_id ++ text ":start");
      })
      log

pub persist_run_end :
    ActionKey → (run_id : Text) → (now : ℕ) → List ActionRow → List ActionRow × Option ActionRow
unfolding create_once
persist_run_end key run_id now log =
    create_once
      (record (new_row key run_id now run_end) { idempotency_key = some (run_id ++ text ":end") })
      log

-- The last row of a list, in the order of the log the earliest.
abbrev pub final {ℓ} : {A : Type ℓ} → A → List A → A
final x [] = x
final x (y ∷ ys) = final y ys

unfoldable pub earliest_ns : List ActionRow → Option ℕ
earliest_ns [] = none
earliest_ns (r ∷ rs) = some (final r rs).created_at_ns

-- `_run_exists`
pub run_exists : ActionKey → (run_id : Text) → List ActionRow → Bool
run_exists key run_id log = any (λ r. owned key r && r.run_id == run_id) log

-- `_first_action_ns_of_run`
unfoldable pub first_action_ns : ActionKey → (run_id : Text) → List ActionRow → Option ℕ
unfolding earliest_ns
first_action_ns key run_id log = earliest_ns (select (λ r. owned key r && r.run_id == run_id) log)

-- `created_at_ns < cursor`, where there is a cursor.
unfoldable pub before : Option ℕ → ActionRow → Bool
before none r = true
before (some cursor) r = ltb r.created_at_ns cursor

-- `_scan_actions_desc`
unfoldable pub scan_actions_desc :
    ActionKey → (page_size : ℕ) → (cursor : Option ℕ) → List ActionRow → List ActionRow
scan_actions_desc key page_size cursor log =
    take page_size (select (λ r. owned key r && before cursor r) log)
