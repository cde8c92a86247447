-- ===== src/Compaction.antt =====
-- nexau/archs/main_sub/execution/middleware/context_compaction/compact_stratigies: how the messages of
-- a context are grouped (sliding_window.py and compact_tool_result.py have the same two methods).
pub mod Groups
pub mod SlidingWindow
pub mod ToolResults
mod Samples
use nex_au.Prelude.{
  ℕ, ◌-◌, Bool, true, false, not, ◌&&◌, ◌||◌, List, [], ◌∷◌, ◌++◌, any, ltb, leb, length,
  if◌then◌else◌,
}
use nex_au.History.Messages.{
  Message, Role, user, framework, Block, tool_use_block, is_assistant, is_system,
}

-- `msg.role in (Role.USER, Role.FRAMEWORK)`
abbrev pub is_prompt : Role → Bool
is_prompt user = true
is_prompt framework = true
is_prompt _ = false

abbrev pub is_empty {ℓ} : {A : Type ℓ} → List A → Bool
is_empty [] = true
is_empty (_ ∷ _) = false

-- The messages that the inner loop pops from the end, and those that it leaves before them.
pub split_trailing : List Message → List Message × List Message
split_trailing [] = ([], [])
split_trailing (m ∷ ms) =
    let (left, popped) = split_trailing ms in
    if is_empty left && is_prompt m.role then ([], m ∷ popped) else (m ∷ left, popped)

-- `if group: groups.append(group)`
pub add_group : List Message → List (List Message) → List (List Message)
add_group [] groups = groups
add_group (m ∷ ms) groups = groups ++ ((m ∷ ms) ∷ [])

-- The loop of `_group_into_iterations`.
pub iterations_loop :
    List Message → List (List Message) → (current : List Message) → List (List Message)
iterations_loop [] groups current = add_group current groups
iterations_loop (m ∷ ms) groups current =
    let (left, prefix) = split_trailing current in
    let started = iterations_loop ms (add_group left groups) (prefix ++ (m ∷ [])) in
    let continued = iterations_loop ms groups (current ++ (m ∷ [])) in
    if is_assistant m.role then started else continued

-- `_group_into_iterations`
pub group_into_iterations : List Message → List (List Message)
group_into_iterations ms = iterations_loop ms [] []

abbrev pub is_tool_use : Block → Bool
is_tool_use (tool_use_block _) = true
is_tool_use _ = false

-- An assistant's message without a call of a tool ends a round.
abbrev pub ends_round : Message → Bool
ends_round m = is_assistant m.role && not (any is_tool_use m.content)

-- The loop of `_group_into_user_rounds`.
pub rounds_loop :
    List Message → List (List Message) → (current : List Message) → List (List Message)
rounds_loop [] groups current = add_group current groups
rounds_loop (m ∷ ms) groups current =
    let grown = current ++ (m ∷ []) in
    let ended = rounds_loop ms (groups ++ (grown ∷ [])) [] in
    let continued = rounds_loop ms groups grown in if ends_round m then ended else continued

-- `_group_into_user_rounds`
pub group_into_user_rounds : List Message → List (List Message)
group_into_user_rounds ms = rounds_loop ms [] []

-- The fields of both strategies that `compact` chooses the groups by.
pub record Window : Type 0 where
  pub keep_system : Bool
  pub keep_iterations : ℕ
  pub keep_user_rounds : ℕ

-- `messages[0]`, where it is the system's and is to be kept, and the others.
pub system_part : Window → List Message → List Message
system_part w [] = []
system_part w (m ∷ ms) = if w.keep_system && is_system m.role then m ∷ [] else []

pub other_part : Window → List Message → List Message
other_part w [] = []
other_part w (m ∷ ms) = if w.keep_system && is_system m.role then ms else m ∷ ms

pub groups_of : Window → List Message → List (List Message)
groups_of w ms =
    if ltb 0 w.keep_user_rounds then group_into_user_rounds ms else group_into_iterations ms

pub keep_count : Window → ℕ
keep_count w = if ltb 0 w.keep_user_rounds then w.keep_user_rounds else w.keep_iterations
