-- ===== src/History/Pairing.antt =====
-- nexau/archs/session/agent_run_action_service.py: `_ensure_tool_use_paired`.
pub mod Ids
pub mod Paired
use nex_au.Prelude.{
  ℕ, zero, suc, true, not, none, List, [], ◌∷◌, ◌++◌, ◌==◌, nat_eq, list_eq, contains, ltb, select,
  if◌then◌else◌,
}
use nex_au.Prelude.Text.{Text, text}
use nex_au.History.Messages.{
  Message, Block, tool_use_block, tool_result_block, new_result, tool, is_assistant, is_tool,
}

pub use_ids : List Block → List Text
use_ids [] = []
use_ids (tool_use_block b ∷ bs) = b.id ∷ use_ids bs
use_ids (_ ∷ bs) = use_ids bs

unfoldable pub result_ids : List Block → List Text
result_ids [] = []
result_ids (tool_result_block b ∷ bs) = b.tool_use_id ∷ result_ids bs
result_ids (_ ∷ bs) = result_ids bs

-- The ids of the calls that a message makes, and of those that it answers.
unfoldable pub calls : Message → List Text
unfolding use_ids
calls m = if is_assistant m.role then use_ids m.content else []

unfoldable pub answers : Message → List Text
unfolding result_ids
answers m = if is_tool m.role then result_ids m.content else []

-- `tool_use_at[id] = i`: a dict keeps the place of a key that it has.
pub set_at : Text → ℕ → List (Text × ℕ) → List (Text × ℕ)
set_at id i [] = (id, i) ∷ []
set_at id i ((k, j) ∷ d) = let rest = set_at id i d in if k == id then (k, i) ∷ d else (k, j) ∷ rest

set_all : List Text → ℕ → List (Text × ℕ) → List (Text × ℕ)
set_all [] i d = d
set_all (id ∷ ids) i d = set_all ids i (set_at id i d)

-- Step 1: the index of the last message that makes each call.
pub tool_use_at : (i : ℕ) → List Message → List (Text × ℕ) → List (Text × ℕ)
unfolding set_all
tool_use_at i [] d = d
tool_use_at i (m ∷ ms) d = tool_use_at (suc i) ms (set_all (calls m) i d)

-- Step 2
unfoldable pub seen_results : List Message → List Text
seen_results [] = []
seen_results (m ∷ ms) = answers m ++ seen_results ms

-- `orphans.sort(key=lambda x: -x[1])`, which is stable.
insert_sorted : Text × ℕ → List (Text × ℕ) → List (Text × ℕ)
insert_sorted x [] = x ∷ []
insert_sorted x (y ∷ ys) =
    let rest = insert_sorted x ys in if ltb x.1 y.1 then y ∷ rest else x ∷ y ∷ ys

pub sort_orphans : List (Text × ℕ) → List (Text × ℕ)
unfolding insert_sorted
sort_orphans [] = []
sort_orphans (x ∷ xs) = insert_sorted x (sort_orphans xs)

-- The answer that stands in for a missing one.
pub synthetic : Text → Message
synthetic id = record {
  id = text "synth-tool-result-" ++ id;
  role = tool;
  content =
      new_result id
        (text
          "Tool execution did not complete. Synthesized by NexAU at fold time to maintain the tool_use ↔ tool_result pairing invariant required by Anthropic / OpenAI APIs. The original tool failure is in the trace logs.")
        true
      ∷ [];
  metadata = text "{}";
  created_at = none;
}

-- `out.insert(i, m)`
unfoldable pub insert : {A : Type 0} → ℕ → A → List A → List A
insert zero m xs = m ∷ xs
insert (suc i) m [] = m ∷ []
insert (suc i) m (x ∷ xs) = x ∷ insert i m xs

-- The loop of step 3.
pub answer_all : List (Text × ℕ) → List Message → List Message
answer_all [] out = out
answer_all ((id, i) ∷ os) out = answer_all os (insert (suc i) (synthetic id) out)

pub orphans : List Message → List (Text × ℕ)
unfolding tool_use_at
orphans ms = select (λ o. not (contains (seen_results ms) o.0)) (tool_use_at 0 ms [])

-- `_ensure_tool_use_paired`; without orphans the loop does nothing.
pub ensure_tool_use_paired : List Message → List Message
unfolding orphans sort_orphans answer_all
ensure_tool_use_paired ms = answer_all (sort_orphans (orphans ms)) ms
