-- ===== src/Compaction/ToolResults.antt =====
-- nexau/archs/main_sub/execution/middleware/context_compaction/compact_stratigies/compact_tool_result.py:
-- ToolResultCompaction. Where the source tells messages apart by `is`, a message is its place in the
-- list: each stands there once.
use nex_au.Prelude.{
  ℕ, ◌-◌, ◌≡◌, refl, ap, sym, ◌∙◌, inl, inr, Bool, true, false, Option, none, some, List, [], ◌∷◌,
  ◌++◌, ◌==◌, nat_eq, list_eq, map, contains, take, drop, length, Bool-cases, if◌then◌else◌,
  append_assoc,
}
use nex_au.Prelude.Text.{Text, text}
use nex_au.History.Messages.{
  Message, Role, system, user, framework, assistant, tool, Block, text_block, image_block,
  reasoning_block, tool_use_block, tool_result_block, ToolResultBlock, plain, is_assistant, is_tool,
}
use nex_au.History.Pairing.{result_ids, calls, answers, seen_results, ensure_tool_use_paired}
use nex_au.History.Pairing.Ids.{made}
use nex_au.History.Pairing.Paired.{Paired, ensure_tool_use_paired-Paired}
use nex_au.Compaction.{Window, system_part, other_part, groups_of, keep_count}
use nex_au.Compaction.Groups.{concat, split_groups}

-- `tool_use_id_to_name.get(id, "")`: the name that the last call of the id has.
name_in : Text → List Block → Option Text → Option Text
name_in id [] found = found
name_in id (tool_use_block b ∷ bs) found =
    let here = name_in id bs (some b.name) in
    let rest = name_in id bs found in if b.id == id then here else rest
name_in id (_ ∷ bs) found = name_in id bs found

names_in : Text → List Message → Option Text → Option Text
unfolding name_in
names_in id [] found = found
names_in id (m ∷ ms) found =
    names_in id ms (if is_assistant m.role then name_in id m.content found else found)

or_no_name : Option Text → Text
or_no_name none = []
or_no_name (some n) = n

-- `should_compact_block`, by `compactable_tools`.
pub should_compact : Option (List Text) → List Message → Text → Bool
unfolding names_in or_no_name
should_compact none ms id = true
should_compact (some tools) ms id = contains tools (or_no_name (names_in id ms none))

-- The block that stands in for a result.
compacted : ToolResultBlock → ToolResultBlock
compacted b = record {
  tool_use_id = b.tool_use_id;
  content = plain (text "Tool call result has been compacted");
  is_error = b.is_error;
  raw_output = none;
}

pub compact_block : (Text → Bool) → Block → Block
unfolding compacted
compact_block should (tool_result_block b) =
    tool_result_block (if should b.tool_use_id then compacted b else b)
compact_block should b = b

-- A message that is not protected.
pub compact_message : (Text → Bool) → Message → Message
compact_message should m =
    if is_tool m.role then record m { content = map (compact_block should) m.content } else m

-- `compact`
pub compact_tool_results : Window → Option (List Text) → List Message → List Message
compact_tool_results w tools ms =
    let groups = groups_of w (other_part w ms) in
    let n = length groups - keep_count w in
    system_part w ms
    ++ (map (compact_message (should_compact tools ms)) (concat (take n groups))
        ++ concat (drop n groups))

-- No block changes the id that it answers or calls.
result_ids-compact :
    (should : Text → Bool) (bs : List Block)
    → result_ids (map (compact_block should) bs) ≡ result_ids bs
unfolding result_ids compact_block
result_ids-compact should [] = refl
result_ids-compact should (text_block b ∷ bs) = result_ids-compact should bs
result_ids-compact should (image_block b ∷ bs) = result_ids-compact should bs
result_ids-compact should (reasoning_block b ∷ bs) = result_ids-compact should bs
result_ids-compact should (tool_use_block b ∷ bs) = result_ids-compact should bs
result_ids-compact should (tool_result_block b ∷ bs) = elim (Bool-cases (should b.tool_use_id)) [
  | inl e ↦ rw e (ap (λ ids. b.tool_use_id ∷ ids) (result_ids-compact should bs))
  | inr e ↦ rw e (ap (λ ids. b.tool_use_id ∷ ids) (result_ids-compact should bs))
]

no_both : (r : Role) → is_tool r ≡ true → is_assistant r ≡ false
no_both tool h = refl
no_both system h = refl
no_both user h = refl
no_both framework h = refl
no_both assistant h = cc

answers-compact :
    (should : Text → Bool) (m : Message) → answers (compact_message should m) ≡ answers m
unfolding answers compact_message
answers-compact should m = elim (Bool-cases (is_tool m.role)) [
  | inl e ↦ rw (e, e) (result_ids-compact should m.content)
  | inr e ↦ rw (e, e) refl
]

calls-compact : (should : Text → Bool) (m : Message) → calls (compact_message should m) ≡ calls m
unfolding calls compact_message
calls-compact should m = elim (Bool-cases (is_tool m.role)) [
  | inl e ↦ let other = no_both m.role e in rw (e, other) refl
  | inr e ↦ rw e refl
]

seen-map :
    (f : Message → Message) (ms : List Message)
    → ((m : Message) → answers (f m) ≡ answers m)
    → seen_results (map f ms) ≡ seen_results ms
unfolding seen_results
seen-map f [] h = refl
seen-map f (m ∷ ms) h = rw (h m, seen-map f ms h) refl

made-map :
    (f : Message → Message) (ms : List Message)
    → ((m : Message) → calls (f m) ≡ calls m)
    → made (map f ms) ≡ made ms
unfolding made
made-map f [] h = refl
made-map f (m ∷ ms) h = rw (h m, made-map f ms h) refl

seen-append : (xs ys : List Message) → seen_results (xs ++ ys) ≡ seen_results xs ++ seen_results ys
unfolding seen_results
seen-append [] ys = refl
seen-append (x ∷ xs) ys =
    ap (λ ws. answers x ++ ws) (seen-append xs ys)
    ∙ sym (append_assoc (answers x) (seen_results xs) (seen_results ys))

made-append : (xs ys : List Message) → made (xs ++ ys) ≡ made xs ++ made ys
unfolding made
made-append [] ys = refl
made-append (x ∷ xs) ys =
    ap (λ ws. calls x ++ ws) (made-append xs ys) ∙ sym (append_assoc (calls x) (made xs) (made ys))

module _ (w : Window) (tools : Option (List Text)) (ms : List Message) where
  abbrev cut : ℕ
  cut = length (groups_of w (other_part w ms)) - keep_count w

  abbrev old : List Message
  old = concat (take cut (groups_of w (other_part w ms)))

  abbrev recent : List Message
  recent = concat (drop cut (groups_of w (other_part w ms)))

  compact-made : made (compact_tool_results w tools ms) ≡ made ms
  unfolding compact_tool_results
  compact-made =
      let f = compact_message (should_compact tools ms) in
      made-append (system_part w ms) (map f old ++ recent)
      ∙ ap (λ ws. made (system_part w ms) ++ ws)
          (made-append (map f old) recent
            ∙ ap (λ ws. ws ++ made recent)
                (made-map f old (calls-compact (should_compact tools ms)))
            ∙ sym (made-append old recent))
      ∙ sym (made-append (system_part w ms) (old ++ recent))
      ∙ ap made (sym (split_groups w ms cut))

  compact-seen : seen_results (compact_tool_results w tools ms) ≡ seen_results ms
  unfolding compact_tool_results
  compact-seen =
      let f = compact_message (should_compact tools ms) in
      seen-append (system_part w ms) (map f old ++ recent)
      ∙ ap (λ ws. seen_results (system_part w ms) ++ ws)
          (seen-append (map f old) recent
            ∙ ap (λ ws. ws ++ seen_results recent)
                (seen-map f old (answers-compact (should_compact tools ms)))
            ∙ sym (seen-append old recent))
      ∙ sym (seen-append (system_part w ms) (old ++ recent))
      ∙ ap seen_results (sym (split_groups w ms cut))

-- Compaction keeps every call and every answer, in their order; so what `_ensure_tool_use_paired`
-- has completed still has an answer to each call.
pub compact_tool_results-Paired :
    (w : Window) (tools : Option (List Text)) (ms : List Message)
    → (made (compact_tool_results w tools ms) ≡ made ms)
      × (seen_results (compact_tool_results w tools ms) ≡ seen_results ms)
      × Paired (compact_tool_results w tools (ensure_tool_use_paired ms))
compact_tool_results-Paired w tools ms = (
  compact-made w tools ms,
  compact-seen w tools ms,
  λ id h.
      let called : contains (made (ensure_tool_use_paired ms)) id ≡ true =
        ap (λ ids. contains ids id) (sym (compact-made w tools (ensure_tool_use_paired ms))) ∙ h in
      ap (λ ids. contains ids id) (compact-seen w tools (ensure_tool_use_paired ms))
      ∙ (ensure_tool_use_paired-Paired ms).0 id called,
)
