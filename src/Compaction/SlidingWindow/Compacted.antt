-- ===== src/Compaction/SlidingWindow/Compacted.antt =====
-- nexau/archs/main_sub/execution/middleware/context_compaction/compact_stratigies/sliding_window.py: what
-- a compaction leaves of the messages, and how long the fallback is.
use nex_au.Prelude.{
  ℕ, zero, suc, max, ◌+◌, ◌-◌, ◌≤◌, ◌<◌, ◌≡◌, refl, sym, ◌∙◌, ◌⊎◌, inl, inr, true, false, List, [],
  ◌∷◌, ◌++◌, take, drop, take-append-drop, length-drop, reverse, arith, Bool-cases, ltb, leb,
  length, if◌then◌else◌,
}
use nex_au.Prelude.Text.{Text}
use nex_au.History.Messages.{Message, Role, user, system, framework, assistant, tool}
use nex_au.History.Pairing.{insert}
use nex_au.Compaction.{Window, system_part, other_part, groups_of, keep_count}
use nex_au.Compaction.Groups.{concat, split_groups}
use nex_au.Compaction.SlidingWindow.{
  Summarizer, max_fallback_tokens, retain_loop, tokens_each, retained_messages, is_user,
  merged_message, summary_message, inject_summary, generate_summary_safe, compact,
}

module _ (z : Summarizer) where
  tokens_each-insert :
      (i : ℕ) (m : Message) (ms : List Message)
      → tokens_each z (insert i m ms) ≡ z.count_tokens (m ∷ []) + tokens_each z ms
  unfolding insert tokens_each
  tokens_each-insert zero m ms = refl
  tokens_each-insert (suc i) m [] = refl
  tokens_each-insert (suc i) m (x ∷ ms) = omega (arith, tokens_each-insert i m ms)

  retain_loop-bound :
      (at : ℕ) (ms retained : List Message) (tokens : ℕ)
      → tokens ≡ tokens_each z retained
      → tokens_each z (retain_loop z at ms retained tokens) ≤ max max_fallback_tokens tokens
  unfolding retain_loop
  retain_loop-bound at [] retained tokens t = omega (arith, t)
  retain_loop-bound at (m ∷ ms) retained tokens t =
      let n = z.count_tokens (m ∷ []) in
      let further =
        retain_loop-bound at ms (insert at m retained) (tokens + n)
          (omega (arith, t, tokens_each-insert at m retained)) in
      elim (Bool-cases (ltb max_fallback_tokens (tokens + n))) [
        | inl e ↦ rw e (omega (arith, t))
        | inr e ↦ rw e (ground (arith, e, further))
      ]

  -- The messages that the fallback retains have no more tokens than its budget, counted message by
  -- message, unless the system's message alone has more.
  pub retained_messages-bound :
      (w : Window) (ms : List Message)
      → tokens_each z (retained_messages z w ms)
        ≤ max max_fallback_tokens (tokens_each z (system_part w ms))
  unfolding retained_messages
  retained_messages-bound w ms =
      retain_loop-bound (if w.keep_system then 1 else 0) (reverse ms) (system_part w ms)
        (tokens_each z (system_part w ms)) refl

  -- The recent messages with a summary: merged into the first one where that is the user's, else before
  -- them.
  abbrev pub WithSummary : Text → List Message → List Message → Type 0
  WithSummary summary recent result =
      ((m : Message) × (rest : List Message) × (recent ≡ m ∷ rest)
        × (m.role ≡ user)
        × (result ≡ merged_message z summary m ∷ rest))
      ⊎ (result ≡ summary_message z summary ∷ recent)

  user_role : (r : Role) → is_user r ≡ true → r ≡ user
  user_role user h = refl
  user_role system h = cc
  user_role framework h = cc
  user_role assistant h = cc
  user_role tool h = cc

  inject_summary-WithSummary :
      (summary : Text) (ms : List Message) → WithSummary summary ms (inject_summary z ms summary)
  unfolding inject_summary
  inject_summary-WithSummary summary [] = inr refl
  inject_summary-WithSummary summary (m ∷ ms) = elim (Bool-cases (is_user m.role)) [
    | inl e ↦ rw e (inl (m, ms, refl, user_role m.role e, refl))
    | inr e ↦ rw e (inr refl)
  ]

  -- With more groups than it is to keep, a compaction splits the groups of the messages that are not the
  -- system's into old ones and as many recent ones as `keep_count` says; it asks for the summary of the
  -- system's message and the old groups, and what it returns is the system's message and the recent
  -- groups, as they are but for the summary before them or in the first message of them. The system's
  -- message and all of the groups are together the messages that it got.
  pub compact-splits :
      (w : Window) (ms : List Message)
      → keep_count w < length (groups_of w (other_part w ms))
      → (old : List (List Message)) × (recent : List (List Message)) × (kept : List Message)
        × (groups_of w (other_part w ms) ≡ old ++ recent)
        × (length recent ≡ keep_count w)
        × (ms ≡ system_part w ms ++ (concat old ++ concat recent))
        × (compact z w ms ≡ system_part w ms ++ kept)
        × WithSummary
            (generate_summary_safe z w (system_part w ms ++ concat old)).0
            (concat recent)
            kept
  unfolding compact
  compact-splits w ms more =
      let groups = groups_of w (other_part w ms) in
      let n = length groups - keep_count w in
      let old = take n groups in
      let recent = drop n groups in
      let over : leb (length groups) (keep_count w) ≡ false = ground (arith, more) in
      let summary = (generate_summary_safe z w (system_part w ms ++ concat old)).0 in
      (
        old,
        recent,
        inject_summary z (concat recent) summary,
        sym (take-append-drop n groups),
        length-drop n groups ∙ omega (arith, more),
        split_groups w ms n,
        rw over refl,
        inject_summary-WithSummary summary (concat recent),
      )
