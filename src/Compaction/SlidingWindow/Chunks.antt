-- ===== src/Compaction/SlidingWindow/Chunks.antt =====
-- nexau/archs/main_sub/execution/middleware/context_compaction/compact_stratigies/sliding_window.py: the
-- chunks of a summary.
use nex_au.Prelude.{
  ℕ, ◌+◌, ◌≤◌, ◌<◌, ◌≡◌, ◌≢◌, refl, ap, sym, ◌∙◌, ◌⊎◌, inl, inr, Bool, true, false, not, ◌&&◌, List,
  [], ◌∷◌, ◌++◌, append_assoc, append-nil, arith, All, All-append, Bool-cases, and-eq-true, ltb,
  length, map, subst,
}
use nex_au.History.Messages.{Message}
use nex_au.Compaction.{is_empty, add_group, group_into_iterations}
use nex_au.Compaction.Groups.{concat, concat-append, Filled, is_empty-nil, iterations_loop-Groups}
use nex_au.Compaction.SlidingWindow.{Summarizer, chunks_loop, split_into_chunks}

module _ (z : Summarizer) (limit : ℕ) where
  -- The tokens of some iterations, each counted by itself.
  tokens_of : List (List Message) → ℕ
  tokens_of [] = 0
  tokens_of (g ∷ gs) = z.count_tokens g + tokens_of gs

  -- The iterations of one chunk: one at least, and within the limit if they are more than one.
  pub Within : List (List Message) → Type 0
  Within its = (1 ≤ length its) × ((tokens_of its ≤ limit) ⊎ (length its ≤ 1))

  -- The next iteration does not fit into the chunk.
  pub Full : List (List Message) → List (List Message) → Type 0
  Full its [] = Unit {0}
  Full its (next ∷ _) = limit < tokens_of its + z.count_tokens next

  pub Greedy : List (List (List Message)) → Type 0
  Greedy [] = Unit {0}
  Greedy (p ∷ ps) = Full p (concat ps) × Greedy ps

  -- The chunks are made of the iterations, in their order.
  abbrev pub Packed : (iterations chunks : List (List Message)) → Type 0
  Packed iterations chunks =
      (parts : List (List (List Message))) × (concat parts ≡ iterations)
      × (chunks ≡ map concat parts)
      × All Within parts
      × Greedy parts

  tokens_of-snoc :
      (gs : List (List Message)) (g : List Message)
      → tokens_of (gs ++ (g ∷ [])) ≡ tokens_of gs + z.count_tokens g
  unfolding tokens_of
  tokens_of-snoc [] g = omega arith
  tokens_of-snoc (x ∷ gs) g = omega (arith, tokens_of-snoc gs g)

  nothing_open : (its : List (List Message)) → Filled its → concat its ≡ [] → its ≡ []
  nothing_open [] f e = refl
  nothing_open ([] ∷ its) f e = absurd (f.0 refl)
  nothing_open ((m ∷ ms) ∷ its) f e = absurd (cc e)

  concat-map : (ps : List (List (List Message))) → concat (map concat ps) ≡ concat (concat ps)
  concat-map [] = refl
  concat-map (p ∷ ps) =
      ap (λ ws. concat p ++ ws) (concat-map ps) ∙ sym (concat-append p (concat ps))

  -- The end of the loop, where the current chunk is made of `its`.
  last-Packed :
      (its chunks : List (List Message))
      → Filled its
      → (tokens_of its ≤ limit) ⊎ (length its ≤ 1)
      → (added : List (List Message)) × (add_group (concat its) chunks ≡ chunks ++ added)
        × Packed (its ++ []) added
  unfolding add_group Within Greedy Full
  last-Packed [] chunks f p = ([], sym (append-nil chunks), ([], refl, refl, tt, tt))
  last-Packed ([] ∷ its) chunks f p = absurd (f.0 refl)
  last-Packed ((m ∷ ms) ∷ its) chunks f p = (
    concat ((m ∷ ms) ∷ its) ∷ [],
    refl,
    (((m ∷ ms) ∷ its) ∷ [], refl, refl, ((omega arith, p), tt), (tt, tt)),
  )

  some_open : (its : List (List Message)) → is_empty (concat its) ≡ false → 1 ≤ length its
  some_open [] e = cc e
  some_open (g ∷ its) e = omega arith

  -- The loop, where the current chunk is made of `its`.
  chunks_loop-Packed :
      (rest chunks its : List (List Message)) (tokens : ℕ)
      → Filled rest
      → Filled its
      → tokens ≡ tokens_of its
      → (tokens_of its ≤ limit) ⊎ (length its ≤ 1)
      → (added : List (List Message)) × (chunks_loop z limit rest chunks (concat its) tokens
          ≡ chunks ++ added)
        × Packed (its ++ rest) added
  unfolding chunks_loop tokens_of Within Greedy Full
  chunks_loop-Packed [] chunks its tokens fr fi t p = last-Packed its chunks fi p
  chunks_loop-Packed (it ∷ rest) chunks its tokens fr fi t p =
      let n = z.count_tokens it in
      elim (Bool-cases (ltb limit (tokens + n) && not (is_empty (concat its)))) [
        | inl f ↦
            let (added, e, packed) =
              chunks_loop-Packed rest (chunks ++ (concat its ∷ [])) (it ∷ []) n fr.1 (fr.0, tt)
                (omega arith) (inr (omega arith)) in
            let (parts, flat, same, small, greedy) = packed in
            let (over, begun) =
              and-eq-true (ltb limit (tokens + n)) (not (is_empty (concat its))) f in
            let past : limit < tokens_of its + n = ground (arith, over, t) in
            rw f (
              concat its ∷ added,
              ap (λ ws. chunks_loop z limit rest (chunks ++ (concat its ∷ [])) ws n)
                    (sym (append-nil it))
                  ∙ e
                  ∙ append_assoc chunks (concat its ∷ []) added,
              (
                its ∷ parts,
                ap (λ ws. its ++ ws) flat,
                ap (λ cs. concat its ∷ cs) same,
                ((some_open its (ground (arith, begun)), p), small),
                (subst (Full its) (sym flat) past, greedy),
              ),
            )
        | inr f ↦
            let (added, e, packed) =
              chunks_loop-Packed rest chunks (its ++ (it ∷ [])) (tokens + n) fr.1
                (All-append (λ g. g ≢ []) its (it ∷ []) fi (fr.0, tt))
                (omega (arith, t, tokens_of-snoc its it)) (grown f) in
            rw f (
              added,
              ap (λ ws. chunks_loop z limit rest chunks ws (tokens + n))
                    (sym
                      (concat-append its (it ∷ []) ∙ ap (λ ws. concat its ++ ws) (append-nil it)))
                  ∙ e,
              subst (λ is. Packed is added) (append_assoc its (it ∷ []) rest) packed,
            )
      ]
    where
      within : (a b : Bool) → (a && not b) ≡ false → (a ≡ false) ⊎ (b ≡ true)
      within false b f = inl refl
      within true true f = inr refl
      within true false f = cc

      grown :
          (ltb limit (tokens + z.count_tokens it) && not (is_empty (concat its))) ≡ false
          → (tokens_of (its ++ (it ∷ [])) ≤ limit) ⊎ (length (its ++ (it ∷ [])) ≤ 1)
      grown f = elim (within _ _ f) [
        | inl small ↦
            inl (subst (λ k. k ≤ limit) (sym (tokens_of-snoc its it)) (ground (arith, small, t)))
        | inr none_yet ↦
            let none_open : its ≡ [] = nothing_open its fi (is_empty-nil (concat its) none_yet) in
            inr (subst (λ gs. length (gs ++ (it ∷ [])) ≤ 1) (sym none_open) (omega arith))
      ]

  -- `_split_into_chunks` packs whole iterations: the chunks are made of the iterations of the messages, in
  -- their order, each of one at least; a chunk of more than one has no more tokens than the limit,
  -- counted iteration by iteration; and the iteration behind a chunk is one that does not fit into it
  -- any more. Put together, the chunks are the messages.
  pub split_into_chunks-Packed :
      (ms : List Message)
      → Packed (group_into_iterations ms) (split_into_chunks z limit ms)
        × (concat (split_into_chunks z limit ms) ≡ ms)
  unfolding split_into_chunks group_into_iterations tokens_of
  split_into_chunks-Packed ms =
      let (whole, filled) = iterations_loop-Groups ms [] [] tt in
      let (added, e, packed) =
        chunks_loop-Packed (group_into_iterations ms) [] [] 0 filled tt refl (inr (omega arith)) in
      let (parts, flat, same, _, _) = packed in
      (
        subst (Packed (group_into_iterations ms)) (sym e) packed,
        ap concat (e ∙ same) ∙ concat-map parts ∙ ap concat flat ∙ whole,
      )
