-- ===== src/Eval/Correct/AllWords.antt =====
-- internal/eval/scalar.go: the words of an All instruction's planes.
use verifoxx.Base.{
  ℕ, suc, ◌+◌, ◌-◌, ◌*◌, ◌/◌, ◌%◌, ◌^◌, ◌≤◌, ◌<◌, ◌≡◌, ◌≢◌, refl, ap, ◌∙◌, ◌&&◌, ◌||◌, List, [],
  ◌∷◌, arith, ltb, ◌==◌, if◌then◌else◌, lt→ltb, Returns, returns, Returns-bind, Returns-mono,
  for_range, for_range_inv_zero, ne→==,
}
use verifoxx.Base.Bits.{has_bit, has_bit-and, has_bit-or, has_bit-mask, has_bit-zero}
use verifoxx.Eval.Context.{Context, tail_mask, positive_plane, negative_plane}
use verifoxx.Eval.Scalar.{fold_operands, all_word, mask_last}
use verifoxx.Eval.Planes.{block}
use verifoxx.Eval.Verdicts.{
  Verdict, Table, Holds, cleared, positive_plane-block, negative_plane-block,
}
use verifoxx.Eval.Correct.Rows.{done, Holds-congr}
use verifoxx.Eval.Correct.Words.{
  Earlier, plane_word-cell, store_word-Returns, mask_last-Returns, word-bit, and_assoc, or_assoc,
  operand_verdicts, all_positive, any_negative,
}

module _ (n w rows : ℕ) (wide : rows ≤ w * 64) (nonempty : 0 < w) (i : ℕ) (hi : i < n) where
  -- The loop over the operands at a word, seen at the bits of that word.
  fold_operands-Returns :
      (context : Context) (t : Table)
      → Holds n w rows t context
      → (word : ℕ) → word < w
      → (ops : List ℕ) → Earlier i ops
      → (p q : ℕ)
      → Returns
          (λ a.
            (r : ℕ)
            → r < rows
            → r / 64 ≡ word
            → (has_bit a.0 (r % 64) ≡ (has_bit p (r % 64) && all_positive t ops r))
              × (has_bit a.1 (r % 64) ≡ (has_bit q (r % 64) || any_negative t ops r)))
          (fold_operands context word ops p q)
  unfolding fold_operands
  fold_operands-Returns context t holds word hw [] earlier p q =
      returns λ r hr e. (ground arith, ground arith)
  fold_operands-Returns context t (fits, shows) word hw (op ∷ ops) (low, high, earlier) p q =
      let e : op ≡ suc (op - 1) = omega arith in
      let before : op - 1 < n = omega arith in
      rw
        (
          ap (λ (x : ℕ). positive_plane context x) e
              ∙ positive_plane-block n w rows wide context fits nonempty (op - 1) before,
          ap (λ (x : ℕ). negative_plane context x) e
              ∙ negative_plane-block n w rows wide context fits nonempty (op - 1) before,
          plane_word-cell w n context.positive fits.positive_length (op - 1) word before hw,
          plane_word-cell w n context.negative fits.negative_length (op - 1) word before hw,
        )
        (Returns-mono (fold_operands-Returns context t (fits, shows) word hw ops earlier _ _)
          λ a bits r hr e'. (
            (bits r hr e').0
                ∙ rw
                    (
                      has_bit-and p _ (r % 64),
                      word-bit w context.positive (op - 1) word r e',
                      shows.positive (op - 1) r before hr,
                    )
                    (and_assoc (has_bit p (r % 64)) (t (op - 1) r).positive _),
            (bits r hr e').1
                ∙ rw
                    (
                      has_bit-or q _ (r % 64),
                      word-bit w context.negative (op - 1) word r e',
                      shows.negative (op - 1) r before hr,
                    )
                    (or_assoc (has_bit q (r % 64)) (t (op - 1) r).negative _),
          ))

  -- A row of the conjunction that has its planes and no reason yet.
  abbrev pub planes_only : Table → List ℕ → ℕ → Verdict
  planes_only t ops r = record {
    positive = all_positive t ops r;
    negative = any_negative t ops r;
    reason = 0;
  }

  -- The table when the words below `k` are combined.
  abbrev pub combined : Table → List ℕ → ℕ → Table
  combined t ops k j s = if j == i && ltb (s / 64) k then planes_only t ops s else t j s

  -- Combining leaves the operands' verdicts as they are.
  combined-operands :
      (t : Table) (all_ops ops : List ℕ) (k r : ℕ)
      → Earlier i ops
      → operand_verdicts (combined t all_ops k) ops r ≡ operand_verdicts t ops r
  combined-operands t all_ops [] k r earlier = refl
  combined-operands t all_ops (op ∷ ops) k r (low, high, earlier) =
      let d : op - 1 ≢ i = omega arith in
      rw (ne→== (op - 1) i d, combined-operands t all_ops ops k r earlier)

  full-positive :
      (t : Table) (ops : List ℕ) (k r x : ℕ)
      → Earlier i ops
      → has_bit x (r % 64)
        ≡ (has_bit (2 ^ 64 - 1) (r % 64) && all_positive (combined t ops k) ops r)
      → has_bit x (r % 64) ≡ all_positive t ops r
  full-positive t ops k r x earlier e =
      e
      ∙ rw (
        has_bit-mask 64 (r % 64),
        lt→ltb (r % 64) 64 (omega arith),
        combined-operands t ops ops k r earlier,
      )

  full-negative :
      (t : Table) (ops : List ℕ) (k r x : ℕ)
      → Earlier i ops
      → has_bit x (r % 64) ≡ (has_bit 0 (r % 64) || any_negative (combined t ops k) ops r)
      → has_bit x (r % 64) ≡ any_negative t ops r
  full-negative t ops k r x earlier e =
      e ∙ rw (has_bit-zero (r % 64), combined-operands t ops ops k r earlier)

  all_word-Holds :
      (t : Table)
      → ((r : ℕ) → t i r ≡ cleared)
      → (ops : List ℕ) → Earlier i ops
      → (word : ℕ) → word < w
      → (context : Context) → Holds n w rows (combined t ops word) context
      → Returns
          (Holds n w rows (combined t ops (suc word)))
          (all_word ops (block w i) (block w i) word context)
  unfolding all_word
  all_word-Holds t fresh ops earlier word hw context (fits, shows) =
      Returns-bind
        (fold_operands-Returns context (combined t ops word) (fits, shows) word hw ops earlier _ _)
        λ a bits.
          Returns-bind
            (store_word-Returns w n context.positive fits.positive_length i word hi hw a.0)
            λ positives (plong, pbits).
              Returns-bind
                (store_word-Returns w n context.negative fits.negative_length i word hi hw a.1)
                λ negatives (nlong, nbits). returns (
                  record {
                    words = fits.words;
                    instructions = fits.instructions;
                    positive_length = plong;
                    negative_length = nlong;
                    reasons_length = fits.reasons_length;
                  },
                  record {
                    positive = λ j s hj hs. ground (
                      arith,
                      pbits j s (omega arith),
                      shows.positive j s hj hs,
                      λ (e : s / 64 ≡ word).
                          full-positive t ops word s a.0 earlier ((bits s hs e).0),
                    );
                    negative = λ j s hj hs. ground (
                      arith,
                      nbits j s (omega arith),
                      shows.negative j s hj hs,
                      λ (e : s / 64 ≡ word).
                          full-negative t ops word s a.1 earlier ((bits s hs e).1),
                    );
                    reason = λ q j s hq hj hs. ground (
                      arith,
                      shows.reason q j s hq hj hs,
                      ap (λ (v : Verdict). v.reason) (fresh s),
                    );
                  },
                )

  -- The word loop and both masks give every row its planes.
  pub combine-Holds :
      (t : Table)
      → ((r : ℕ) → t i r ≡ cleared)
      → (ops : List ℕ) → Earlier i ops
      → (context : Context) → Holds n w rows t context
      → Returns
          (Holds n w rows (combined t ops w))
          (for_range w 0 (all_word ops (block w i) (block w i)) context)
  combine-Holds t fresh ops earlier context holds =
      for_range_inv_zero (λ k. Holds n w rows (combined t ops k))
        (all_word ops (block w i) (block w i)) w context
        (λ word c hw h. all_word-Holds t fresh ops earlier word hw c h)
        (Holds-congr n w rows wide context t (combined t ops 0) (λ j s hj hs. ground arith) holds)

  pub masked-Holds :
      (tight : w * 64 < rows + 64) (t : Table) (ops : List ℕ) (context : Context)
      → Holds n w rows (combined t ops w) context
      → Returns
          (λ positives.
            Returns
              (λ negatives.
                Holds n w rows
                  (done t i rows (planes_only t ops))
                  (record context { positive = positives; negative = negatives }))
              (mask_last context.negative (block w i) (tail_mask rows)))
          (mask_last context.positive (block w i) (tail_mask rows))
  masked-Holds tight t ops context (fits, shows) =
      Returns-mono
        (mask_last-Returns w n rows context.positive fits.positive_length i hi nonempty wide tight)
        λ positives (plong, pbits).
          Returns-mono
            (mask_last-Returns w n rows context.negative fits.negative_length i hi nonempty wide
              tight)
            λ negatives (nlong, nbits). (
              record {
                words = fits.words;
                instructions = fits.instructions;
                positive_length = plong;
                negative_length = nlong;
                reasons_length = fits.reasons_length;
              },
              record {
                positive = λ j s hj hs.
                    pbits j s hs
                    ∙ shows.positive j s hj hs
                    ∙ ap (λ (v : Verdict). v.positive) (whole t ops j s hs);
                negative = λ j s hj hs.
                    nbits j s hs
                    ∙ shows.negative j s hj hs
                    ∙ ap (λ (v : Verdict). v.negative) (whole t ops j s hs);
                reason = λ q j s hq hj hs.
                    shows.reason q j s hq hj hs
                    ∙ ap (λ (v : Verdict). suc q == v.reason) (whole t ops j s hs);
              },
            )
    where
      whole :
          (t : Table) (ops : List ℕ) (j s : ℕ)
          → s < rows
          → combined t ops w j s ≡ done t i rows (planes_only t ops) j s
      whole t ops j s hs = rw (lt→ltb (s / 64) w (omega arith), lt→ltb s rows hs)
