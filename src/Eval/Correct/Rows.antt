-- ===== src/Eval/Correct/Rows.antt =====
-- The loop over the rows of one instruction: it fills the instruction's verdicts, row by row.
use verifoxx.Base.{
  ℕ, suc, ◌*◌, ◌≤◌, ◌<◌, ◌≡◌, ap, ◌∙◌, true, ◌&&◌, arith, ltb, ◌==◌, if◌then◌else◌, Run, Returns,
  Returns-mono, for_range, for_range_inv_zero,
}
use verifoxx.Eval.Error.{Error}
use verifoxx.Eval.Context.{Context, set_positive, set_negative, set_reason}
use verifoxx.Eval.Planes.{block}
use verifoxx.Eval.Verdicts.{
  Verdict, Table, put, Holds, Shows-congr, set_positive-Holds, set_negative-Holds, set_reason-Holds,
}

-- The table `t` with the verdicts `v` of instruction `i` on the rows below `k`.
abbrev pub done : Table → ℕ → ℕ → (ℕ → Verdict) → Table
done t i k v j s = if j == i && ltb s k then v s else t j s

-- Row `k` itself is not done.
pub done-next : (t : Table) (i k : ℕ) (v : ℕ → Verdict) → done t i k v i k ≡ t i k
done-next t i k v = ground arith

module _ (n w rows : ℕ) (wide : rows ≤ w * 64) where
  pub Holds-congr :
      (context : Context) (t u : Table)
      → ((i r : ℕ) → i < n → r < rows → t i r ≡ u i r)
      → Holds n w rows t context
      → Holds n w rows u context
  Holds-congr context t u same (fits, shows) =
      (fits, Shows-congr n w rows wide context t u same shows)

  -- The writes to a row, on its verdict `v` so far.
  module _ (i r : ℕ) (hi : i < n) (hr : r < rows) (t : Table) where
    pub start_row :
        (context : Context) (v : Verdict)
        → t i r ≡ v
        → Holds n w rows t context
        → Holds n w rows (put t i r v) context
    start_row context v e = Holds-congr context t (put t i r v) λ j s hj hs. ground arith

    put_self : (v : Verdict) → put t i r v i r ≡ v
    put_self v = ground arith

    put-put : (v u : Verdict) (j s : ℕ) → put (put t i r v) i r u j s ≡ put t i r u j s
    put-put v u j s = ground arith

    pub put_reason :
        (context : Context) (v : Verdict) (p : ℕ)
        → p < 8
        → v.reason ≡ 0
        → Holds n w rows (put t i r v) context
        → Returns
            (Holds n w rows (put t i r (record v { reason = suc p })))
            (set_reason context (suc p) (suc i) r)
    put_reason context v p hp none_yet holds =
        Returns-mono
          (set_reason-Holds n w rows wide context (put t i r v) i r hi hr p hp
            (ap (λ (u : Verdict). u.reason) (put_self v) ∙ none_yet) holds)
          λ c. Holds-congr c _ (put t i r (record v { reason = suc p })) λ j s hj hs.
            put-put _ _ j s
            ∙ ap (λ (u : Verdict). put t i r (record u { reason = suc p }) j s) (put_self v)

    pub put_positive :
        (context : Context) (v : Verdict)
        → Holds n w rows (put t i r v) context
        → Returns
            (Holds n w rows (put t i r (record v { positive = true })))
            (set_positive context (block w i) r)
    put_positive context v holds =
        Returns-mono (set_positive-Holds n w rows wide context (put t i r v) i r hi hr holds) λ c.
          Holds-congr c _ (put t i r (record v { positive = true })) λ j s hj hs.
            put-put _ _ j s
            ∙ ap (λ (u : Verdict). put t i r (record u { positive = true }) j s) (put_self v)

    pub put_negative :
        (context : Context) (v : Verdict)
        → Holds n w rows (put t i r v) context
        → Returns
            (Holds n w rows (put t i r (record v { negative = true })))
            (set_negative context (block w i) r)
    put_negative context v holds =
        Returns-mono (set_negative-Holds n w rows wide context (put t i r v) i r hi hr holds) λ c.
          Holds-congr c _ (put t i r (record v { negative = true })) λ j s hj hs.
            put-put _ _ j s
            ∙ ap (λ (u : Verdict). put t i r (record u { negative = true }) j s) (put_self v)

  module _ (i : ℕ) (hi : i < n) (t : Table) (v : ℕ → Verdict)
      (body : ℕ → Context → Run Error Context) where
    -- A body that puts the verdict of its row fills the instruction.
    pub fill_rows :
        ((r : ℕ) (context : Context)
          → r < rows
          → Holds n w rows (done t i r v) context
          → Returns (Holds n w rows (put (done t i r v) i r (v r))) (body r context))
        → (context : Context) → Holds n w rows t context
        → Returns (Holds n w rows (done t i rows v)) (for_range rows 0 body context)
    fill_rows round context holds =
        for_range_inv_zero (λ k. Holds n w rows (done t i k v)) body rows context
          (λ r c hr h. Returns-mono (round r c hr h) λ d.
            Holds-congr d (put (done t i r v) i r (v r)) (done t i (suc r) v)
              λ j s hj hs. ground arith)
          (Holds-congr context t (done t i 0 v) (λ j s hj hs. ground arith) holds)
