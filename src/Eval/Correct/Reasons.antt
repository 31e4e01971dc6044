-- ===== src/Eval/Correct/Reasons.antt =====
-- What the executor reads of the planes: the reason of an instruction on a row, and whether a
-- requirement's root holds on it.
use verifoxx.Base.{
  ℕ, zero, suc, ◌+◌, ◌*◌, ◌≤◌, ◌<◌, ◌≡◌, refl, not, ◌&&◌, leb, if◌then◌else◌, arith, ok,
}
use verifoxx.Schema.Reason
use verifoxx.Eval.Context.{Context}
use verifoxx.Eval.Executor.{reason_from, instruction_reason, is_applicable}
use verifoxx.Eval.Planes.{has_row_in-bit, cell_bound}
use verifoxx.Eval.Verdicts.{
  Table, Holds, positive_plane-block, negative_plane-block, reason_plane-block,
}

-- A verdict's reason as the executor finds it, looking from `q` on.
abbrev pub settle_from : ℕ → ℕ → ℕ
settle_from q reason =
    if leb q reason && leb reason Reason.count then reason else Reason.unverifiable

module _ (n w rows : ℕ) (wide : rows ≤ w * 64) (context : Context) (t : Table)
    (holds : Holds n w rows t context) (nonempty : 0 < w) (i : ℕ) (hi : i < n) (r : ℕ)
    (hr : r < rows) where
  reason_from-settle :
      (m q : ℕ)
      → suc q + m ≡ 9
      → reason_from context (suc i) r m (suc q) ≡ ok (settle_from (suc q) (t i r).reason)
  unfolding reason_from
  reason_from-settle zero q e = ground arith
  reason_from-settle (suc m) q e =
      let rest = reason_from-settle m (suc q) (omega arith) in
      let read =
        has_row_in-bit w (8 * n) context.reasons holds.0.reasons_length (q * n + i) r
          (cell_bound n q 8 i hi (omega arith)) (omega arith) in
      rw
        (
          reason_plane-block n w rows wide context holds.0 nonempty q i (omega arith) hi,
          read,
          holds.1.reason q i r (omega arith) hi hr,
        )
        (ground (arith, rest))

  pub instruction_reason-settle :
      instruction_reason context (suc i) r ≡ ok (settle_from 1 (t i r).reason)
  unfolding instruction_reason
  instruction_reason-settle = reason_from-settle 8 0 refl

  pub is_applicable-verdict :
      is_applicable context (suc i) r ≡ ok ((t i r).positive && not (t i r).negative)
  unfolding is_applicable
  is_applicable-verdict =
      rw
        (
          positive_plane-block n w rows wide context holds.0 nonempty i hi,
          has_row_in-bit w n context.positive holds.0.positive_length i r hi (omega arith),
          holds.1.positive i r hi hr,
          negative_plane-block n w rows wide context holds.0 nonempty i hi,
          has_row_in-bit w n context.negative holds.0.negative_length i r hi (omega arith),
          holds.1.negative i r hi hr,
        )
        (ground arith)
