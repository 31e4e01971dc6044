-- ===== src/Eval/Verdicts.antt =====
-- What the planes of a context say of each instruction and row, as a table of verdicts, and what
-- the writes of context.go do to the table. Instruction `i + 1` of the source is `i` here.
use verifoxx.Base.{
  ℕ, suc, ◌+◌, ◌-◌, ◌*◌, ◌/◌, ◌≤◌, ◌<◌, ◌≡◌, ap, ◌∙◌, Bool, true, false, length, arith, ◌==◌,
  if◌then◌else◌, ok, Returns, returns, Returns-bind, List,
}
use mathlib.Core.Path.{ap₂}
use verifoxx.Eval.Context.{
  Context, plane_of, instruction_plane, positive_plane, negative_plane, reason_plane, set_positive,
  set_negative, set_reason,
}
use verifoxx.Eval.Planes.{bit, block, cell_bound, cell_inj, same_bit, set_row-Returns}

pub record Verdict : Type 0 where
  pub positive : Bool
  pub negative : Bool
  pub reason : ℕ

-- A row that is not evaluated yet has no reason.
abbrev pub cleared : Verdict
cleared = record { positive = false; negative = false; reason = 0 }

abbrev pub Table : Type 0
Table = ℕ → ℕ → Verdict

abbrev pub put : Table → ℕ → ℕ → Verdict → Table
put t i r v j s = if same_bit i r j s then v else t j s

-- The context has the planes of `n` instructions over `w` words.
pub record Fits (n w : ℕ) (context : Context) : Type 0 where
  pub words : context.words ≡ w
  pub instructions : context.instructions ≡ n
  pub positive_length : length context.positive ≡ n * w
  pub negative_length : length context.negative ≡ n * w
  pub reasons_length : length context.reasons ≡ 8 * n * w

-- The planes hold the table's verdicts, for `n` instructions and `rows` rows.
pub record Shows (n w rows : ℕ) (context : Context) (t : Table) : Type 0 where
  pub positive : (i r : ℕ) → i < n → r < rows → bit w context.positive i r ≡ (t i r).positive
  pub negative : (i r : ℕ) → i < n → r < rows → bit w context.negative i r ≡ (t i r).negative
  pub reason :
      (q i r : ℕ)
      → q < 8
      → i < n
      → r < rows
      → bit w context.reasons (q * n + i) r ≡ (suc q == (t i r).reason)

abbrev pub Holds : ℕ → ℕ → ℕ → Table → Context → Type 0
Holds n w rows t context = Fits n w context × Shows n w rows context t

block_end : (w b m : ℕ) → b < m → b * w + w ≤ m * w
block_end w b m h = grind arith

module _ (n w rows : ℕ) (wide : rows ≤ w * 64) where
  pub Shows-congr :
      (context : Context) (t u : Table)
      → ((i r : ℕ) → i < n → r < rows → t i r ≡ u i r)
      → Shows n w rows context t
      → Shows n w rows context u
  Shows-congr context t u same shows = record {
    positive =
        λ i r hi hr. shows.positive i r hi hr ∙ ap (λ (v : Verdict). v.positive) (same i r hi hr);
    negative =
        λ i r hi hr. shows.negative i r hi hr ∙ ap (λ (v : Verdict). v.negative) (same i r hi hr);
    reason = λ q i r hq hi hr.
        shows.reason q i r hq hi hr ∙ ap (λ (v : Verdict). suc q == v.reason) (same i r hi hr);
  }

  module _ (context : Context) (fits : Fits n w context) (nonempty : 0 < w) where
    start_of : (i b : ℕ) → i ≡ b → i * context.words ≡ b * w
    start_of i b e = ap₂ (λ (x y : ℕ). x * y) e fits.words

    plane_of-block :
        (storage : List ℕ) (b m start : ℕ)
        → length storage ≡ m * w
        → b < m
        → start ≡ b * w
        → plane_of context storage start ≡ ok (block w b)
    unfolding plane_of
    plane_of-block storage b m start long hb e = ground (arith, block_end w b m hb, fits.words)

    pub instruction_plane-block :
        (storage : List ℕ) (i : ℕ)
        → length storage ≡ n * w
        → i < n
        → instruction_plane context storage (suc i) ≡ ok (block w i)
    unfolding instruction_plane
    instruction_plane-block storage i long hi = ground (
      arith,
      fits.words,
      fits.instructions,
      plane_of-block storage i n ((suc i - 1) * context.words) long hi
          (start_of (suc i - 1) i (omega arith)),
    )

    pub positive_plane-block : (i : ℕ) → i < n → positive_plane context (suc i) ≡ ok (block w i)
    unfolding positive_plane
    positive_plane-block i hi = instruction_plane-block context.positive i fits.positive_length hi

    pub negative_plane-block : (i : ℕ) → i < n → negative_plane context (suc i) ≡ ok (block w i)
    unfolding negative_plane
    negative_plane-block i hi = instruction_plane-block context.negative i fits.negative_length hi

    pub reason_plane-block :
        (q i : ℕ) → q < 8 → i < n → reason_plane context (suc q) (suc i) ≡ ok (block w (q * n + i))
    unfolding reason_plane
    reason_plane-block q i hq hi =
        let before : suc q - 1 ≡ q = omega arith in
        let product = ap₂ (λ (x y : ℕ). x * y) before fits.instructions in
        ground (
          arith,
          fits.words,
          fits.instructions,
          plane_of-block context.reasons (q * n + i) (8 * n)
              (((suc q - 1) * context.instructions + suc i - 1) * context.words) fits.reasons_length
              (cell_bound n q 8 i hi hq) (start_of _ (q * n + i) (omega (arith, product))),
        )

  -- The row of a plane is within its words.
  row_word : (r : ℕ) → r < rows → r / 64 < w
  row_word r hr = omega arith

  module _ (context : Context) (t : Table) (i r : ℕ) (hi : i < n) (hr : r < rows) where
    pub set_positive-Holds :
        Holds n w rows t context
        → Returns
            (Holds n w rows (put t i r (record (t i r) { positive = true })))
            (set_positive context (block w i) r)
    unfolding set_positive
    set_positive-Holds (fits, shows) =
        Returns-bind
          (set_row-Returns w n context.positive fits.positive_length i r hi (row_word r hr))
          λ storage (long, bits). returns (
            record {
              words = fits.words;
              instructions = fits.instructions;
              positive_length = long;
              negative_length = fits.negative_length;
              reasons_length = fits.reasons_length;
            },
            record {
              positive =
                  λ j s hj hs. ground (arith, bits j s (row_word s hs), shows.positive j s hj hs);
              negative = λ j s hj hs. ground (arith, shows.negative j s hj hs);
              reason = λ q j s hq hj hs. ground (arith, shows.reason q j s hq hj hs);
            },
          )

    pub set_negative-Holds :
        Holds n w rows t context
        → Returns
            (Holds n w rows (put t i r (record (t i r) { negative = true })))
            (set_negative context (block w i) r)
    unfolding set_negative
    set_negative-Holds (fits, shows) =
        Returns-bind
          (set_row-Returns w n context.negative fits.negative_length i r hi (row_word r hr))
          λ storage (long, bits). returns (
            record {
              words = fits.words;
              instructions = fits.instructions;
              positive_length = fits.positive_length;
              negative_length = long;
              reasons_length = fits.reasons_length;
            },
            record {
              positive = λ j s hj hs. ground (arith, shows.positive j s hj hs);
              negative =
                  λ j s hj hs. ground (arith, bits j s (row_word s hs), shows.negative j s hj hs);
              reason = λ q j s hq hj hs. ground (arith, shows.reason q j s hq hj hs);
            },
          )

    -- A reason is set once: the row has none before.
    pub set_reason-Holds :
        (p : ℕ)
        → p < 8
        → (t i r).reason ≡ 0
        → Holds n w rows t context
        → Returns
            (Holds n w rows (put t i r (record (t i r) { reason = suc p })))
            (set_reason context (suc p) (suc i) r)
    unfolding set_reason
    set_reason-Holds p hp none_yet (fits, shows) =
        rw (reason_plane-block context fits (omega (arith, row_word r hr)) p i hp hi) (
          Returns-bind
            (set_row-Returns w (8 * n) context.reasons fits.reasons_length (p * n + i) r
              (cell_bound n p 8 i hi hp) (row_word r hr))
            λ storage (long, bits). returns (
              record {
                words = fits.words;
                instructions = fits.instructions;
                positive_length = fits.positive_length;
                negative_length = fits.negative_length;
                reasons_length = long;
              },
              record {
                positive = λ j s hj hs. ground (arith, shows.positive j s hj hs);
                negative = λ j s hj hs. ground (arith, shows.negative j s hj hs);
                reason = λ q j s hq hj hs. ground (
                  arith,
                  bits (q * n + j) s (row_word s hs),
                  shows.reason q j s hq hj hs,
                  cell_inj n p q i j hi hj,
                  ap (λ (x : ℕ). x * n) {x = p} {y = q},
                );
              },
            ))
