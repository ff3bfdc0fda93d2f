-- ===== src/Clock/Source.antt =====
-- The source that the processor's clock is taken from.
use msm8909pkg.Base.{
  ℕ, zero, suc, ◌+◌, ◌*◌, ◌/◌, ◌%◌, ◌^◌, ◌<◌, ◌≡◌, refl, ap, ◌∙◌, Option, bit_and, bit_or, arith,
}
use msm8909pkg.Base.Bits.{bit_and_step, bit_or_step, bit_or_lt_pow, bit_and_le, bit_and_nothing}
use msm8909pkg.Mmio.{Mmio, Holds}
use msm8909pkg.Clock.Untouched.{Apart, Keeps, power_down-Keeps, set_freq-Keeps}
use msm8909pkg.Clock.{
  clk_sel_addr, scpll_status_addr, clear, update, scpll_power_down, scpll_set_freq, select_clock,
}

-- The source field of the selection register.
abbrev pub source : ℕ → ℕ
source sel = bit_and sel 6 / 2

nothing_low : (x : ℕ) → bit_and (x / 2 / 2 / 2) 0 ≡ 0
nothing_low x = bit_and_nothing (suc (x / 2 / 2 / 2)) (x / 2 / 2 / 2) (omega arith)

source-bits : (x : ℕ) → source x ≡ x / 2 % 2 + 2 * (x / 4 % 2)
source-bits x =
    omega
      (arith, bit_and_step x 6, bit_and_step (x / 2) 3, bit_and_step (x / 2 / 2) 1, nothing_low x)

cleared-bits : (v : ℕ) → (clear v 6 / 2 % 2 ≡ 0) × (clear v 6 / 4 % 2 ≡ 0)
cleared-bits v = (
  omega (arith, bit_and_step v 4294967289, bit_and_step (v / 2) 2147483644),
  omega (
    arith,
    bit_and_step v 4294967289,
    bit_and_step (v / 2) 2147483644,
    bit_and_step (v / 2 / 2) 1073741822,
  ),
)

selected-source :
    (v src : ℕ) → v < 2 ^ 32 → src < 2 → source (bit_or (clear v 6) (src * 2) % 2 ^ 32) ≡ src
selected-source v src h small =
    let a = clear v 6 in
    let x = bit_or a (src * 2) in
    let (b1, b2) = cleared-bits v in
    let x_in : x < 2 ^ 32 =
      bit_or_lt_pow 32 a (src * 2) (omega (arith, bit_and_le (suc v) v 4294967289 (omega arith)))
        (omega arith) in
    omega (
      arith,
      source-bits (x % 2 ^ 32),
      bit_or_step a (src * 2),
      bit_or_step (a / 2) (src * 2 / 2),
      bit_or_step (a / 2 / 2) (src * 2 / 2 / 2),
    )

abbrev pub IsSel : ℕ → Type 0
IsSel a = a ≡ clk_sel_addr

module _ {S : Type 0} (m : Mmio S) (n : ℕ) (holds : Holds m IsSel) where
  abbrev pub sel : S → ℕ
  sel s = holds.reg clk_sel_addr s

  -- The status of the PLL shows no switch in progress.
  pub record Settled : Type 0 where
    pub status : (s : S) → (m.read32 scpll_status_addr s).0 ≡ 0

  sel-Apart : Apart m sel
  sel-Apart = record {
    read_f = λ a s. holds.read_keeps a clk_sel_addr s refl;
    write_f = λ a v s ne ne'.
        holds.write_reg a clk_sel_addr (v % 2 ^ 32) s refl (omega arith) ∙ rw ne refl;
  }

  -- The selection stays as it is, and the fuel is enough.
  abbrev pub Kept : S → Option S → Type 0
  Kept s o = Keeps m n sel s o

  module _ (settled : Settled) where
    pub power_down-Kept : (s : S) → Kept s (scpll_power_down m (suc n) s)
    power_down-Kept s = power_down-Keeps m n sel sel-Apart settled.status s

    pub set_freq-Kept : (lval : ℕ) (s : S) → Kept s (scpll_set_freq m (suc n) lval s)
    set_freq-Kept lval s = set_freq-Keeps m n sel sel-Apart settled.status lval s

  -- The write of a source.
  written-source :
      (src : ℕ) (t : S)
      → src < 2
      → source (sel (update m (suc n) clk_sel_addr (λ v. bit_or (clear v 6) (src * 2)) t)) ≡ src
  unfolding update
  written-source src t small =
      let v = (m.read32 clk_sel_addr t).0 in
      let v_in : v < 2 ^ 32 =
        rw (holds.read_reg clk_sel_addr t refl) (holds.reg_word clk_sel_addr t) in
      ap source (
        holds.write_reg clk_sel_addr clk_sel_addr (bit_or (clear v 6) (src * 2) % 2 ^ 32) _ refl
          (omega arith))
      ∙ selected-source v src v_in small

  pub select_clock-source :
      (src config : ℕ) (s : S) → src < 2 → source (sel (select_clock m (suc n) src config s)) ≡ src
  unfolding select_clock
  select_clock-source zero config s small = written-source 0 _ small
  select_clock-source (suc zero) config s small = written-source 1 _ small
  select_clock-source (suc (suc src)) config s small = absurd (omega arith)
