-- ===== src/Gpio/Pins.antt =====
-- The pins as cells of their own: what `gpio_set`, `gpio_config` and `gpio_get` do to each.
use native.Mathlib.Decide.{ℕ_discrete}
use msm8909pkg.Base.{
  ℕ, ◌-◌, ◌^◌, ◌≤◌, ◌<◌, ◌≡◌, ap, sym, ◌∙◌, Bool, true, false, Option, none, some, arith, ◌==◌,
  ==_self, ==_ne, if◌then◌else◌, bit_and, bit_or,
}
use msm8909pkg.Base.Bits.{
  test_bit, test_bit-and, test_bit-or, test_bit-pow, test_bit-not, test_bit-le-one, bit_not,
  bit_or_lt_pow, bit_and_le, pow_lt_pow, bit_and_test,
}
use msm8909pkg.Mmio.{Mmio, Holds}
use msm8909pkg.Gpio.{
  GpioRegs, find_gpio, modify_bit, gpio_config, gpio_set, gpio_get, gpio_output, gpio_input,
}
use msm8909pkg.Gpio.Banks.{IsControl, Place, place, pin_by_out, pin_by_oe, out-ne-oe, same_bank}

-- `on ? v | b : v & ~b`
abbrev with_bit : ℕ → ℕ → Bool → ℕ
with_bit v b on = if on then bit_or v b else bit_and v (bit_not 32 b)

with_bit_word : (v k : ℕ) (on : Bool) → v < 2 ^ 32 → k < 32 → with_bit v (2 ^ k) on < 2 ^ 32
with_bit_word v k true h l = bit_or_lt_pow 32 v (2 ^ k) h (pow_lt_pow k 32 l)
with_bit_word v k false h l = omega (arith, bit_and_le v v (bit_not 32 (2 ^ k)) (omega arith))

test_bit-with_bit :
    (v k j : ℕ) (on : Bool)
    → k < 32
    → j < 32
    → test_bit (with_bit v (2 ^ k) on) j ≡ (if k == j then (if on then 1 else 0) else test_bit v j)
test_bit-with_bit v k j true hk hj =
    rw (test_bit-or j v (2 ^ k), test_bit-pow k j) (ground (arith, test_bit-le-one v j))
test_bit-with_bit v k j false hk hj =
    rw
      (
        test_bit-and j v (bit_not 32 (2 ^ k)),
        test_bit-not 32 j (2 ^ k) (pow_lt_pow k 32 hk) hj,
        test_bit-pow k j,
      )
      (ground (arith, test_bit-le-one v j))

-- Two pins with one start of bank and one bit position are one pin.
same_pin : (n k a b : ℕ) → a ≡ b → a ≤ n → b ≤ k → ((n - a) == (k - b)) ≡ (n == k)
same_pin n k a b e h g = ground arith

module _ {S : Type 0} (m : Mmio S) (hw : Holds m IsControl) where
  open hw use {reg}

  -- A register after `modify_bit`.
  reg-modify_bit :
      (a b k : ℕ) (on : Bool) (s : S)
      → IsControl a
      → IsControl b
      → k < 32
      → reg b (modify_bit m a (2 ^ k) on s)
        ≡ (if a == b then with_bit (reg a s) (2 ^ k) on else reg b s)
  unfolding modify_bit
  reg-modify_bit a b k on s ca cb l =
      let word : (m.read32 a s).0 < 2 ^ 32 = rw (hw.read_reg a s ca) (hw.reg_word a s) in
      rw (
        hw.write_reg a b (with_bit (m.read32 a s).0 (2 ^ k) on) (m.read32 a s).1 cb
            (with_bit_word (m.read32 a s).0 k on word l),
        hw.read_reg a s ca,
        hw.read_keeps a b s cb,
      )

  -- The bit of a pin in a register of its bank; 0 for a pin that does not exist.
  abbrev bit_at : ℕ → Option (GpioRegs × ℕ) → (GpioRegs → ℕ) → S → ℕ
  bit_at n none register s = 0
  bit_at n (some (r, b)) register s = test_bit (reg (register r) s) (n - r.start)

  pin_bit : ℕ → (GpioRegs → ℕ) → S → ℕ
  pin_bit n register s = bit_at n (find_gpio n) register s

  -- The level that a pin drives, and whether it is an output: the bits of the output and of the
  -- output enable register.
  pub driven : ℕ → S → ℕ
  unfolding pin_bit
  driven n s = pin_bit n (λ r. r.out) s

  pub enabled : ℕ → S → ℕ
  unfolding pin_bit
  enabled n s = pin_bit n (λ r. r.oe) s

  driven_at :
      (n : ℕ) (p : Place n) (s : S) → driven n s ≡ test_bit (reg p.bank.out s) (n - p.bank.start)
  unfolding driven
  driven_at n p s = ap (λ o. bit_at n o (λ r. r.out) s) p.found

  enabled_at :
      (n : ℕ) (p : Place n) (s : S) → enabled n s ≡ test_bit (reg p.bank.oe s) (n - p.bank.start)
  unfolding enabled
  enabled_at n p s = ap (λ o. bit_at n o (λ r. r.oe) s) p.found

  -- One bit of one register of a bank is set to `on`: what pin `k` sees in the register of its bank.
  modified :
      (n k : ℕ) (p : Place n) (q : Place k) (a b : ℕ) (on : Bool) (s : S)
      → IsControl a
      → IsControl b
      → (a ≡ b → p.bank.start ≡ q.bank.start)
      → (n ≡ k → a ≡ b)
      → test_bit (reg b (modify_bit m a (2 ^ (n - p.bank.start)) on s)) (k - q.bank.start)
        ≡ (if n == k then (if on then 1 else 0) else test_bit (reg b s) (k - q.bank.start))
  modified n k p q a b on s ca cb same back = elim (ℕ_discrete a b) [
    | yes e ↦ rw (
      reg-modify_bit a b (n - p.bank.start) on s ca cb p.bit_in,
      e,
      ==_self b,
      test_bit-with_bit (reg b s) (n - p.bank.start) (k - q.bank.start) on p.bit_in q.bit_in,
      same_pin n k p.bank.start q.bank.start (same e) p.from q.from,
    )
    | no ne ↦ rw (
      reg-modify_bit a b (n - p.bank.start) on s ca cb p.bit_in,
      ==_ne a b ne,
      ==_ne n k (λ e. ne (back e)),
    )
  ]

  gpio_config_at :
      (n flags : ℕ) (p : Place n) (s : S)
      → gpio_config m n flags s ≡ (
        0,
        modify_bit m p.bank.oe
            (2 ^ (n - p.bank.start))
            (if bit_and flags gpio_output == 0 then false else true)
            s,
      )
  unfolding gpio_config
  gpio_config_at n flags p s = rw p.found

  gpio_set_at :
      (n on : ℕ) (p : Place n) (s : S)
      → gpio_set m n on s
        ≡ modify_bit m p.bank.out
            (2 ^ (n - p.bank.start))
            (if on == 0 then false else true)
            (modify_bit m p.bank.oe (2 ^ (n - p.bank.start)) true s)
  unfolding gpio_set
  gpio_set_at n on p s = rw p.found (
      ap
        (λ r.
          modify_bit m p.bank.out (2 ^ (n - p.bank.start)) (if on == 0 then false else true) r.1)
        (gpio_config_at n gpio_output p s))

  -- A write of one bit in an output enable register, seen by a pin.
  driven-modify_oe :
      (n k : ℕ) (p : Place n) (q : Place k) (on : Bool) (s : S)
      → driven k (modify_bit m p.bank.oe (2 ^ (n - p.bank.start)) on s) ≡ driven k s
  driven-modify_oe n k p q on s = rw (
    driven_at k q (modify_bit m p.bank.oe (2 ^ (n - p.bank.start)) on s),
    driven_at k q s,
    reg-modify_bit p.bank.oe q.bank.out (n - p.bank.start) on s p.oe_control q.out_control p.bit_in,
    ==_ne p.bank.oe q.bank.out (λ e. out-ne-oe q p (sym e)),
  )

  enabled-modify_oe :
      (n k : ℕ) (p : Place n) (q : Place k) (on : Bool) (s : S)
      → enabled k (modify_bit m p.bank.oe (2 ^ (n - p.bank.start)) on s)
        ≡ (if n == k then (if on then 1 else 0) else enabled k s)
  enabled-modify_oe n k p q on s =
      rw (enabled_at k q (modify_bit m p.bank.oe (2 ^ (n - p.bank.start)) on s), enabled_at k q s)
        (modified n k p q p.bank.oe q.bank.oe on s p.oe_control q.oe_control (pin_by_oe p q)
          (λ e. ap (λ r. r.oe) (same_bank p q e)))

  driven-modify_out :
      (n k : ℕ) (p : Place n) (q : Place k) (on : Bool) (s : S)
      → driven k (modify_bit m p.bank.out (2 ^ (n - p.bank.start)) on s)
        ≡ (if n == k then (if on then 1 else 0) else driven k s)
  driven-modify_out n k p q on s =
      rw (driven_at k q (modify_bit m p.bank.out (2 ^ (n - p.bank.start)) on s), driven_at k q s)
        (modified n k p q p.bank.out q.bank.out on s p.out_control q.out_control (pin_by_out p q)
          (λ e. ap (λ r. r.out) (same_bank p q e)))

  enabled-modify_out :
      (n k : ℕ) (p : Place n) (q : Place k) (on : Bool) (s : S)
      → enabled k (modify_bit m p.bank.out (2 ^ (n - p.bank.start)) on s) ≡ enabled k s
  enabled-modify_out n k p q on s = rw (
    enabled_at k q (modify_bit m p.bank.out (2 ^ (n - p.bank.start)) on s),
    enabled_at k q s,
    reg-modify_bit p.bank.out q.bank.oe (n - p.bank.start) on s p.out_control q.oe_control p.bit_in,
    ==_ne p.bank.out q.bank.oe (out-ne-oe p q),
  )

  -- On registers that hold what is written to them, `gpio_set` on a pin up to 164 makes that pin an
  -- output and drives it high for any `on` but 0, low for 0; every other pin up to 164 drives what
  -- it drove and is an output if it was one.
  pub gpio_set_lem :
      (n k on : ℕ) (s : S)
      → n ≤ 164
      → k ≤ 164
      → (driven k (gpio_set m n on s) ≡ (if n == k then (if on == 0 then 0 else 1) else driven k s))
        × (enabled k (gpio_set m n on s) ≡ (if n == k then 1 else enabled k s))
  gpio_set_lem n k on s h g =
      let p = place n h in
      let q = place k g in
      let high = if on == 0 then false else true in
      let s' = modify_bit m p.bank.oe (2 ^ (n - p.bank.start)) true s in
      rw (gpio_set_at n on p s) (
        driven-modify_out n k p q high s' ∙ rw (driven-modify_oe n k p q true s) (ground arith),
        enabled-modify_out n k p q high s' ∙ enabled-modify_oe n k p q true s,
      )

  -- `gpio_config` on a pin up to 164 changes the level of none.
  pub gpio_config-driven :
      (n k flags : ℕ) (s : S)
      → n ≤ 164
      → k ≤ 164
      → driven k (gpio_config m n flags s).1 ≡ driven k s
  gpio_config-driven n k flags s h g =
      let p = place n h in
      rw (gpio_config_at n flags p s) (
        driven-modify_oe n k p (place k g) (if bit_and flags gpio_output == 0 then false else true)
          s)

  -- The level of a pin hangs on the control registers alone.
  pub driven-same :
      (k : ℕ) (s t : S)
      → k ≤ 164
      → ((a : ℕ) → IsControl a → reg a t ≡ reg a s)
      → driven k t ≡ driven k s
  driven-same k s t g same =
      let q = place k g in
      driven_at k q t
      ∙ ap (λ w. test_bit w (k - q.bank.start)) (same q.bank.out q.out_control)
      ∙ sym (driven_at k q s)

  gpio_get_at :
      (n : ℕ) (p : Place n) (s : S)
      → let (v, s') = m.read32 p.bank.input (gpio_config m n gpio_input s).1 in
        gpio_get m n s ≡ ((if bit_and v (2 ^ (n - p.bank.start)) == 0 then 0 else 1), s')
  unfolding gpio_get
  gpio_get_at n p s = rw p.found

  driven-read : (a k : ℕ) (q : Place k) (s : S) → driven k (m.read32 a s).1 ≡ driven k s
  driven-read a k q s =
      rw (
        driven_at k q (m.read32 a s).1,
        driven_at k q s,
        hw.read_keeps a q.bank.out s q.out_control,
      )

  enabled-read : (a k : ℕ) (q : Place k) (s : S) → enabled k (m.read32 a s).1 ≡ enabled k s
  enabled-read a k q s =
      rw (
        enabled_at k q (m.read32 a s).1,
        enabled_at k q s,
        hw.read_keeps a q.bank.oe s q.oe_control,
      )

  -- The bit of a pin in the word that the hardware gives for the input register of its bank.
  pub sampled : ℕ → S → ℕ
  sampled n s = sampled_at n (find_gpio n) s
    where
      sampled_at : ℕ → Option (GpioRegs × ℕ) → S → ℕ
      sampled_at n none s = 0
      sampled_at n (some (r, b)) s = test_bit (m.read32 r.input s).0 (n - r.start)

  -- On registers that hold what is written to them, `gpio_get` on a pin up to 164 makes that pin an
  -- input, and returns its bit of the word that the input register of its bank then gives. For every
  -- pin up to 164 the level driven stays, and for every other one the direction too.
  pub gpio_get_lem :
      (n k : ℕ) (s : S)
      → n ≤ 164
      → k ≤ 164
      → ((gpio_get m n s).0 ≡ sampled n (gpio_config m n gpio_input s).1)
        × (enabled k (gpio_get m n s).1 ≡ (if n == k then 0 else enabled k s))
        × (driven k (gpio_get m n s).1 ≡ driven k s)
  unfolding sampled
  gpio_get_lem n k s h g =
      let p = place n h in
      let q = place k g in
      let s' = modify_bit m p.bank.oe (2 ^ (n - p.bank.start)) false s in
      let c : (gpio_config m n gpio_input s).1 ≡ s' =
        ap (λ r. r.1) (gpio_config_at n gpio_input p s) in
      rw (gpio_get_at n p s, c)
        (
          bit_and_test (n - p.bank.start) (m.read32 p.bank.input s').0 ∙ rw p.found,
          enabled-read p.bank.input k q s' ∙ enabled-modify_oe n k p q false s,
          driven-read p.bank.input k q s' ∙ driven-modify_oe n k p q false s,
        )
