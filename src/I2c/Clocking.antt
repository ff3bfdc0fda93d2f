-- ===== src/I2c/Clocking.antt =====
-- The clock that msm_i2c_probe sets, and the words of the messages as numbers.
use msm8909pkg.Base.{
  ℕ, zero, suc, ◌+◌, ◌-◌, ◌*◌, ◌/◌, ◌≤◌, ◌<◌, ◌≡◌, refl, Bool, true, ◌&&◌, ◌||◌, if◌then◌else◌,
  ◌==◌, arith, bit_and,
}
use native.Mathlib.Nat.{
  le-div_iff_mul-le, div-lt_iff_lt-mul, div-mul-le_self, mul-le-mul_left, mul_comm, le_trans,
}
use msm8909pkg.Base.Int.{ℤ, pos, negsuc, pos_part, ltb_ℤ}
use msm8909pkg.I2c.Transfer.{target_clk, fs_div, clk_ctl}

-- The rate of the bus as the driver's message computes it, from the word in the clock register.
abbrev pub bus_rate : ℕ → ℕ
bus_rate ctl = 19200000 / (2 * (bit_and ctl 0xff + 3))

-- The clock that the driver should aim at.
abbrev pub aimed : ℤ → ℕ
aimed c = if ltb_ℤ c (pos 100000) || ltb_ℤ (pos 400000) c then 100000 else pos_part c

target-aimed : (c : ℤ) → target_clk c ≡ aimed c
target-aimed (pos hz) = ground arith
target-aimed (negsuc n) = ground arith

-- The low byte of the word is the divider, for the dividers below `n`.
low_bytes : ℕ → Bool
low_bytes zero = true
low_bytes (suc d) = low_bytes d && bit_and (clk_ctl d) 0xff == d

low_bytes_lem : (n d : ℕ) → d < n → low_bytes n ≡ true → bit_and (clk_ctl d) 0xff ≡ d
unfolding low_bytes
low_bytes_lem zero d lt h = absurd (omega arith)
low_bytes_lem (suc n) d lt h = ground (arith, low_bytes_lem n d)

low_byte : (d : ℕ) → d < 256 → bit_and (clk_ctl d) 0xff ≡ d
unfolding low_bytes
low_byte d lt = low_bytes_lem 256 d lt refl

target_range : (c : ℤ) → (100000 ≤ target_clk c) × (target_clk c ≤ 400000)
target_range (pos hz) = ground arith
target_range (negsuc n) = omega arith

-- The divider, from the quotient of the clocks.
div_bounds :
    (hz q : ℕ)
    → 48 ≤ q
    → q < 193
    → q * hz ≤ 19200000
    → (q / 2 - 3 < 256) × (hz * (2 * (q / 2 - 3 + 3)) ≤ 19200000) × (48 ≤ 2 * (q / 2 - 3 + 3))
div_bounds hz q low high h =
    let le : 2 * (q / 2 - 3 + 3) ≤ q = omega arith in
    (omega arith, le_trans (mul-le-mul_left hz le) (omega (arith, mul_comm hz q)), omega arith)

rate_bounds :
    (hz : ℕ)
    → 100000 ≤ hz
    → hz ≤ 400000
    → (fs_div hz < 256)
      × (hz ≤ 19200000 / (2 * (fs_div hz + 3)))
      × (19200000 / (2 * (fs_div hz + 3)) ≤ 400000)
rate_bounds hz low high =
    let some_hz : 0 < hz = omega arith in
    let q = 19200000 / hz in
    let q_low : 48 ≤ q = (le-div_iff_mul-le some_hz).1 (omega arith) in
    let q_high : q < 193 = (div-lt_iff_lt-mul some_hz).1 (omega arith) in
    let (byte, le, ge) = div_bounds hz q q_low q_high (div-mul-le_self 19200000 hz) in
    (
      byte,
      (le-div_iff_mul-le (omega arith)).1 le,
      (let below : 19200000 / (2 * (fs_div hz + 3)) < 400001 =
            (div-lt_iff_lt-mul (omega arith)).1 (omega arith) in
          omega arith),
    )

-- Whatever clock is configured, the word that `msm_i2c_probe` writes makes a bus rate of at least the
-- clock that it aims at and at most 400 kHz; and it aims at the configured clock where that lies
-- between 100 kHz and 400 kHz, and at 100 kHz otherwise.
pub bus_rate_bounds :
    (c : ℤ)
    → (target_clk c ≤ bus_rate (clk_ctl (fs_div (target_clk c))))
      × (bus_rate (clk_ctl (fs_div (target_clk c))) ≤ 400000)
      × (target_clk c ≡ aimed c)
bus_rate_bounds c =
    let (low, high) = target_range c in
    let (byte, le, ge) = rate_bounds (target_clk c) low high in
    let same = low_byte (fs_div (target_clk c)) byte in (rw same le, rw same ge, target-aimed c)
