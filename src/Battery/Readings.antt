-- ===== src/Battery/Readings.antt =====
-- What the readings of the battery's gauge are worth.
use msm8909pkg.Base.{
  ℕ, zero, suc, ◌+◌, ◌*◌, ◌/◌, ◌%◌, ◌^◌, ◌≤◌, ◌<◌, ◌≡◌, refl, ap, sym, ◌∙◌, arith,
}
use msm8909pkg.Base.Bits.{bit_or-bytes, bit_or-high, bit_or-ones, doubled}
use msm8909pkg.Battery.{
  ReadByte, voltage_of, sign_extend, join, current_of, temperature_of, read_two, voltage_msb,
  voltage_lsb, ds2746_voltage,
}

voltage_of_lem :
    (s0 s1 : ℕ) → s0 < 256 → s1 < 256 → voltage_of s0 s1 ≡ (s0 * 256 + s1) / 16 * 2440 / 1000
unfolding voltage_of
voltage_of_lem s0 s1 h0 h1 = rw (bit_or-bytes s0 s1 h1) (omega arith)

-- A low byte with its top bit set sets all the bits of the high byte.
join-negative : (s0 s1 : ℕ) → s0 < 256 → 128 ≤ s1 → s1 < 256 → join s0 s1 ≡ 0xFF00 + s1
unfolding join
join-negative s0 s1 h0 low h1 =
    let high : s0 * 256 % 2 ^ 16 ≡ doubled 8 s0 = omega arith in
    let ones : sign_extend s1 ≡ doubled 8 255 + s1 = ground arith in
    rw (high, ones) (bit_or-high 8 s0 255 s1 h1 ∙ rw (bit_or-ones 8 s0 h0) refl)

-- The voltage is what the two bytes say: their twelve high bits in steps of 2.44 mV.
pub ds2746_voltage_lem :
    {S : Type 0} (read : ReadByte S) (addr s0 s1 : ℕ) (s s' : S)
    → read_two read addr voltage_msb voltage_lsb s ≡ (s0, s1, s')
    → s0 < 256
    → s1 < 256
    → ds2746_voltage read addr s ≡ ((s0 * 256 + s1) / 16 * 2440 / 1000, s')
unfolding ds2746_voltage
ds2746_voltage_lem read addr s0 s1 s s' bytes h0 h1 =
    ap (λ t. (voltage_of t.0 t.1, t.2)) bytes ∙ ap (λ v. (v, s')) (voltage_of_lem s0 s1 h0 h1)

-- Where the low byte has its top bit set, the current and the temperature do not depend on the high
-- byte: the sign of the low byte fills it.
pub high_byte_lost :
    (s0 t0 s1 resistance : ℕ)
    → s0 < 256
    → t0 < 256
    → 128 ≤ s1
    → s1 < 256
    → (current_of s0 s1 resistance ≡ current_of t0 s1 resistance)
      × (temperature_of s0 s1 ≡ temperature_of t0 s1)
unfolding current_of temperature_of
high_byte_lost s0 t0 s1 zero h0 k0 low h1 =
    let same : join s0 s1 ≡ join t0 s1 =
      join-negative s0 s1 h0 low h1 ∙ sym (join-negative t0 s1 k0 low h1) in
    (refl, rw same refl)
high_byte_lost s0 t0 s1 (suc r) h0 k0 low h1 =
    let same : join s0 s1 ≡ join t0 s1 =
      join-negative s0 s1 h0 low h1 ∙ sym (join-negative t0 s1 k0 low h1) in
    (rw same refl, rw same refl)
