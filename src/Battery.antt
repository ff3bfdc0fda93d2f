-- ===== src/Battery.antt =====
-- The gauge of the battery: QSD8250Pkg/Library/DS2746Lib/DS2746.c. The I2C bus is a parameter: a read
-- of a byte at a register, whose status the library does not look at. A signed 16-bit number is kept
-- as its pattern of bits until it is shifted.
pub mod Readings
pub mod Charger
mod Tests
use msm8909pkg.Base.{
  ℕ, suc, ◌+◌, ◌-◌, ◌*◌, ◌/◌, ◌%◌, ◌^◌, Option, none, some, if◌then◌else◌, leb, bit_or, zero,
}
use msm8909pkg.Base.Int.{ℤ, pos, negsuc, sub_ℕ}

-- `gI2C->Read` of one byte at a chip's register.
abbrev pub ReadByte : Type 0 → Type 0
ReadByte S = ℕ → ℕ → S → ℕ × S

-- `DS2746_VOLTAGE_MSB` and the registers after it, `DS2745_TEMPERATURE_MSB`, and the resolutions.
abbrev pub voltage_msb : ℕ
voltage_msb = 0x0c

abbrev pub voltage_lsb : ℕ
voltage_lsb = 0x0d

abbrev pub current_msb : ℕ
current_msb = 0x0e

abbrev pub current_lsb : ℕ
current_lsb = 0x0f

abbrev pub temperature_msb : ℕ
temperature_msb = 0x0a

abbrev pub temperature_lsb : ℕ
temperature_lsb = 0x0b

abbrev pub voltage_res : ℕ
voltage_res = 2440

abbrev pub current_accum_res : ℕ
current_accum_res = 645

abbrev pub temperature_res : ℕ
temperature_res = 125

-- What `ds2746_voltage` makes of its two bytes.
unfoldable pub voltage_of : ℕ → ℕ → ℕ
voltage_of s0 s1 = bit_or (s0 * 256) s1 / 16 * voltage_res % 2 ^ 32 / 1000

-- An `int8_t` as the low half of a 16-bit pattern: its sign fills the high half.
abbrev pub sign_extend : ℕ → ℕ
sign_extend s = if leb 128 s then 0xFF00 + s else s

-- `s0 << 8` with `|= s1` on an `int16_t`.
unfoldable pub join : ℕ → ℕ → ℕ
join s0 s1 = bit_or (s0 * 256 % 2 ^ 16) (sign_extend s1)

-- The number of a 16-bit pattern, and the pattern that a number is cut to.
abbrev pub int16 : ℕ → ℤ
int16 p = if leb 32768 p then negsuc (65535 - p) else pos p

abbrev pub cut : ℤ → ℕ
cut (pos n) = n % 65536
cut (negsuc n) = 65535 - n % 65536

-- The arithmetic shift to the right, the product with a number, and the division towards zero.
abbrev pub shift_right : ℤ → ℕ → ℤ
shift_right (pos n) k = pos (n / 2 ^ k)
shift_right (negsuc n) k = negsuc (n / 2 ^ k)

abbrev pub multiplied : ℤ → ℕ → ℤ
multiplied (pos n) c = pos (n * c)
multiplied (negsuc n) c = sub_ℕ 0 (suc n * c)

abbrev pub divided : ℤ → ℕ → ℤ
divided (pos n) r = pos (n / r)
divided (negsuc n) r = sub_ℕ 0 (suc n / r)

-- What `ds2746_current` makes of its two bytes; a division by zero is `none`.
unfoldable pub current_of : ℕ → ℕ → ℕ → Option ℤ
current_of s0 s1 zero = none
current_of s0 s1 (suc r) = some (
    int16
      (cut (divided (multiplied (shift_right (int16 (join s0 s1)) 2) current_accum_res) (suc r))))

-- What `ds2745_temperature` makes of its two bytes.
unfoldable pub temperature_of : ℕ → ℕ → ℤ
temperature_of s0 s1 = int16 (cut (multiplied (shift_right (int16 (join s0 s1)) 5) temperature_res))

module _ {S : Type 0} (read : ReadByte S) where
  -- The reads of the two bytes of a value.
  abbrev pub read_two : ℕ → ℕ → ℕ → S → ℕ × ℕ × S
  read_two addr msb lsb s =
      let (s0, s') = read addr msb s in let (s1, s'') = read addr lsb s' in (s0, s1, s'')

  unfoldable pub ds2746_voltage : ℕ → S → ℕ × S
  ds2746_voltage addr s =
      let (s0, s1, s') = read_two addr voltage_msb voltage_lsb s in (voltage_of s0 s1, s')

  unfoldable pub ds2746_current : ℕ → ℕ → S → Option ℤ × S
  ds2746_current addr resistance s =
      let (s0, s1, s') = read_two addr current_msb current_lsb s in
      (current_of s0 s1 resistance, s')

  unfoldable pub ds2745_temperature : ℕ → S → ℤ × S
  ds2745_temperature addr s =
      let (s0, s1, s') = read_two addr temperature_msb temperature_lsb s in
      (temperature_of s0 s1, s')
