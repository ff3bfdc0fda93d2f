-- ===== src/Battery/Tests.antt =====
-- Readings of a gauge, a phone that charges, and the theorems at inputs that meet their hypotheses.
use msm8909pkg.Base.{
  ℕ, ◌%◌, ◌^◌, ◌<◌, ◌∙◌, ◌≡◌, sym, ap, refl, false, arith, if◌then◌else◌, ◌==◌, ==_ne,
}
use mathlib.Core.Bool.{false≢true}
use msm8909pkg.Mmio.{Mmio, Holds}
use msm8909pkg.Gpio.{gpio_set, gpio_config, gpio_regs}
use msm8909pkg.Gpio.Banks.{IsControl, is_control_in}
use msm8909pkg.Gpio.Pins.{driven}
use msm8909pkg.Base.Int.{negsuc}
use msm8909pkg.Battery.{current_of, temperature_of, join, voltage_msb}
use msm8909pkg.Battery.Readings.{high_byte_lost}
use msm8909pkg.Battery.Charger.{Machine, Charger, chg_off, usb_status, usb_portsc, switch_charger}

-- A phone on the mains at 4.14 V: the words of its memory, and the LED. Its pins are those of the GPIO
-- driver.
record Phone : Type 0 where
  word : ℕ → ℕ
  led : ℕ

abbrev given : ℕ → ℕ → ℕ
given a v = if a == usb_status then 1 else if a == usb_portsc then 0xC00 else v

abbrev memory : Mmio Phone
memory = record {
  read32 = λ a s. (given a (s.word a % 2 ^ 32), s);
  write32 = λ a v s. record s { word = λ b. if a == b then v else s.word b };
}

control_ne : (a b : ℕ) → IsControl a → is_control_in gpio_regs b ≡ false → (a == b) ≡ false
control_ne a b k k' = ==_ne a b λ e. false≢true (sym k' ∙ ap (is_control_in gpio_regs) (sym e) ∙ k)

control_word : (a v : ℕ) → IsControl a → given a v ≡ v
control_word a v k = rw (control_ne a usb_status k refl, control_ne a usb_portsc k refl) refl

written_word :
    (a b v : ℕ) (s : Phone)
    → v < 2 ^ 32
    → (if a == b then v else s.word b) % 2 ^ 32 ≡ (if a == b then v else s.word b % 2 ^ 32)
written_word a b v s h = ground arith

abbrev memory-Holds : Holds memory IsControl
memory-Holds = record {
  reg = λ a s. s.word a % 2 ^ 32;
  reg_word = λ a s. omega arith;
  read_reg = λ a s k. control_word a (s.word a % 2 ^ 32) k;
  read_keeps = λ a b s k. refl;
  write_reg = λ a b v s k h. written_word a b v s h;
}

abbrev phone : Machine Phone
phone = record {
  read32 = λ a s. memory.read32 a s;
  write32 = λ a v s. memory.write32 a v s;
  set_gpio = λ p v s. gpio_set memory p v s;
  config_gpio = λ p d s. (gpio_config memory p d s).1;
  led_set_mode = λ mode s. record s { led = mode };
  micro_second_delay = λ t s. s;
  read_byte = λ addr reg s. (if reg == voltage_msb then 0x6A else 0x30, s);
}

abbrev pin : ℕ → Phone → ℕ
pin q s = driven memory memory-Holds q s

abbrev led_of : Phone → ℕ
led_of s = s.led

abbrev off : Phone
off = switch_charger phone chg_off (record { word = λ a. 0; led = 0 })

abbrev charger : Charger Phone
charger = record { state = chg_off; world = off }

-- 25.5 degrees are read as half a degree below zero.
warm : temperature_of 0x19 0x80 ≡ negsuc 499
unfolding temperature_of join
warm = refl

high_byte_lost_example :
    (current_of 0x19 0x80 15 ≡ current_of 0 0x80 15)
    × (temperature_of 0x19 0x80 ≡ temperature_of 0 0x80)
high_byte_lost_example =
    high_byte_lost 0x19 0 0x80 15 (omega arith) (omega arith) (omega arith) (omega arith)
