-- ===== src/Gpio.antt =====
-- The GPIO driver of QSD8250Pkg/Drivers/GpioDxe/GpioDxe.c: eight banks of pins.
pub mod Banks
pub mod Pins
mod Tests
use msm8909pkg.Base.{
  ℕ, zero, suc, ◌+◌, ◌-◌, ◌^◌, Bool, true, false, ◌&&◌, Option, none, some, List, [], ◌∷◌,
  if◌then◌else◌, ◌==◌, ltb, leb, bit_and, bit_or, bit_xor,
}
use msm8909pkg.Base.Bits.{bit_not}
use msm8909pkg.Mmio.{Mmio}

-- `gpioregs`: the register addresses of a bank, and its first and last pin.
pub record GpioRegs : Type 0 where
  pub out : ℕ
  pub input : ℕ
  pub int_status : ℕ
  pub int_clear : ℕ
  pub int_en : ℕ
  pub int_edge : ℕ
  pub int_pos : ℕ
  pub oe : ℕ
  pub owner : ℕ
  pub start : ℕ
  pub end : ℕ

-- `GPIO1_REG`, `GPIO2_REG`, `GPIO1_REG_R` and `GPIO2_REG_R` of
-- QSD8250Pkg/Include/Chipset/gpio.h, with the bases of iomap.h.
abbrev pub gpio1_reg : ℕ → ℕ
gpio1_reg off = 0xA9000000 + 0x800 + off

abbrev pub gpio2_reg : ℕ → ℕ
gpio2_reg off = 0xA9100000 + 0xC00 + off

abbrev pub gpio1_reg_r : ℕ → ℕ
gpio1_reg_r off = 0xA8E00000 + off

abbrev pub gpio2_reg_r : ℕ → ℕ
gpio2_reg_r off = 0xA8F00000 + 0x400 + off

-- A bank on the first controller: the offsets of its registers in the order of the record.
abbrev bank1 : ℕ → ℕ → ℕ → ℕ → ℕ → ℕ → ℕ → ℕ → ℕ → ℕ → ℕ → GpioRegs
bank1 o i s c e g p oe own first last = record {
  out = gpio1_reg o;
  input = gpio1_reg i;
  int_status = gpio1_reg s;
  int_clear = gpio1_reg c;
  int_en = gpio1_reg e;
  int_edge = gpio1_reg g;
  int_pos = gpio1_reg p;
  oe = gpio1_reg oe;
  owner = gpio1_reg_r own;
  start = first;
  end = last;
}

-- `GPIO_REGS`. Bank 1 is on the second controller.
abbrev pub bank_0 : GpioRegs
bank_0 = bank1 0x00 0x50 0xF0 0xD0 0xB0 0x70 0x90 0x20 0x100 0 15

abbrev pub bank_1 : GpioRegs
bank_1 = record {
  out = gpio2_reg 0x00;
  input = gpio2_reg 0x20;
  int_status = gpio2_reg 0x70;
  int_clear = gpio2_reg 0x68;
  int_en = gpio2_reg 0x60;
  int_edge = gpio2_reg 0x50;
  int_pos = gpio2_reg 0x58;
  oe = gpio2_reg 0x08;
  owner = gpio2_reg_r 0x104;
  start = 16;
  end = 42;
}

abbrev pub bank_2 : GpioRegs
bank_2 = bank1 0x04 0x54 0xF4 0xD4 0xB4 0x74 0x94 0x24 0x108 43 67

abbrev pub bank_3 : GpioRegs
bank_3 = bank1 0x08 0x58 0xF8 0xD8 0xB8 0x78 0x98 0x28 0x10c 68 94

abbrev pub bank_4 : GpioRegs
bank_4 = bank1 0x0C 0x5C 0xFC 0xDC 0xBC 0x7C 0x9C 0x2C 0x110 95 103

abbrev pub bank_5 : GpioRegs
bank_5 = bank1 0x10 0x60 0x100 0xE0 0xC0 0x80 0xA0 0x30 0x114 104 121

abbrev pub bank_6 : GpioRegs
bank_6 = bank1 0x14 0x64 0x103 0xE4 0xC4 0x84 0xA4 0x34 0x118 122 152

abbrev pub bank_7 : GpioRegs
bank_7 = bank1 0x18 0x68 0x108 0xE8 0xC8 0x88 0xA8 0x38 0x11c 153 164

abbrev pub gpio_regs : List GpioRegs
gpio_regs = bank_0 ∷ bank_1 ∷ bank_2 ∷ bank_3 ∷ bank_4 ∷ bank_5 ∷ bank_6 ∷ bank_7 ∷ []

-- The loop of `find_gpio`: the last bank looked at, and the bit. No bank fits: the bit stays 0.
pub scan_banks : GpioRegs → List GpioRegs → ℕ → GpioRegs × ℕ
scan_banks r [] n = (r, 0)
scan_banks r (b ∷ bs) n =
    if leb b.start n && leb n b.end then (b, 2 ^ (n - b.start)) else scan_banks b bs n

-- `find_gpio`: the bank of a pin and its bit, or none above the last pin.
pub find_gpio : ℕ → Option (GpioRegs × ℕ)
unfolding scan_banks
find_gpio n = if ltb bank_7.end n then none else some (scan_banks bank_0 gpio_regs n)

-- `GPIO_INPUT` and `GPIO_OUTPUT` of QSD8250Pkg/Include/Library/gpio.h.
abbrev pub gpio_input : ℕ
gpio_input = 0x0000

abbrev pub gpio_output : ℕ
gpio_output = 0x0001

module _ {S : Type 0} (m : Mmio S) where
  -- `v = readl(a); writel(on ? v | b : v & ~b, a)`
  pub modify_bit : ℕ → ℕ → Bool → S → S
  modify_bit a b on s =
      let (v, s') = m.read32 a s in
      m.write32 a (if on then bit_or v b else bit_and v (bit_not 32 b)) s'

  config_found : Option (GpioRegs × ℕ) → ℕ → S → ℕ × S
  config_found none flags s = (2 ^ 32 - 1, s)
  config_found (some (r, b)) flags s =
      (0, modify_bit r.oe b (if bit_and flags gpio_output == 0 then false else true) s)

  -- `gpio_config`: a pin that does not exist gives -1.
  pub gpio_config : ℕ → ℕ → S → ℕ × S
  unfolding config_found
  gpio_config n flags s = config_found (find_gpio n) flags s

  set_found : Option (GpioRegs × ℕ) → ℕ → ℕ → S → S
  set_found none n on s = s
  set_found (some (r, b)) n on s =
      modify_bit r.out b (if on == 0 then false else true) (gpio_config n gpio_output s).1

  pub gpio_set : ℕ → ℕ → S → S
  unfolding set_found
  gpio_set n on s = set_found (find_gpio n) n on s

  get_found : Option (GpioRegs × ℕ) → ℕ → S → ℕ × S
  get_found none n s = (0, s)
  get_found (some (r, b)) n s =
      let (v, s') = m.read32 r.input (gpio_config n gpio_input s).1 in
      ((if bit_and v b == 0 then 0 else 1), s')

  pub gpio_get : ℕ → S → ℕ × S
  unfolding get_found
  gpio_get n s = get_found (find_gpio n) n s

  -- The loop of `msm_gpio_update_both_edge_detect`, by the rounds that are left: whether it found a
  -- stable state.
  edge_rounds : ℕ → GpioRegs → S → Bool × S
  edge_rounds zero r s = (false, s)
  edge_rounds (suc left) r s =
      let (val, s1) = m.read32 r.input s in
      let (pol, s2) = m.read32 r.int_pos s1 in
      let s3 = m.write32 r.int_pos (bit_or pol (bit_not 32 val)) s2 in
      let (intstat, s4) = m.read32 r.int_status s3 in
      let (val2, s5) = m.read32 r.input s4 in
      let again = edge_rounds left r s5 in
      if bit_and (bit_xor val val2) (bit_not 32 intstat) == 0 then (true, s5) else again

  -- `loop_limit` goes from 100 to below 0, so the body runs 101 times at most.
  pub update_both_edge_detect : ℕ → S → S
  unfolding edge_rounds
  update_both_edge_detect n s = elim (find_gpio n) [
    | none ↦ s
    | some (r, b) ↦ (edge_rounds 101 r s).1
  ]

  -- `msm_gpio_irq_clear`: a pin that does not exist gives -1.
  pub irq_clear : ℕ → S → ℕ × S
  irq_clear n s = elim (find_gpio n) [
    | none ↦ (2 ^ 32 - 1, s)
    | some (r, b) ↦ (0, m.write32 r.int_clear b s)
  ]

  pub irq_ack : ℕ → S → S
  unfolding irq_clear update_both_edge_detect
  irq_ack n s = update_both_edge_detect n (irq_clear n s).1

  -- The inner loop of `MsmGpioIsr` over the bits from `j` on.
  ack_bits : ℕ → ℕ → GpioRegs → ℕ → S → S
  ack_bits zero j r pending s = s
  ack_bits (suc left) j r pending s =
      ack_bits left (j + 1) r pending
        (if bit_and pending (2 ^ j) == 0 then s else irq_ack (r.start + j) s)

  -- The outer loop over the banks.
  isr_banks : List GpioRegs → S → S
  unfolding ack_bits
  isr_banks [] s = s
  isr_banks (r ∷ rs) s =
      let (st, s1) = m.read32 r.int_status s in
      let (e, s2) = m.read32 r.int_en s1 in isr_banks rs (ack_bits 32 0 r (bit_and e st) s2)

  pub msm_gpio_isr : S → S
  unfolding isr_banks
  msm_gpio_isr s = isr_banks gpio_regs s

  -- The registers as `GpioDxeInitialize` leaves them: all interrupts cleared and disabled.
  pub clear_banks : List GpioRegs → S → S
  clear_banks [] s = s
  clear_banks (r ∷ rs) s =
      clear_banks rs (m.write32 r.int_en 0 (m.write32 r.int_clear (2 ^ 32 - 1) s))
