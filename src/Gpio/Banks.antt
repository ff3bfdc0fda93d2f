-- ===== src/Gpio/Banks.antt =====
-- The banks share out the pins 0 to 164.
use msm8909pkg.Base.{
  ℕ, ◌-◌, ◌^◌, ◌≤◌, ◌<◌, ◌≡◌, ◌≢◌, refl, ap, sym, ◌∙◌, Bool, true, false, ◌||◌, Option, none, some,
  List, [], ◌∷◌, arith, ◌==◌, if◌then◌else◌,
}
use native.Mathlib.Decide.{dec_le}
use msm8909pkg.Gpio.{
  GpioRegs, bank_0, bank_1, bank_2, bank_3, bank_4, bank_5, bank_6, bank_7, gpio_regs, find_gpio,
}

-- The first pin of the bank whose output (or output enable) register has the address: banks are
-- told apart by either address.
abbrev first_of_out : ℕ → ℕ
first_of_out a =
    if a == bank_0.out
    then 0
    else if a == bank_1.out
    then 16
    else if a == bank_2.out
    then 43
    else if a == bank_3.out
    then 68
    else if a == bank_4.out
    then 95
    else if a == bank_5.out
    then 104
    else if a == bank_6.out
    then 122
    else 153

abbrev first_of_oe : ℕ → ℕ
first_of_oe a =
    if a == bank_0.oe
    then 0
    else if a == bank_1.oe
    then 16
    else if a == bank_2.oe
    then 43
    else if a == bank_3.oe
    then 68
    else if a == bank_4.oe
    then 95
    else if a == bank_5.oe
    then 104
    else if a == bank_6.oe
    then 122
    else 153

-- Whether an address is that of an output or of an output enable register.
abbrev pub is_control_in : List GpioRegs → ℕ → Bool
is_control_in [] a = false
is_control_in (r ∷ rs) a = a == r.out || (a == r.oe || is_control_in rs a)

abbrev is_out_in : List GpioRegs → ℕ → Bool
is_out_in [] a = false
is_out_in (r ∷ rs) a = a == r.out || is_out_in rs a

abbrev pub IsControl : ℕ → Type 0
IsControl a = is_control_in gpio_regs a ≡ true

-- A pin's place: its bank and the position of its bit.
pub record Place (n : ℕ) : Type 0 where
  pub bank : GpioRegs
  pub found : find_gpio n ≡ some (bank, 2 ^ (n - bank.start))
  pub from : bank.start ≤ n
  pub bit_in : n - bank.start < 32
  pub out_control : IsControl bank.out
  pub oe_control : IsControl bank.oe
  pub out_is_out : is_out_in gpio_regs bank.out ≡ true
  pub oe_no_out : is_out_in gpio_regs bank.oe ≡ false
  pub by_out : first_of_out bank.out ≡ bank.start
  pub by_oe : first_of_oe bank.oe ≡ bank.start

pin_location :
    (n : ℕ) (b : GpioRegs)
    → find_gpio n ≡ some (b, 2 ^ (n - b.start))
    → b.start ≤ n
    → n - b.start < 32
    → IsControl b.out
      × IsControl b.oe
      × (is_out_in gpio_regs b.out ≡ true)
      × (is_out_in gpio_regs b.oe ≡ false)
      × (first_of_out b.out ≡ b.start)
      × (first_of_oe b.oe ≡ b.start)
    → Place n
pin_location n b found from bit_in (a, c, d, d', e, f) = record {
  bank = b;
  found = found;
  from = from;
  bit_in = bit_in;
  out_control = a;
  oe_control = c;
  out_is_out = d;
  oe_no_out = d';
  by_out = e;
  by_oe = f;
}

module _ (n : ℕ) where
  find_0 : n ≤ 15 → find_gpio n ≡ some (bank_0, 2 ^ (n - 0))
  unfolding find_gpio
  find_0 h = ground arith

  find_1 : 16 ≤ n → n ≤ 42 → find_gpio n ≡ some (bank_1, 2 ^ (n - 16))
  unfolding find_gpio
  find_1 h k = ground arith

  find_2 : 43 ≤ n → n ≤ 67 → find_gpio n ≡ some (bank_2, 2 ^ (n - 43))
  unfolding find_gpio
  find_2 h k = ground arith

  find_3 : 68 ≤ n → n ≤ 94 → find_gpio n ≡ some (bank_3, 2 ^ (n - 68))
  unfolding find_gpio
  find_3 h k = ground arith

  find_4 : 95 ≤ n → n ≤ 103 → find_gpio n ≡ some (bank_4, 2 ^ (n - 95))
  unfolding find_gpio
  find_4 h k = ground arith

  find_5 : 104 ≤ n → n ≤ 121 → find_gpio n ≡ some (bank_5, 2 ^ (n - 104))
  unfolding find_gpio
  find_5 h k = ground arith

  find_6 : 122 ≤ n → n ≤ 152 → find_gpio n ≡ some (bank_6, 2 ^ (n - 122))
  unfolding find_gpio
  find_6 h k = ground arith

  find_7 : 153 ≤ n → n ≤ 164 → find_gpio n ≡ some (bank_7, 2 ^ (n - 153))
  unfolding find_gpio
  find_7 h k = ground arith

  -- Every pin up to 164 has a place.
  pub place : n ≤ 164 → Place n
  place h = elim (dec_le n 15) [
    | yes a ↦
        pin_location n bank_0 (find_0 a) (omega arith) (omega arith)
          (refl, refl, refl, refl, refl, refl)
    | no a ↦ elim (dec_le n 42) [
      | yes b ↦
          pin_location n bank_1 (find_1 (omega arith) b) (omega arith) (omega arith)
            (refl, refl, refl, refl, refl, refl)
      | no b ↦ elim (dec_le n 67) [
        | yes c ↦
            pin_location n bank_2 (find_2 (omega arith) c) (omega arith) (omega arith)
              (refl, refl, refl, refl, refl, refl)
        | no c ↦ elim (dec_le n 94) [
          | yes d ↦
              pin_location n bank_3 (find_3 (omega arith) d) (omega arith) (omega arith)
                (refl, refl, refl, refl, refl, refl)
          | no d ↦ elim (dec_le n 103) [
            | yes e ↦
                pin_location n bank_4 (find_4 (omega arith) e) (omega arith) (omega arith)
                  (refl, refl, refl, refl, refl, refl)
            | no e ↦ elim (dec_le n 121) [
              | yes f ↦
                  pin_location n bank_5 (find_5 (omega arith) f) (omega arith) (omega arith)
                    (refl, refl, refl, refl, refl, refl)
              | no f ↦ elim (dec_le n 152) [
                | yes g ↦
                    pin_location n bank_6 (find_6 (omega arith) g) (omega arith) (omega arith)
                      (refl, refl, refl, refl, refl, refl)
                | no g ↦
                    pin_location n bank_7 (find_7 (omega arith) h) (omega arith) (omega arith)
                      (refl, refl, refl, refl, refl, refl)
              ]
            ]
          ]
        ]
      ]
    ]
  ]

-- A pin above the last bank has none.
pub find_gpio_above : (n : ℕ) → 164 < n → find_gpio n ≡ none
unfolding find_gpio
find_gpio_above n h = ground arith

-- Two pins that share the output register and the bit are one pin.
pub pin_by_out :
    {n k : ℕ} (p : Place n) (q : Place k) → p.bank.out ≡ q.bank.out → p.bank.start ≡ q.bank.start
pin_by_out p q e = sym p.by_out ∙ ap first_of_out e ∙ q.by_out

pub pin_by_oe :
    {n k : ℕ} (p : Place n) (q : Place k) → p.bank.oe ≡ q.bank.oe → p.bank.start ≡ q.bank.start
pin_by_oe p q e = sym p.by_oe ∙ ap first_of_oe e ∙ q.by_oe

-- No output register is an output enable register.
pub out-ne-oe : {n k : ℕ} (p : Place n) (q : Place k) → p.bank.out ≢ q.bank.oe
out-ne-oe p q e = cc (ap (is_out_in gpio_regs) e, p.out_is_out, q.oe_no_out)

abbrev bank_of : Option (GpioRegs × ℕ) → GpioRegs
bank_of none = bank_0
bank_of (some (r, b)) = r

pub same_bank : {n k : ℕ} (p : Place n) (q : Place k) → n ≡ k → p.bank ≡ q.bank
same_bank p q e = ap bank_of (sym p.found ∙ ap find_gpio e ∙ q.found)
