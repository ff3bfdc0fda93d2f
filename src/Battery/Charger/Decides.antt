-- ===== src/Battery/Charger/Decides.antt =====
-- What the charging application decides, and that its pins agree with its state.
use msm8909pkg.Base.{ℕ, ◌≤◌, ◌≡◌, ◌∙◌, if◌then◌else◌, ◌==◌, ltb, bit_and, arith}
use msm8909pkg.Gpio.{gpio_output}
use msm8909pkg.Battery.Charger.{
  Machine, Charger, ChargerState, chg_off, chg_ac, chg_usb_low, chg_usb_high, chg_off_full_bat,
  drive, switch_charger, charger_enable, charger_current, portsc_ls, led_mode_off, led_mode_green,
  led_mode_amber,
}

-- The levels of the two pins in a state: the charger is enabled by a low pin, and the current is
-- limited by a low one.
abbrev pub enable_level : ChargerState → ℕ
enable_level chg_ac = 0
enable_level chg_usb_low = 0
enable_level chg_usb_high = 0
enable_level _ = 1

abbrev pub current_level : ChargerState → ℕ
current_level chg_usb_low = 0
current_level _ = 1

module _ {S : Type 0} (m : Machine S) (pin : ℕ → S → ℕ) (led : S → ℕ) where
  abbrev pub Same : S → S → Type 0
  Same s s' = (q : ℕ) → q ≤ 164 → pin q s' ≡ pin q s

  -- What the application relies on: a pin drives the level that it is set to, high for any value but 0,
  -- and no other pin changes; directions, reads and the LED change no level; the LED gets the mode
  -- that it is set to.
  pub record Laws : Type 0 where
    pub set_pin :
        (q p v : ℕ) (s : S)
        → q ≤ 164
        → p ≤ 164
        → pin q (m.set_gpio p v s) ≡ (if p == q then (if v == 0 then 0 else 1) else pin q s)
    pub config_keeps : (p d : ℕ) (s : S) → p ≤ 164 → Same s (m.config_gpio p d s)
    pub read_keeps : (a : ℕ) (s : S) → Same s (m.read32 a s).1
    pub byte_keeps : (a r : ℕ) (s : S) → Same s (m.read_byte a r s).1
    pub led_keeps : (mode : ℕ) (s : S) → Same s (m.led_set_mode mode s)
    pub led_set : (mode : ℕ) (s : S) → led (m.led_set_mode mode s) ≡ mode

  -- The pins are as the state wants them.
  abbrev pub Agrees : ChargerState → S → Type 0
  Agrees st s =
      (pin charger_enable s ≡ enable_level st) × (pin charger_current s ≡ current_level st)

  module _ (laws : Laws) where
    driven :
        (q p v : ℕ) (s : S)
        → q ≤ 164
        → p ≤ 164
        → pin q (drive m p v s) ≡ (if p == q then (if v == 0 then 0 else 1) else pin q s)
    driven q p v s h g =
        laws.config_keeps p gpio_output (m.set_gpio p v s) g q h ∙ laws.set_pin q p v s h g

    enable_in : charger_enable ≤ 164
    enable_in = omega arith

    current_in : charger_current ≤ 164
    current_in = omega arith

    -- Both pins are driven, the one that enables the charger first, or last.
    both :
        (v w : ℕ) (s : S)
        → let s' = drive m charger_current w (drive m charger_enable v s) in
          (pin charger_enable s' ≡ (if v == 0 then 0 else 1))
          × (pin charger_current s' ≡ (if w == 0 then 0 else 1))
    both v w s =
        let t = drive m charger_enable v s in
        (
          driven charger_enable charger_current w t enable_in current_in
              ∙ driven charger_enable charger_enable v s enable_in enable_in,
          driven charger_current charger_current w t current_in current_in,
        )

    both' :
        (v w : ℕ) (s : S)
        → let s' = drive m charger_enable v (drive m charger_current w s) in
          (pin charger_enable s' ≡ (if v == 0 then 0 else 1))
          × (pin charger_current s' ≡ (if w == 0 then 0 else 1))
    both' v w s =
        let t = drive m charger_current w s in
        (
          driven charger_enable charger_enable v t enable_in enable_in,
          driven charger_current charger_enable v t current_in enable_in
              ∙ driven charger_current charger_current w s current_in current_in,
        )

    pub switch_charger-Agrees : (st : ChargerState) (s : S) → Agrees st (switch_charger m st s)
    unfolding switch_charger
    switch_charger-Agrees chg_off s = both 1 1 s
    switch_charger-Agrees chg_ac s = both' 0 1 s
    switch_charger-Agrees chg_usb_low s = both 0 0 s
    switch_charger-Agrees chg_usb_high s = both' 0 1 s
    switch_charger-Agrees chg_off_full_bat s = both 1 1 s

    -- What a decision promises: the state, its pins, and the LED.
    abbrev pub Decided : ChargerState → ℕ → Charger S → Type 0
    Decided st mode c = (c.state ≡ st) × Agrees st c.world × (led c.world ≡ mode)

    -- What the application is to do, from the status of USB, the voltage and the port's lines.
    abbrev pub decision : ℕ → ℕ → ℕ → ChargerState × ℕ
    decision usb voltage lines =
        if usb == 0
        then (chg_off, led_mode_off)
        else if ltb voltage 4100
        then (if bit_and lines portsc_ls == portsc_ls
            then (chg_ac, led_mode_amber)
            else (chg_usb_low, led_mode_amber))
        else (chg_off_full_bat, led_mode_green)

    abbrev DecidedBy : ChargerState × ℕ → Charger S → Type 0
    DecidedBy (st, mode) c = Decided st mode c
