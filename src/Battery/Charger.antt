-- ===== src/Battery/Charger.antt =====
-- The charging application, QSD8250Pkg/Application/ChargingApp/charger.c: its state and the callback of
-- its timer. The machine is a parameter: memory-mapped registers, the gpio driver, the
-- microprocessor's LED, a delay, and the bus of the battery's gauge.
pub mod Decides
use msm8909pkg.Base.{
  ℕ, zero, suc, ◌+◌, ◌*◌, ◌^◌, Bool, true, false, if◌then◌else◌, ◌==◌, ltb, bit_and, bit_or, List,
  get_or, [], ◌∷◌,
}
use msm8909pkg.Gpio.{gpio_output}
use msm8909pkg.Battery.{ReadByte, ds2746_voltage}

pub record Machine (S : Type 0) : Type 0 where
  pub read32 : ℕ → S → ℕ × S
  pub write32 : ℕ → ℕ → S → S
  pub set_gpio : ℕ → ℕ → S → S
  pub config_gpio : ℕ → ℕ → S → S
  pub led_set_mode : ℕ → S → S
  pub micro_second_delay : ℕ → S → S
  pub read_byte : ReadByte S

-- `PSY_CHARGER_STATE`
pub data ChargerState : Type 0 where
  chg_off chg_ac chg_usb_low chg_usb_high chg_off_full_bat : ChargerState

abbrev pub code : ChargerState → ℕ
code chg_off = 0
code chg_ac = 1
code chg_usb_low = 2
code chg_usb_high = 3
code chg_off_full_bat = 4

-- `gState` and the machine.
pub record Charger (S : Type 0) : Type 0 where
  pub state : ChargerState
  pub world : S

-- The registers and pins.
abbrev pub usb_status : ℕ
usb_status = 0x00100000 + 0xef20c

abbrev pub usb_usbcmd : ℕ
usb_usbcmd = 0xA0800000 + 0x140

abbrev pub usb_ulpi_viewport : ℕ
usb_ulpi_viewport = 0xA0800000 + 0x170

-- `ULPI_RUN`, and the command `ULPI_RUN | ULPI_WRITE | ULPI_ADDR(reg) | ULPI_DATA(val)`.
abbrev pub ulpi_run : ℕ
ulpi_run = 2 ^ 30

abbrev pub ulpi_command : ℕ → ℕ → ℕ
ulpi_command val reg =
    bit_or (bit_or (bit_or ulpi_run (2 ^ 29)) (bit_and reg 255 * 2 ^ 16)) (bit_and val 255)

abbrev pub usb_portsc : ℕ
usb_portsc = 0xA0800000 + 0x184

abbrev pub portsc_ls : ℕ
portsc_ls = 3 * 2 ^ 10

abbrev pub charger_enable : ℕ
charger_enable = 22

abbrev pub charger_current : ℕ
charger_current = 16

abbrev pub led_mode_off : ℕ
led_mode_off = 0

abbrev pub led_mode_green : ℕ
led_mode_green = 1

abbrev pub led_mode_amber : ℕ
led_mode_amber = 2

abbrev pub gauge_addr : ℕ
gauge_addr = 0x26

-- `default_chg_voltage_threshold`, `VOLTAGE_4100`
abbrev pub default_chg_voltage_threshold : List ℕ
default_chg_voltage_threshold = 3700 ∷ 3800 ∷ 3900 ∷ 4000 ∷ 4100 ∷ 4200 ∷ []

abbrev pub voltage_4100 : ℕ
voltage_4100 = 4

module _ {S : Type 0} (m : Machine S) where
  -- The wait of `UlpiWrite`, which ends when the bit is clear or the tries are used up.
  unfoldable pub ulpi_wait : ℕ → S → S
  ulpi_wait zero s = s
  ulpi_wait (suc n) s =
      let (v, s') = m.read32 usb_ulpi_viewport s in
      let more = ulpi_wait n s' in if bit_and v ulpi_run == 0 then s' else more

  -- `UlpiWrite`
  unfoldable pub ulpi_write : ℕ → ℕ → S → S
  ulpi_write val reg s = ulpi_wait 10000 (m.write32 usb_ulpi_viewport (ulpi_command val reg) s)

  -- A pin is set and made an output.
  abbrev drive : ℕ → ℕ → S → S
  drive pin v s = m.config_gpio pin gpio_output (m.set_gpio pin v s)

  -- The `switch` of `SetCharger`.
  unfoldable pub switch_charger : ChargerState → S → S
  switch_charger chg_usb_low s = drive charger_current 0 (drive charger_enable 0 s)
  switch_charger chg_ac s = drive charger_enable 0 (drive charger_current 1 s)
  switch_charger chg_usb_high s = drive charger_enable 0 (drive charger_current 1 s)
  switch_charger chg_off_full_bat s = drive charger_current 1 (drive charger_enable 1 s)
  switch_charger chg_off s = drive charger_current 1 (drive charger_enable 1 s)

  -- `SetCharger`
  unfoldable pub set_charger : ChargerState → Charger S → Charger S
  set_charger state c = record { state = state; world = switch_charger state c.world }

  -- What comes before a change of state: the USB controller is told.
  unfoldable pub prepare : ChargerState → S → S
  prepare chg_ac s = ulpi_write 0x48 0x04 (m.write32 usb_usbcmd 0x00080000 s)
  prepare _ s = m.micro_second_delay 10 (m.write32 usb_usbcmd 0x00080001 s)

  -- A change of state, unless the state is the one before, and then the LED.
  unfoldable pub change_state : ChargerState → ℕ → Charger S → Charger S
  change_state state led c =
      let changed = set_charger state (record c { world = prepare state c.world }) in
      let c' = if code c.state == code state then c else changed in
      record c' { world = m.led_set_mode led c'.world }

  -- The battery needs charging: from the mains or from a computer (`IsAcOnline`).
  unfoldable pub charge : Charger S → Charger S
  charge c =
      let (p, s) = m.read32 usb_portsc c.world in
      let c' = record c { world = s } in
      if bit_and p portsc_ls == portsc_ls
      then change_state chg_ac led_mode_amber c'
      else change_state chg_usb_low led_mode_amber c'

  -- `WantsCharging`, with `CheckUsbStatus`.
  unfoldable pub wants_charging : Charger S → Charger S
  wants_charging c =
      let (usb, s) = m.read32 usb_status c.world in
      let (voltage, s') = ds2746_voltage m.read_byte gauge_addr s in
      if usb == 0
      then change_state chg_off led_mode_off (record c { world = s })
      else if ltb voltage (get_or default_chg_voltage_threshold voltage_4100 0)
      then charge (record c { world = s' })
      else change_state chg_off_full_bat led_mode_green (record c { world = s' })

  -- `ExitBootServicesEvent`
  unfoldable pub exit_boot_services_event : Charger S → Charger S
  exit_boot_services_event c = change_state chg_off led_mode_off c
