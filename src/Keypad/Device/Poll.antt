-- ===== src/Keypad/Device/Poll.antt =====
-- The poll of the keypad device and its LED: the rest of
-- QSD8250Pkg/Library/KeypadDeviceImplLib/KeypadDeviceImplLib.c. A board is a parameter: it stands for
-- `gGpio`, `gMicroP` and the timer services of `gBS` over a state of the machine.
use msm8909pkg.Base.{
  ℕ, ◌*◌, ◌%◌, Bool, true, false, not, ◌&&◌, Option, none, some, List, [], ◌∷◌, ◌++◌, if◌then◌else◌,
  ◌==◌,
}
use msm8909pkg.Keypad.Data.{KeyData}
use msm8909pkg.Keypad.Bitmap.{Bitmaps}
use msm8909pkg.Keypad.Context.{update_key_status}
use msm8909pkg.Keypad.Device.Wiring.{
  KeyDeviceType, KeyContextPrivate, legacy, keymatrix, reset_keys,
}

-- `gGpio->Get` and `Set`, `gMicroP->KpLedSetBrightness`, and `CreateEvent` and `SetTimer` of the boot
-- services, for a timer that is cancelled and one that is armed. `led_method` is the build's
-- `KP_LED_ENABLE_METHOD`.
pub record Board (S : Type 0) : Type 0 where
  pub led_method : ℕ
  pub get : ℕ → S → ℕ × S
  pub set_gpio : ℕ → ℕ → S → S
  pub kp_led_set_brightness : ℕ → S → S
  pub create_event : S → ℕ × S
  pub cancel_timer : ℕ → S → S
  pub start_timer : ℕ → ℕ → S → S

-- What the keys share: the bitmaps of the helper library, `timerRunning`, `m_CallbackTimer`, and the
-- machine.
pub record Shared (S : Type 0) : Type 0 where
  pub bitmaps : Bitmaps
  pub timer_running : Bool
  pub callback_timer : Option ℕ
  pub world : S

-- `keys` are the contexts in the order of `KeyList`.
pub record Device (S : Type 0) : Type 0 where
  pub keys : List KeyContextPrivate
  pub shared : Shared S

-- `KeypadDeviceImplReset` on the device.
unfoldable pub reset : {S : Type 0} → Device S → Device S
reset d = record d { keys = reset_keys d.keys }

-- `HTCLEO_GPIO_KP_LED`
abbrev pub gpio_kp_led : ℕ
gpio_kp_led = 48

-- `(GpioStatus ? 1 : 0) ^ ActiveLow` on an 8-bit status.
abbrev pub is_pressed : ℕ → Bool → Bool
is_pressed status true = status % 256 == 0
is_pressed status false = not (status % 256 == 0)

module _ {S : Type 0} (b : Board S) where
  -- The LED, as `EnableKeypadLedWithTimer` and `DisableKeyPadLed` switch it.
  unfoldable pub led_on : S → S
  led_on s = if b.led_method == 2 then b.kp_led_set_brightness 255 s else b.set_gpio gpio_kp_led 1 s

  unfoldable pub led_off : S → S
  led_off s = if b.led_method == 2 then b.kp_led_set_brightness 0 s else b.set_gpio gpio_kp_led 0 s

  -- `ExitBootServicesEvent`
  unfoldable pub exit_boot_services_event : S → S
  exit_boot_services_event s = led_off s

  -- `DisableKeyPadLed`, the callback of the timer.
  unfoldable pub disable_key_pad_led : Shared S → Shared S
  disable_key_pad_led g = record g { world = led_off g.world; timer_running = false }

  -- The running timer is cancelled.
  abbrev pub cancel_running : Option ℕ → S → S
  cancel_running none s = s
  cancel_running (some e) s = b.cancel_timer e s

  -- `EnableKeypadLedWithTimer`; the period of 5000 ms is in units of 100 ns.
  unfoldable pub enable_keypad_led_with_timer : Shared S → Shared S
  enable_keypad_led_with_timer g =
      let s = if g.timer_running then cancel_running g.callback_timer g.world else g.world in
      let (e, s') = b.create_event (led_on s) in
      record g {
        world = b.start_timer e (5000 * 10000) s';
        callback_timer = some e;
        timer_running = true;
      }

  -- The status of a key; a key of another type is passed over.
  unfoldable pub read_status : KeyDeviceType → KeyContextPrivate → S → Option (ℕ × S)
  read_status legacy k s = some (b.get k.gpio s)
  read_status keymatrix k s =
      let (status, s') = b.get k.gpio_in (b.set_gpio k.gpio_out 0 s) in
      some (status, b.set_gpio k.gpio_out 1 s')
  read_status _ k s = none

  -- The rest of a round of `KeypadDeviceImplGetKeys` once the status is read.
  unfoldable pub update_key :
      KeyContextPrivate
      → ℕ
      → Shared S
      → Option (ℕ × S)
      → KeyContextPrivate × Shared S × List KeyData
  update_key k delta g none = (k, g, [])
  update_key k delta g (some (status, s)) =
      let down = is_pressed status k.active_low in
      let g' = record g { world = s } in
      let g'' = if down && k.enable_key_pad_led then enable_keypad_led_with_timer g' else g' in
      let (maps, c, out) = update_key_status g''.bitmaps k.efi_key_context down delta in
      (record k { efi_key_context = c }, record g'' { bitmaps = maps }, out)

  unfoldable pub poll_key :
      KeyContextPrivate → ℕ → Shared S → KeyContextPrivate × Shared S × List KeyData
  poll_key k delta g =
      if not k.is_valid
      then (k, g, [])
      else update_key k delta g (read_status k.device_type k g.world)

  -- The loop over `KeyList`.
  unfoldable pub poll_keys :
      List KeyContextPrivate → ℕ → Shared S → List KeyContextPrivate × Shared S × List KeyData
  poll_keys [] delta g = ([], g, [])
  poll_keys (k ∷ ks) delta g =
      let (k', g', out) = poll_key k delta g in
      let (ks', g'', out') = poll_keys ks delta g' in (k' ∷ ks', g'', out ++ out')

  -- `KeypadDeviceImplGetKeys`
  unfoldable pub get_keys : Device S → ℕ → Device S × List KeyData
  get_keys d delta =
      let (ks, g, out) = poll_keys d.keys delta d.shared in (record { keys = ks; shared = g }, out)
