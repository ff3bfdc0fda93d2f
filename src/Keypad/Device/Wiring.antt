-- ===== src/Keypad/Device/Wiring.antt =====
-- The seven keys of the keypad device and their wiring: the constructor and the reset of
-- QSD8250Pkg/Library/KeypadDeviceImplLib/KeypadDeviceImplLib.c.
use msm8909pkg.Base.{
  ℕ, Bool, true, false, Option, none, some, List, [], ◌∷◌, map, set, get_elem?, replicate,
  if◌then◌else◌, ◌==◌,
}
use msm8909pkg.Keypad.Context.{
  KeyContext, initialize_key_context, scan_up, scan_down, char_carriage_return,
}

-- `KEY_DEVICE_TYPE`
pub data KeyDeviceType : Type 0 where
  unknown legacy keymatrix tlmm pm8x41 pm8x41_pon : KeyDeviceType

-- `KEY_CONTEXT_PRIVATE`
pub record KeyContextPrivate : Type 0 where
  pub efi_key_context : KeyContext
  pub is_valid : Bool
  pub device_type : KeyDeviceType
  pub gpio : ℕ
  pub active_low : Bool
  pub gpio_in : ℕ
  pub gpio_out : ℕ
  pub enable_key_pad_led : Bool

-- `DeviceType` of QSD8250Pkg/Include/Device/DeviceType.h.
pub data DeviceType : Type 0 where
  leo schubert bravo passion : DeviceType

-- `KeypadInitializeKeyContextPrivate`
unfoldable pub initialize_key_context_private : KeyContextPrivate → KeyContextPrivate
initialize_key_context_private k = record k {
  is_valid = false;
  gpio = 0;
  gpio_out = 0;
  gpio_in = 0;
  device_type = unknown;
  active_low = false;
  enable_key_pad_led = false;
}

-- `KeypadKeyCodeToKeyContext`: a place in `KeyList`.
unfoldable pub key_code_to_key_context : ℕ → Option ℕ
key_code_to_key_context code =
    if code == 114
    then some 2
    else if code == 115
    then some 1
    else if code == 116
    then some 0
    else if code == 117
    then some 3
    else if code == 118
    then some 4
    else if code == 119
    then some 5
    else if code == 120
    then some 6
    else none

-- The assignments to a key on a pin of its own, and to a key in the matrix.
abbrev set_legacy : ℕ → Bool → KeyContextPrivate → KeyContextPrivate
set_legacy pin led k = record k {
  device_type = legacy;
  gpio = pin;
  active_low = true;
  enable_key_pad_led = led;
  is_valid = true;
}

abbrev set_keymatrix : ℕ → ℕ → Bool → KeyContextPrivate → KeyContextPrivate
set_keymatrix pin_out pin_in led k = record k {
  device_type = keymatrix;
  gpio_out = pin_out;
  gpio_in = pin_in;
  active_low = true;
  enable_key_pad_led = led;
  is_valid = true;
}

-- A write through the pointer that `KeypadKeyCodeToKeyContext` gives.
abbrev change :
    (KeyContextPrivate → KeyContextPrivate)
    → List KeyContextPrivate
    → Option ℕ
    → Option KeyContextPrivate
    → List KeyContextPrivate
change f ks (some i) (some k) = set ks i (f k)
change f ks _ _ = ks

abbrev look : List KeyContextPrivate → Option ℕ → Option KeyContextPrivate
look ks (some i) = get_elem? ks i
look ks none = none

unfoldable pub write_key :
    ℕ → (KeyContextPrivate → KeyContextPrivate) → List KeyContextPrivate → List KeyContextPrivate
write_key code f ks =
    change f ks (key_code_to_key_context code) (look ks (key_code_to_key_context code))

-- The `switch` on the device; the case of the Leo falls through to an empty one.
unfoldable pub switch_device : DeviceType → List KeyContextPrivate → List KeyContextPrivate
switch_device schubert ks = write_key 118 (set_legacy 42 true) (
    write_key 120 (set_legacy 90 false)
      (write_key 114 (set_legacy 41 false) (write_key 115 (set_legacy 94 false) ks)))
switch_device leo ks = write_key 119 (set_keymatrix 31 41 true) (
    write_key 118 (set_keymatrix 32 42 true)
      (write_key 117 (set_keymatrix 31 42 true) (write_key 116 (set_legacy 94 true) ks)))
switch_device bravo ks = ks
switch_device passion ks = ks

-- `Device == LEO || Device == BRAVO || Device == PASSION`
abbrev has_common_keys : DeviceType → Bool
has_common_keys schubert = false
has_common_keys _ = true

unfoldable pub common_keys : DeviceType → List KeyContextPrivate → List KeyContextPrivate
common_keys d ks =
    if has_common_keys d
    then write_key 114 (set_keymatrix 33 41 false)
        (write_key 115 (set_keymatrix 33 42 false) (write_key 120 (set_keymatrix 32 41 true) ks))
    else ks

-- `KeypadDeviceImplConstructor`, as far as the keys go.
unfoldable pub construct : DeviceType → List KeyContextPrivate → List KeyContextPrivate
construct d ks = common_keys d (switch_device d (map initialize_key_context_private ks))

-- `SCAN_ESC`, `SCAN_HOME`, `CHAR_BACKSPACE` and `CHAR_TAB` of the UEFI specification.
abbrev pub scan_esc : ℕ
scan_esc = 0x17

abbrev pub scan_home : ℕ
scan_home = 5

abbrev pub char_backspace : ℕ
char_backspace = 8

abbrev pub char_tab : ℕ
char_tab = 9

-- A fresh context that reports a scan code or a character.
abbrev reports_scan : ℕ → KeyContextPrivate → KeyContextPrivate
reports_scan scan k = record k {
  efi_key_context = record initialize_key_context {
    key_data = record initialize_key_context.key_data { scan_code = scan };
  };
}

abbrev reports_char : ℕ → KeyContextPrivate → KeyContextPrivate
reports_char char k = record k {
  efi_key_context = record initialize_key_context {
    key_data = record initialize_key_context.key_data { unicode_char = char };
  };
}

-- The keys in the order of `KeyList`, each with what it is to report.
abbrev pub each_with :
    List (KeyContextPrivate → KeyContextPrivate) → List KeyContextPrivate → List KeyContextPrivate
each_with fs [] = []
each_with [] (k ∷ ks) = k ∷ ks
each_with (f ∷ fs) (k ∷ ks) = f k ∷ each_with fs ks

-- `KeypadDeviceImplReset`
unfoldable pub reset_keys : List KeyContextPrivate → List KeyContextPrivate
reset_keys ks =
    each_with
      (reports_scan scan_esc
        ∷ reports_scan scan_up
        ∷ reports_scan scan_down
        ∷ reports_char char_backspace
        ∷ reports_char char_tab
        ∷ reports_scan scan_home
        ∷ reports_char char_carriage_return
        ∷ [])
      ks

-- The context of a key before the constructor: static memory.
abbrev pub static_key : KeyContextPrivate
static_key = initialize_key_context_private (record {
  efi_key_context = initialize_key_context;
  is_valid = false;
  device_type = unknown;
  gpio = 0;
  active_low = false;
  gpio_in = 0;
  gpio_out = 0;
  enable_key_pad_led = false;
})

abbrev pub static_keys : List KeyContextPrivate
static_keys = replicate 7 static_key
