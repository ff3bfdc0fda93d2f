-- ===== src/Keypad/Data.antt =====
-- The keystroke record of the UEFI text input protocols, and the status codes that the keypad
-- driver returns.
use msm8909pkg.Base.{ℕ, Bool, ◌&&◌, ◌==◌}

-- `EFI_KEY_DATA`: `Key.ScanCode`, `Key.UnicodeChar`, `KeyState.KeyShiftState` and
-- `KeyState.KeyToggleState`.
pub record KeyData : Type 0 where
  pub scan_code : ℕ
  pub unicode_char : ℕ
  pub key_shift_state : ℕ
  pub key_toggle_state : ℕ

-- The values of `EFI_STATUS` in the keypad driver.
pub data Status : Type 0 where
  success not_ready device_error invalid_parameter unsupported out_of_resources : Status

abbrev pub scan_null : ℕ
scan_null = 0

abbrev pub char_null : ℕ
char_null = 0

-- All fields zero, as `SetMem` and `AllocateZeroPool` leave a key.
abbrev pub zero_key : KeyData
zero_key = record { scan_code = 0; unicode_char = 0; key_shift_state = 0; key_toggle_state = 0 }

-- `ScanCode == SCAN_NULL && UnicodeChar == CHAR_NULL`, the test for a partial keystroke.
abbrev pub is_partial_key : KeyData → Bool
is_partial_key k = k.scan_code == scan_null && k.unicode_char == char_null
