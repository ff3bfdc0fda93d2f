-- ===== src/Keypad/Console/Read.antt =====
-- Reading keystrokes: the text input protocols of QSD8250Pkg/Drivers/KeypadDxe/KeypadTextIn.c.
pub mod Total
pub mod Waiting
use msm8909pkg.Base.{
  ℕ, ◌+◌, ◌-◌, Bool, true, false, not, ◌&&◌, Option, none, some, List, [], ◌∷◌, if◌then◌else◌, ◌==◌,
  leb, get_or, bit_and, bit_or, zero, suc,
}
use msm8909pkg.Keypad.Data.{
  KeyData, Status, success, device_error, invalid_parameter, unsupported, not_ready, zero_key,
  is_partial_key,
}
use msm8909pkg.Keypad.Queue.{KeyQueue, is_efikey_buf_empty, pop_efikey_buf_head}
use msm8909pkg.Keypad.Console.{Platform, ConsoleIn, timer_handler, init_keypad}

-- `EFI_LEFT_CONTROL_PRESSED | EFI_RIGHT_CONTROL_PRESSED` of the UEFI specification.
abbrev pub control_pressed : ℕ
control_pressed = 0xC

-- A control key with a letter reads as the control character, ctrl-a = 1 to ctrl-z = 26.
pub translate_control : KeyData → KeyData
translate_control k =
    if bit_and k.key_shift_state control_pressed == 0
    then k
    else if leb b'a' k.unicode_char && leb k.unicode_char b'z'
    then record k { unicode_char = k.unicode_char - b'a' + 1 }
    else if leb b'A' k.unicode_char && leb k.unicode_char b'Z'
    then record k { unicode_char = k.unicode_char - b'A' + 1 }
    else k

-- `EFI_INPUT_KEY`: the scan code and the character.
abbrev pub InputKey : Type 0
InputKey = ℕ × ℕ

-- Drops partial keystrokes at the head, and says whether a key is left: the loop of
-- `KeypadWaitForKey`.
pub skip_partial : ℕ → KeyQueue → Bool × KeyQueue
skip_partial zero q = (false, q)
skip_partial (suc fuel) q =
    let next = skip_partial fuel (pop_efikey_buf_head q).2 in
    if is_efikey_buf_empty q
    then (false, q)
    else if is_partial_key (get_or q.buffer q.head zero_key)
    then next
    else (true, q)

module _ {D : Type 0} (p : Platform D) where
  -- `KeypadReadKeyStrokeWorker` at a reading of the counter. `room` says that `KeyData` is not NULL;
  -- the option is what is written there.
  pub read_key_stroke_worker : Bool → ℕ → ConsoleIn D → Status × Option KeyData × ConsoleIn D
  read_key_stroke_worker room now c =
      if not room
      then (invalid_parameter, none, c)
      else (let c' = timer_handler p now c in
          if c'.keypad_err
          then (device_error, none, c')
          else (let (s, out, q) = pop_efikey_buf_head c'.efi_key_queue in
              (s, out, record c' { efi_key_queue = q })))

  -- The body of the loop of `KeypadReadKeyStroke` once a round of the worker is done; `again` is the
  -- next round. Of what the worker returns, `none` means that nothing was written.
  after_worker :
      Status × Option KeyData × ConsoleIn D
      → (ConsoleIn D → Option (Status × Option InputKey × ConsoleIn D))
      → Option (Status × Option InputKey × ConsoleIn D)
  after_worker (success, some k, c) again =
      let next = again c in
      if is_partial_key k
      then next
      else (let k' = translate_control k in some (success, some (k'.scan_code, k'.unicode_char), c))
  after_worker (s, out, c) again = some (s, none, c)

  -- `KeypadReadKeyStroke`: each round takes a reading of the counter, and `none` means that the
  -- readings ran out while the loop went on.
  pub read_key_stroke : List ℕ → ConsoleIn D → Option (Status × Option InputKey × ConsoleIn D)
  unfolding after_worker
  read_key_stroke [] c = none
  read_key_stroke (now ∷ nows) c =
      after_worker (read_key_stroke_worker true now c) (read_key_stroke nows)

  -- `KeypadReadKeyStrokeEx`
  pub read_key_stroke_ex : Bool → ℕ → ConsoleIn D → Status × Option KeyData × ConsoleIn D
  read_key_stroke_ex room now c =
      if not room then (invalid_parameter, none, c) else read_key_stroke_worker room now c

  -- `KeypadWaitForKey` and `KeypadWaitForKeyEx`: whether the event is signalled, and the state. The
  -- fuel is the number of slots.
  pub wait_for_key : ℕ → ConsoleIn D → Bool × ConsoleIn D
  wait_for_key now c =
      let c' = timer_handler p now c in
      if c'.keypad_err
      then (false, c')
      else (let (signal, q) = skip_partial 256 c'.efi_key_queue in
          (signal, record c' { efi_key_queue = q }))

  -- `KeypadEfiReset` and `KeypadEfiResetEx`
  pub efi_reset : ConsoleIn D → Status × ConsoleIn D
  efi_reset c = if c.keypad_err then (device_error, c) else (success, init_keypad p c)

-- `EFI_TOGGLE_STATE_VALID`, `EFI_KEY_STATE_EXPOSED`, `EFI_CAPS_LOCK_ACTIVE`, `EFI_NUM_LOCK_ACTIVE`
-- and `EFI_SCROLL_LOCK_ACTIVE` of the UEFI specification.
abbrev pub toggle_state_valid : ℕ
toggle_state_valid = 0x80

abbrev pub key_state_exposed : ℕ
key_state_exposed = 0x40

abbrev pub caps_lock_active : ℕ
caps_lock_active = 0x04

abbrev pub num_lock_active : ℕ
num_lock_active = 0x02

abbrev pub scroll_lock_active : ℕ
scroll_lock_active = 0x01

-- `(state & mask) == mask`
abbrev pub has_flag : ℕ → ℕ → Bool
has_flag state mask = bit_and state mask == mask

-- `KeypadSetState`; the option is the pointer to the toggle state.
pub set_state : {D : Type 0} → Option ℕ → ConsoleIn D → Status × ConsoleIn D
set_state none c = (invalid_parameter, c)
set_state (some t) c =
    if c.keypad_err
    then (device_error, c)
    else if not (has_flag t toggle_state_valid)
    then (unsupported, c)
    else (
      success,
      record c {
        scroll_lock = has_flag t scroll_lock_active;
        num_lock = has_flag t num_lock_active;
        caps_lock = has_flag t caps_lock_active;
        is_support_partial_key = has_flag t key_state_exposed;
      },
    )
