-- ===== src/Keypad/Console.antt =====
-- The console input driver of QSD8250Pkg/Drivers/KeypadDxe: its private data, the poll of the keypad
-- device (KeypadController.c) and the push of a key with its notifications (Keypad.c).
pub mod Read
pub mod Registry
pub mod Pushed
use msm8909pkg.Base.{
  ℕ, ◌+◌, ◌-◌, ◌%◌, ◌^◌, Bool, true, false, not, ◌&&◌, ◌||◌, List, [], ◌∷◌, ◌++◌, if◌then◌else◌,
  ◌==◌, replicate,
}
use msm8909pkg.Keypad.Data.{KeyData, zero_key, is_partial_key}
use msm8909pkg.Keypad.Queue.{KeyQueue, max_count, push_efikey_buf_tail}

-- `KEYPAD_CONSOLE_IN_EX_NOTIFY`: its address is the handle, and a notification function is known by
-- a number.
pub record Notify : Type 0 where
  pub handle : ℕ
  pub key_data : KeyData
  pub key_notification_fn : ℕ

-- The modifier keys of `KEYPAD_CONSOLE_IN_DEV`, which this keypad does not have.
pub record Modifiers : Type 0 where
  pub left_ctrl : Bool
  pub right_ctrl : Bool
  pub left_alt : Bool
  pub right_alt : Bool
  pub left_shift : Bool
  pub right_shift : Bool
  pub left_logo : Bool
  pub right_logo : Bool
  pub menu : Bool
  pub sys_req : Bool

abbrev pub no_modifiers : Modifiers
no_modifiers = record {
  left_ctrl = false;
  right_ctrl = false;
  left_alt = false;
  right_alt = false;
  left_shift = false;
  right_shift = false;
  left_logo = false;
  right_logo = false;
  menu = false;
  sys_req = false;
}

-- What the driver is given: `KEYPAD_DEVICE_PROTOCOL` over a device's state, whose `GetKeys` comes
-- back with the keys that it pushes, and `GetTimeInNanoSecond` of the timer library.
pub record Platform (D : Type 0) : Type 0 where
  pub reset : D → D
  pub get_keys : D → ℕ → D × List KeyData
  pub get_time_in_nano_second : ℕ → ℕ

-- `KEYPAD_CONSOLE_IN_DEV`. `signals` counts the signals of `KeyNotifyProcessEvent`.
pub record ConsoleIn (D : Type 0) : Type 0 where
  pub keypad_device : D
  pub last : ℕ
  pub modifiers : Modifiers
  pub caps_lock : Bool
  pub num_lock : Bool
  pub scroll_lock : Bool
  pub is_support_partial_key : Bool
  pub efi_key_queue : KeyQueue
  pub efi_key_queue_for_notify : KeyQueue
  pub keypad_err : Bool
  pub notify_list : List Notify
  pub signals : ℕ

-- A registered key with a zero shift or toggle state matches any such state.
unfoldable pub is_key_registered : KeyData → KeyData → Bool
is_key_registered r k =
    if not (r.scan_code == k.scan_code) || not (r.unicode_char == k.unicode_char)
    then false
    else if not (r.key_shift_state == 0) && not (r.key_shift_state == k.key_shift_state)
    then false
    else if not (r.key_toggle_state == 0) && not (r.key_toggle_state == k.key_toggle_state)
    then false
    else true

module _ {D : Type 0} where
  -- The loop over the notifications: a push and a signal for each that matches.
  pub queue_notifications : List Notify → KeyData → ConsoleIn D → ConsoleIn D
  queue_notifications [] k c = c
  queue_notifications (n ∷ ns) k c = queue_notifications ns k (
      if is_key_registered n.key_data k
      then record c {
        efi_key_queue_for_notify = push_efikey_buf_tail c.efi_key_queue_for_notify k;
        signals = c.signals + 1;
      }
      else c)

  -- `KeypadReturnApiPushEfikeyBufTail`
  pub return_api_push : KeyData → ConsoleIn D → ConsoleIn D
  return_api_push k c =
      if is_partial_key k && not c.is_support_partial_key
      then c
      else (let c' = queue_notifications c.notify_list k c in
          record c' { efi_key_queue = push_efikey_buf_tail c'.efi_key_queue k })

  -- The pushes of one `GetKeys`, in their order.
  pub push_all : List KeyData → ConsoleIn D → ConsoleIn D
  push_all [] c = c
  push_all (k ∷ ks) c = push_all ks (return_api_push k c)

  module _ (p : Platform D) where
    -- `KeypadTimerHandler` at a reading of the performance counter.
    pub timer_handler : ℕ → ConsoleIn D → ConsoleIn D
    timer_handler now c =
        if c.keypad_err
        then c
        else (let delta = (now + 2 ^ 64 - c.last) % 2 ^ 64 in
            let (device, keys) = p.get_keys c.keypad_device (p.get_time_in_nano_second delta) in
            push_all keys (record c { last = now; keypad_device = device }))

    -- `InitKeypad`: the device is reset, both queues are emptied, the flags are cleared.
    unfoldable pub init_keypad : ConsoleIn D → ConsoleIn D
    init_keypad c = record c {
      keypad_device = p.reset c.keypad_device;
      efi_key_queue = record c.efi_key_queue { head = 0; tail = 0 };
      efi_key_queue_for_notify = record c.efi_key_queue_for_notify { head = 0; tail = 0 };
      modifiers = no_modifiers;
      caps_lock = false;
      num_lock = false;
      scroll_lock = false;
      is_support_partial_key = false;
    }

-- `KeypadError`
pub keypad_error : {D : Type 0} → ConsoleIn D → ConsoleIn D
keypad_error c = record c { keypad_err = true }
