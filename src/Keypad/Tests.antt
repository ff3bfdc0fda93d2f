-- ===== src/Keypad/Tests.antt =====
-- Runs of the keypad on concrete keys, and the theorems at inputs that meet their hypotheses.
use msm8909pkg.Base.{
  ℕ, ◌+◌, ◌*◌, ◌≤◌, ◌≡◌, refl, true, false, none, some, List, [], ◌∷◌, ◌++◌, replicate, length,
  arith,
}
use msm8909pkg.Keypad.Data.{KeyData, success, not_ready, invalid_parameter, zero_key}
use msm8909pkg.Keypad.Bitmap.{no_keys}
use msm8909pkg.Keypad.Queue.{KeyQueue, pop_efikey_buf_head, push_efikey_buf_tail}
use msm8909pkg.Keypad.Queue.Spec
use msm8909pkg.Keypad.Queue.Spec.{Request, put, take}
use msm8909pkg.Keypad.Queue.Refine.{IsValid, contents, serve, serve_refines}
use msm8909pkg.Keypad.Context.{KeyContext, released, pressed, ms2ns, update_key_status}
use msm8909pkg.Keypad.Context.Polls.{hold, total}
use msm8909pkg.Keypad.Context.Invariant.{IsConsistent, Reportable, update_key_status-IsConsistent}
use msm8909pkg.Keypad.Context.Press.{Ends, tap_lem}
use msm8909pkg.Keypad.Context.LongPress.{reports, hold_rate, IsCharKey}
use msm8909pkg.Keypad.Console.{
  Notify, Platform, ConsoleIn, no_modifiers, timer_handler, is_key_registered,
}
use msm8909pkg.Keypad.Console.Pushed.{Received, push_all_kept, timer_handler-Received}
use msm8909pkg.Keypad.Console.Read.{read_key_stroke}
use msm8909pkg.Keypad.Console.Read.Total.{Finishes, read_key_stroke-Finishes}
use msm8909pkg.Keypad.Console.Registry.{
  find_registered, register_key_notify, unregister_key_notify, drain_notifications,
}
use msm8909pkg.Keypad.Console.Registry.Handles.{unregister-register}
use msm8909pkg.Keypad.Console.Registry.Delivery.{Drained, drain_notifications-Drained}

-- The home key (`SCAN_HOME`) and the back key (`CHAR_BACKSPACE`).
abbrev home : KeyData
home = record zero_key { scan_code = 5 }

abbrev back : KeyData
back = record zero_key { unicode_char = 8 }

abbrev empty_queue : KeyQueue
empty_queue = record { buffer = replicate 256 zero_key; head = 0; tail = 0 }

empty_queue-IsValid : IsValid empty_queue
empty_queue-IsValid = record { slots = refl; head_in = omega arith; tail_in = omega arith }

-- A queue that wraps round: slots 254 and 255 and 0 are taken.
abbrev wrapped_queue : KeyQueue
wrapped_queue = record {
  buffer = (back ∷ replicate 253 zero_key) ++ (home ∷ zero_key ∷ []);
  head = 254;
  tail = 1;
}

wrapped_queue-IsValid : IsValid wrapped_queue
wrapped_queue-IsValid = record { slots = refl; head_in = omega arith; tail_in = omega arith }

abbrev requests : List Request
requests = take ∷ put home ∷ take ∷ take ∷ take ∷ take ∷ []

serve-wrapped :
    serve wrapped_queue requests
    ≡ (success, some home)
      ∷ (success, some zero_key)
      ∷ (success, some back)
      ∷ (success, some home)
      ∷ (not_ready, none)
      ∷ []
unfolding serve push_efikey_buf_tail pop_efikey_buf_head
serve-wrapped = refl

serve_refines_example : serve wrapped_queue requests ≡ Spec.run (contents wrapped_queue) requests
serve_refines_example = serve_refines requests wrapped_queue-IsValid

abbrev at_rest : KeyData → KeyContext
at_rest k = record { key_data = k; time = 0; state = released; repeat = false; longpress = false }

update_key_status-IsConsistent_example :
    let (_, c', out) = update_key_status no_keys (at_rest home) true 20 in
    IsConsistent c' × (c'.key_data ≡ home) × Reportable (at_rest home) out
update_key_status-IsConsistent_example =
    update_key_status-IsConsistent no_keys (at_rest home) true 20
      (record { flags = (refl, refl); clock = omega arith })

tap_lem_example :
    Ends no_keys
      (at_rest home)
      (((true, 7) ∷ hold (20000000 ∷ 20000000 ∷ [])) ++ ((false, 20000000) ∷ (true, 20000000) ∷ []))
      (at_rest home)
      ([] ∷ [] ∷ [] ∷ (home ∷ []) ∷ [] ∷ [])
tap_lem_example =
    tap_lem no_keys (at_rest home) 7 (20000000 ∷ 20000000 ∷ []) 20000000 20000000 true
      (refl, refl, refl) (omega arith)

abbrev down : KeyContext
down = record (at_rest home) { state = pressed }

hold_rate_example :
    length (reports no_keys down (hold (500000000 ∷ 250000000 ∷ []))) * ms2ns 200
    ≤ 0 + total (500000000 ∷ 250000000 ∷ [])
hold_rate_example = hold_rate no_keys down (500000000 ∷ 250000000 ∷ []) refl (omega arith)

back-IsCharKey : IsCharKey back
back-IsCharKey = record { no_scan = refl; is_char = omega arith; in_bitmap = omega arith }

-- A device that pushes one list of keys after the other.
abbrev Script : Type 0
Script = List (List KeyData)

abbrev play : Script → ℕ → Script × List KeyData
play [] delta = ([], [])
play (ks ∷ d) delta = (d, ks)

abbrev scripted : Platform Script
scripted = record { reset = λ d. d; get_keys = play; get_time_in_nano_second = λ t. t }

abbrev console : KeyQueue → List Notify → ConsoleIn Script
console q ns = record {
  keypad_device = (home ∷ zero_key ∷ back ∷ []) ∷ [];
  last = 0;
  modifiers = no_modifiers;
  caps_lock = false;
  num_lock = false;
  scroll_lock = false;
  is_support_partial_key = false;
  efi_key_queue = q;
  efi_key_queue_for_notify = empty_queue;
  keypad_err = false;
  notify_list = ns;
  signals = 0;
}

timer_handler-Received_example :
    Received
      (console wrapped_queue [])
      (push_all_kept false (contents wrapped_queue) (home ∷ zero_key ∷ back ∷ []))
      (timer_handler scripted 9 (console wrapped_queue []))
timer_handler-Received_example =
    timer_handler-Received scripted 9 (console wrapped_queue []) refl wrapped_queue-IsValid

read_key_stroke-Finishes_example :
    Finishes (read_key_stroke scripted (1 ∷ 2 ∷ []) (console wrapped_queue []))
read_key_stroke-Finishes_example =
    read_key_stroke-Finishes scripted (1 ∷ 2 ∷ []) (console wrapped_queue []) refl
      wrapped_queue-IsValid (omega arith)

abbrev on_home : ℕ → Notify
on_home h = record { handle = h; key_data = home; key_notification_fn = h + 100 }

unregister-register_example :
    let c = console empty_queue (on_home 7 ∷ []) in
    let (s, handle, c') = register_key_notify (some 8) (some back) (some 1) true c in
    (s ≡ success)
    × (unregister_key_notify handle c' ≡ (success, c))
    × (unregister_key_notify handle c ≡ (invalid_parameter, c))
unfolding find_registered is_key_registered
unregister-register_example =
    unregister-register (console empty_queue (on_home 7 ∷ [])) back 1 8 refl (omega arith, tt)

drain_notifications-Drained_example :
    Drained
      (on_home 7 ∷ [])
      (contents wrapped_queue)
      (drain_notifications 5 (on_home 7 ∷ []) wrapped_queue)
drain_notifications-Drained_example =
    drain_notifications-Drained 5 (on_home 7 ∷ []) wrapped_queue wrapped_queue-IsValid (omega arith)
