-- ===== src/Keypad/Device/Tests.antt =====
-- Runs of the keypad device on a concrete machine, and the theorems at inputs that meet their
-- hypotheses.
use msm8909pkg.Base.{
  some, subst, ℕ, ◌+◌, ◌≡◌, ◌≤◌, refl, Bool, false, not, ◌&&◌, ◌||◌, List, [], ◌∷◌, ◌==◌, arith,
  length, replicate, Every, if◌then◌else◌,
}
use msm8909pkg.Keypad.Data.{zero_key}
use msm8909pkg.Keypad.Console.{ConsoleIn, no_modifiers, init_keypad}
use msm8909pkg.Keypad.Device.Wiring.{
  leo, construct, switch_device, common_keys, write_key, key_code_to_key_context,
  initialize_key_context_private,
}
use msm8909pkg.Keypad.Device.Poll.{
  Board, Device, gpio_kp_led, reset, get_keys, poll_keys, poll_key, update_key, read_status,
  enable_keypad_led_with_timer, led_on, disable_key_pad_led,
}
use msm8909pkg.Keypad.Device.Polling.{IsReady, IsWhole, polls, polls-reset-IsReady}
use msm8909pkg.Keypad.Device.Led.{View, Laws, IsTimed}
use msm8909pkg.Keypad.Device.Light.Runs.{
  start, Step, poll, expire, notify, stay, step, is_armed, start-IsTimed,
}
use msm8909pkg.Keypad.Device.Stroke.{device_platform, AllServed, init_keypad-AllServed}

-- The levels that the pins read, the level of the LED's pin, the armed timers, the queued calls and
-- the next event.
record Machine : Type 0 where
  level : ℕ → ℕ
  led : ℕ
  armed : ℕ → Bool
  queued : ℕ → Bool
  next : ℕ

abbrev board : Board Machine
board = record {
  led_method = 1;
  get = λ pin s. (s.level pin, s);
  set_gpio = λ pin value s. if pin == gpio_kp_led then record s { led = value } else s;
  kp_led_set_brightness = λ value s. record s { led = value };
  create_event = λ s. (s.next, record s { next = s.next + 1 });
  cancel_timer = λ e s. record s { armed = λ i. s.armed i && not (i == e) };
  start_timer = λ e t s. record s { armed = λ i. s.armed i || (i == e) };
}

abbrev view : View Machine
view = record { armed = λ s. s.armed; queued = λ s. s.queued; lit = λ s. not (s.led == 0) }

board-Laws : Laws view board
board-Laws = record {
  get_keeps = λ pin s. ((λ e. refl), (λ e. refl), refl);
  set_keeps = λ pin value s h. ((λ e. ground arith), (λ e. ground arith), ground arith);
  set_led = λ value s h. ((λ e. refl), (λ e. refl), refl);
  brightness = λ value s h. absurd (ground arith);
  create_keeps = λ s. ((λ e. refl), (λ e. refl), refl);
  cancel = λ e s. ((λ i. refl), (λ i. refl), refl);
  start = λ e t s. ((λ i. refl), (λ i. refl), refl);
}

-- Every pin high: no key is pressed. Then pin 94, the power button of the Leo, is low.
abbrev idle : Machine
idle = record { level = λ pin. 1; led = 0; armed = λ e. false; queued = λ e. false; next = 3 }

abbrev power_down : Machine
power_down = record idle { level = λ pin. if pin == 94 then 0 else 1 }

abbrev fresh : Device Machine
fresh = start leo idle

-- Three polls 100 ms apart, the power button down at the first two.
abbrev rounds : List (ℕ × (Machine → Machine))
rounds =
    (100000000, λ s. power_down)
    ∷ (100000000, λ s. s)
    ∷ (100000000, λ s. record s { level = λ pin. 1 })
    ∷ []

fresh-keys : length fresh.keys ≡ 7
unfolding construct switch_device common_keys write_key key_code_to_key_context
fresh-keys = refl

polls-reset-IsReady_example :
    let (d', outs) = polls board rounds (reset fresh) in
    Every IsReady d'.keys
    × (length d'.keys ≡ 7)
    × Every (λ out. Every IsWhole out × (length out ≤ 7)) outs
polls-reset-IsReady_example = polls-reset-IsReady board rounds fresh fresh-keys

-- The button lights the LED and arms event 3; then the timer expires, and its call
-- comes.
abbrev lit : Device Machine
lit =
    (get_keys board (record fresh { shared = record fresh.shared { world = power_down } })
      100000000).0

abbrev gone : Machine
gone = record power_down {
  led = 1;
  armed = λ i. (false || (i == 3)) && not (i == 3);
  queued = λ i. false || (i == 3);
  next = 4;
}

abbrev dark : Machine
dark = record gone { queued = λ i. (false || (i == 3)) && not (i == 3) }

lit-world :
    lit.shared.world ≡ record power_down { led = 1; armed = λ i. false || (i == 3); next = 4 }
unfolding get_keys poll_keys poll_key update_key read_status construct switch_device common_keys
    write_key key_code_to_key_context initialize_key_context_private enable_keypad_led_with_timer
    led_on
lit-world = refl

lit-timer : lit.shared.callback_timer ≡ some 3
unfolding get_keys poll_keys poll_key update_key read_status construct switch_device common_keys
    write_key key_code_to_key_context initialize_key_context_private enable_keypad_led_with_timer
    led_on
lit-timer = refl

abbrev expired : Device Machine
expired = record lit { shared = record lit.shared { world = gone } }

abbrev ended : Device Machine
ended = record expired {
  shared = disable_key_pad_led board (record expired.shared { world = dark });
}

lit-expires : Step view board false lit expired
lit-expires = expire lit gone 3 (rw lit-world refl) (rw lit-world ((λ i. refl), (λ i. refl), refl))

in_time : is_armed view board expired.shared.callback_timer gone ≡ false
in_time = rw lit-timer refl

expired-notifies : Step view board false expired ended
expired-notifies =
    subst (λ x. Step view board x expired ended) in_time
      (notify expired dark 3 refl ((λ i. refl), (λ i. refl), refl))

start-IsTimed_example : IsTimed view false ended.shared
start-IsTimed_example =
    start-IsTimed view board board-Laws leo idle false ended ((λ e. refl), (λ e. refl), refl)
      (step false false fresh lit ended
        (poll fresh power_down 100000000 ((λ e. refl), (λ e. refl), refl))
        (step false false lit expired ended lit-expires
          (step false false expired ended ended expired-notifies (stay ended))))

-- A driver over the device, with the power button down.
abbrev driver : ConsoleIn (Device Machine)
driver = record {
  keypad_device = record fresh { shared = record fresh.shared { world = power_down } };
  last = 0;
  modifiers = no_modifiers;
  caps_lock = false;
  num_lock = false;
  scroll_lock = false;
  is_support_partial_key = false;
  efi_key_queue = record { buffer = replicate 256 zero_key; head = 7; tail = 9 };
  efi_key_queue_for_notify = record { buffer = replicate 256 zero_key; head = 0; tail = 0 };
  keypad_err = false;
  notify_list = [];
  signals = 0;
}

init_keypad-AllServed_example :
    AllServed board
      (λ t. t)
      (init_keypad (device_platform board (λ t. t)) driver)
      (1000 ∷ 200000000 ∷ 200000500 ∷ [])
init_keypad-AllServed_example =
    init_keypad-AllServed board (λ t. t) (1000 ∷ 200000000 ∷ 200000500 ∷ []) driver fresh-keys refl
