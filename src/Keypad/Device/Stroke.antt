-- ===== src/Keypad/Device/Stroke.antt =====
-- The console input driver over the keypad device: a keystroke is read in one round.
use msm8909pkg.Base.{
  ℕ, ◌≡◌, refl, ap, ◌∙◌, Bool, false, Option, none, some, List, [], ◌∷◌, ◌&&◌, not, ◌==◌, arith,
  if_both, Every-append, length, Every, Bool-cases, inl, inr,
}
use msm8909pkg.Keypad.Data.{KeyData, Status, device_error, is_partial_key}
use msm8909pkg.Keypad.Queue.{max_count, pop_efikey_buf_head}
use msm8909pkg.Keypad.Queue.Spec
use msm8909pkg.Keypad.Queue.Refine.{IsValid, contents, pop-IsValid, pop_refines, pop-eq-drop_first}
use msm8909pkg.Keypad.Console.{Platform, ConsoleIn, timer_handler, init_keypad}
use msm8909pkg.Keypad.Console.Pushed.{
  push_kept, push_all_kept, timer_handler-Received, timer_handler-keypad_device,
}
use msm8909pkg.Keypad.Console.Read.{InputKey, read_key_stroke}
use msm8909pkg.Keypad.Console.Read.Total.{
  partials, Answers, read_key_stroke-err, read_key_stroke-whole,
}
use msm8909pkg.Keypad.Device.Poll.{Board, Device, reset, get_keys}
use msm8909pkg.Keypad.Device.Polling.{IsReady, IsWhole, poll_keys-IsReady, reset_keys-IsReady}

-- `KEYPAD_DEVICE_PROTOCOL` as the keypad device fills it.
abbrev pub device_platform : {S : Type 0} → Board S → (ℕ → ℕ) → Platform (Device S)
device_platform b time = record {
  reset = reset;
  get_keys = get_keys b;
  get_time_in_nano_second = time;
}

drop_first-IsWhole : (ks : List KeyData) → Every IsWhole ks → Every IsWhole (Spec.drop_first ks)
drop_first-IsWhole [] v = v
drop_first-IsWhole (k ∷ ks) (w, v) = v

push_kept-IsWhole :
    (support : Bool) (ks : List KeyData) (k : KeyData)
    → IsWhole k
    → Every IsWhole ks
    → Every IsWhole (push_kept support ks k)
unfolding Spec.push
push_kept-IsWhole support ks k w v = if_both (Every IsWhole) (is_partial_key k && not support) v (
    Every-append IsWhole _ (k ∷ [])
      (if_both (Every IsWhole) (length ks == Spec.capacity) (drop_first-IsWhole ks v) v) (w, tt))

push_all_kept-IsWhole :
    (support : Bool) (new ks : List KeyData)
    → Every IsWhole new
    → Every IsWhole ks
    → Every IsWhole (push_all_kept support ks new)
push_all_kept-IsWhole support [] ks w v = v
push_all_kept-IsWhole support (k ∷ new) ks (wk, w) v =
    push_all_kept-IsWhole support new _ w (push_kept-IsWhole support ks k wk v)

partials-IsWhole : (ks : List KeyData) → Every IsWhole ks → partials ks ≡ 0
partials-IsWhole [] v = refl
partials-IsWhole (k ∷ ks) (w, v) = rw (w, partials-IsWhole ks v) refl

module _ {S : Type 0} (b : Board S) (time : ℕ → ℕ) where
  -- The driver and its device between two calls: the keys of the device and of the queue are whole.
  pub record IsServing (c : ConsoleIn (Device S)) : Type 0 where
    pub ready : Every IsReady c.keypad_device.keys
    pub queue : IsValid c.efi_key_queue
    pub whole : Every IsWhole (contents c.efi_key_queue)

  get_keys-IsWhole :
      (d : Device S) (delta : ℕ)
      → Every IsReady d.keys
      → Every IsReady (get_keys b d delta).0.keys × Every IsWhole (get_keys b d delta).1
  unfolding get_keys
  get_keys-IsWhole d delta v =
      let (v', _, whole, _) = poll_keys-IsReady b d.keys delta d.shared v in (v', whole)

  timer_handler-IsServing :
      (now : ℕ) (c : ConsoleIn (Device S))
      → c.keypad_err ≡ false
      → IsServing c
      → IsServing (timer_handler (device_platform b time) now c)
  timer_handler-IsServing now c good v =
      let (_, queue, keys) = timer_handler-Received (device_platform b time) now c good v.queue in
      let device = timer_handler-keypad_device (device_platform b time) now c good in
      let (ready, whole) = get_keys-IsWhole c.keypad_device _ v.ready in
      record {
        ready = rw device ready;
        queue = queue;
        whole = rw keys (push_all_kept-IsWhole c.is_support_partial_key _ _ whole v.whole);
      }

  pop-IsServing :
      (c : ConsoleIn (Device S))
      → IsServing c
      → IsServing (record c { efi_key_queue = (pop_efikey_buf_head c.efi_key_queue).2 })
  pop-IsServing c v = record {
    ready = v.ready;
    queue = pop-IsValid v.queue;
    whole =
        rw (ap (λ t. t.2) (pop_refines v.queue) ∙ pop-eq-drop_first (contents c.efi_key_queue))
          (drop_first-IsWhole _ v.whole);
  }

  -- What a call of `KeypadReadKeyStroke` with one reading of the counter comes to.
  abbrev pub Served : ConsoleIn (Device S) → ℕ → Type 0
  Served c now =
      (r : Status × Option InputKey × ConsoleIn (Device S)) × (read_key_stroke
          (device_platform b time) (now ∷ []) c
        ≡ some r)
      × Answers r
      × IsServing r.2

  read_key_stroke-Served : (now : ℕ) (c : ConsoleIn (Device S)) → IsServing c → Served c now
  read_key_stroke-Served now c v = elim (Bool-cases c.keypad_err) [
    | inl bad ↦ (
      (device_error, none, c),
      read_key_stroke-err (device_platform b time) now c bad,
      (refl, bad),
      v,
    )
    | inr good ↦
        let p = device_platform b time in
        let v' = timer_handler-IsServing now c good v in
        let ((err, _, _), _, _) = timer_handler-Received p now c good v.queue in
        let (r, returned, answers, e) =
          read_key_stroke-whole p now c good v'.queue (err ∙ good) (partials-IsWhole _ v'.whole) in
        (r, returned, answers, rw e (pop-IsServing (timer_handler p now c) v'))
  ]

  -- Calls of `KeypadReadKeyStroke` one after the other, at the readings of the counter.
  abbrev pub AllServed : ConsoleIn (Device S) → List ℕ → Type 0
  AllServed c [] = Unit
  AllServed c (now ∷ nows) =
      (r : Status × Option InputKey × ConsoleIn (Device S)) × (read_key_stroke
          (device_platform b time) (now ∷ []) c
        ≡ some r)
      × Answers r
      × AllServed r.2 nows

  calls-AllServed : (nows : List ℕ) (c : ConsoleIn (Device S)) → IsServing c → AllServed c nows
  calls-AllServed [] c v = tt
  calls-AllServed (now ∷ nows) c v =
      let (r, returned, answers, v') = read_key_stroke-Served now c v in
      (r, returned, answers, calls-AllServed nows r.2 v')

  init_keypad-IsServing :
      (c : ConsoleIn (Device S))
      → length c.keypad_device.keys ≡ 7
      → length c.efi_key_queue.buffer ≡ max_count
      → IsServing (init_keypad (device_platform b time) c)
  unfolding init_keypad reset
  init_keypad-IsServing c n slots = record {
    ready = (reset_keys-IsReady c.keypad_device.keys (omega arith)).0;
    queue = record { slots = slots; head_in = omega arith; tail_in = omega arith };
    whole = tt;
  }

  -- Once the driver is initialised over this device, a caller never waits: each of any number of
  -- calls of `KeypadReadKeyStroke` answers after one round of its loop, whatever the board reads. The
  -- answer is a whole key, or `EFI_NOT_READY` with the queue empty, or `EFI_DEVICE_ERROR` with the
  -- driver in the error state.
  pub init_keypad-AllServed :
      (nows : List ℕ) (c : ConsoleIn (Device S))
      → length c.keypad_device.keys ≡ 7
      → length c.efi_key_queue.buffer ≡ max_count
      → AllServed (init_keypad (device_platform b time) c) nows
  init_keypad-AllServed nows c n slots = calls-AllServed nows _ (init_keypad-IsServing c n slots)
