-- ===== src/Keypad/Console/Pushed.antt =====
-- What the pushes of a poll do to the key queue.
use msm8909pkg.Base.{
  ℕ, ◌+◌, ◌-◌, ◌%◌, ◌^◌, ◌≡◌, refl, ap₂, ◌∙◌, Bool, false, not, ◌&&◌, List, [], ◌∷◌, if◌then◌else◌,
  Bool-cases, inl, inr, if_both,
}
use msm8909pkg.Keypad.Data.{KeyData, is_partial_key}
use msm8909pkg.Keypad.Queue.{push_efikey_buf_tail}
use msm8909pkg.Keypad.Queue.Spec
use msm8909pkg.Keypad.Queue.Refine.{IsValid, contents, push-IsValid, push_refines}
use msm8909pkg.Keypad.Console.{
  Notify, Platform, ConsoleIn, is_key_registered, queue_notifications, return_api_push, push_all,
  timer_handler,
}

-- The parts of the state that a poll's pushes leave alone.
abbrev pub SameMode : {D : Type 0} → ConsoleIn D → ConsoleIn D → Type 0
SameMode c c' =
    (c'.keypad_err ≡ c.keypad_err)
    × (c'.is_support_partial_key ≡ c.is_support_partial_key)
    × (c'.notify_list ≡ c.notify_list)

-- Notifications go to their own queue.
queue_notifications-same :
    {D : Type 0} (ns : List Notify) (k : KeyData) (c : ConsoleIn D)
    → SameMode c (queue_notifications ns k c)
      × ((queue_notifications ns k c).efi_key_queue ≡ c.efi_key_queue)
      × ((queue_notifications ns k c).keypad_device ≡ c.keypad_device)
unfolding queue_notifications
queue_notifications-same [] k c = ((refl, refl, refl), refl, refl)
queue_notifications-same (n ∷ ns) k c = elim (Bool-cases (is_key_registered n.key_data k)) [
  | inl e ↦
      rw (e, queue_notifications)
        (queue_notifications-same ns k (record c {
          efi_key_queue_for_notify = push_efikey_buf_tail c.efi_key_queue_for_notify k;
          signals = c.signals + 1;
        }))
  | inr e ↦ rw (e, queue_notifications) (queue_notifications-same ns k c)
]

-- The queue as a list after a push: a partial keystroke is kept only where the driver supports it.
abbrev pub push_kept : Bool → List KeyData → KeyData → List KeyData
push_kept support ks k = if is_partial_key k && not support then ks else Spec.push ks k

abbrev pub push_all_kept : Bool → List KeyData → List KeyData → List KeyData
push_all_kept support ks [] = ks
push_all_kept support ks (k ∷ new) = push_all_kept support (push_kept support ks k) new

-- What a run of pushes promises.
abbrev pub Received : {D : Type 0} → ConsoleIn D → List KeyData → ConsoleIn D → Type 0
Received c ks c' = SameMode c c' × IsValid c'.efi_key_queue × (contents c'.efi_key_queue ≡ ks)

stored :
    {D : Type 0} (k : KeyData) (c c' : ConsoleIn D)
    → SameMode c c'
    → IsValid c.efi_key_queue
    → c'.efi_key_queue ≡ c.efi_key_queue
    → Received c
        (Spec.push (contents c.efi_key_queue) k)
        (record c' { efi_key_queue = push_efikey_buf_tail c'.efi_key_queue k })
stored k c c' same v e = (same, rw e (push-IsValid v k), rw e (push_refines v k))

return_api_push-Received :
    {D : Type 0} (k : KeyData) (c : ConsoleIn D)
    → IsValid c.efi_key_queue
    → Received c
        (push_kept c.is_support_partial_key (contents c.efi_key_queue) k)
        (return_api_push k c)
unfolding return_api_push
return_api_push-Received k c v =
    elim (Bool-cases (is_partial_key k && not c.is_support_partial_key)) [
      | inl e ↦ rw e ((refl, refl, refl), v, refl)
      | inr e ↦
          let (same, q, _) = queue_notifications-same c.notify_list k c in
          rw e (stored k c (queue_notifications c.notify_list k c) same v q)
    ]

push_all-Received :
    {D : Type 0} (new : List KeyData) (c : ConsoleIn D)
    → IsValid c.efi_key_queue
    → Received c
        (push_all_kept c.is_support_partial_key (contents c.efi_key_queue) new)
        (push_all new c)
unfolding push_all
push_all-Received [] c v = ((refl, refl, refl), v, refl)
push_all-Received (k ∷ new) c v =
    let ((err, partial, list), v', keys) = return_api_push-Received k c v in
    let ((err', partial', list'), v'', keys') = push_all-Received new (return_api_push k c) v' in
    (
      (err' ∙ err, partial' ∙ partial, list' ∙ list),
      v'',
      keys' ∙ ap₂ (λ b ks. push_all_kept b ks new) partial keys,
    )

-- The keys of the device at a poll.
abbrev pub polled : {D : Type 0} → Platform D → ℕ → ConsoleIn D → List KeyData
polled p now c =
    (p.get_keys c.keypad_device (p.get_time_in_nano_second ((now + 2 ^ 64 - c.last) % 2 ^ 64))).1

-- A poll of a driver in no error state adds the keys that the device pushes to the key queue, in
-- their order, with the oldest keys making room; partial keystrokes are left out unless the driver
-- supports them. The queue's indices stay in range, and the mode of the driver stays as it is.
pub timer_handler-Received :
    {D : Type 0} (p : Platform D) (now : ℕ) (c : ConsoleIn D)
    → c.keypad_err ≡ false
    → IsValid c.efi_key_queue
    → Received c
        (push_all_kept c.is_support_partial_key (contents c.efi_key_queue) (polled p now c))
        (timer_handler p now c)
unfolding timer_handler
timer_handler-Received p now c ok v = rw ok (push_all-Received (polled p now c) _ v)

return_api_push-keypad_device :
    {D : Type 0} (k : KeyData) (c : ConsoleIn D)
    → (return_api_push k c).keypad_device ≡ c.keypad_device
unfolding return_api_push
return_api_push-keypad_device {D} k c =
    if_both {A = ConsoleIn D} (λ r. r.keypad_device ≡ c.keypad_device)
      (is_partial_key k && not c.is_support_partial_key) refl
      (queue_notifications-same c.notify_list k c).2

push_all-keypad_device :
    {D : Type 0} (new : List KeyData) (c : ConsoleIn D)
    → (push_all new c).keypad_device ≡ c.keypad_device
unfolding push_all
push_all-keypad_device [] c = refl
push_all-keypad_device (k ∷ new) c =
    push_all-keypad_device new (return_api_push k c) ∙ return_api_push-keypad_device k c

-- After a poll the driver has the device that the poll leaves.
pub timer_handler-keypad_device :
    {D : Type 0} (p : Platform D) (now : ℕ) (c : ConsoleIn D)
    → c.keypad_err ≡ false
    → (timer_handler p now c).keypad_device
      ≡ (p.get_keys c.keypad_device
          (p.get_time_in_nano_second ((now + 2 ^ 64 - c.last) % 2 ^ 64))).0
unfolding timer_handler
timer_handler-keypad_device p now c ok = rw ok (push_all-keypad_device _ _)
