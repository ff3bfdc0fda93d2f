-- ===== src/Keypad/Console/Registry/Delivery.antt =====
-- From a key to the calls of the notification functions.
use msm8909pkg.Base.{
  ℕ, zero, suc, ◌+◌, ◌*◌, ◌≤◌, ◌<◌, ◌≡◌, ◌≢◌, refl, ap, sym, ◌∙◌, Option, none, some, List, [], ◌∷◌,
  ◌++◌, if◌then◌else◌, arith, Bool-cases, inl, inr, length, length-append, length-replicate,
  replicate, map, ap₂,
}
use mathlib.Core.List.{append-nil, append_assoc}
use msm8909pkg.Keypad.Data.{KeyData, Status}
use msm8909pkg.Keypad.Queue.{KeyQueue, pop_efikey_buf_head, push_efikey_buf_tail}
use msm8909pkg.Keypad.Queue.Spec
use msm8909pkg.Keypad.Queue.Refine.{
  IsValid, contents, pop-IsValid, pop_refines, push-IsValid, push_refines,
}
use msm8909pkg.Keypad.Console.{Notify, ConsoleIn, is_key_registered, queue_notifications}
use msm8909pkg.Keypad.Console.Registry.{Call, notify_matching, after_pop, drain_notifications}

-- The registered entries that match a key.
abbrev pub matching : List Notify → KeyData → List Notify
matching [] k = []
matching (n ∷ ns) k = if is_key_registered n.key_data k then n ∷ matching ns k else matching ns k

abbrev pub call_of : KeyData → Notify → Call
call_of k n = (n.key_notification_fn, k)

-- The calls for the waiting keys: for each key in turn, the function of each entry that matches it.
abbrev pub calls_for : List Notify → List KeyData → List Call
calls_for ns [] = []
calls_for ns (k ∷ ks) = map (call_of k) (matching ns k) ++ calls_for ns ks

notify_matching_lem :
    (ns : List Notify) (k : KeyData) → notify_matching ns k ≡ map (call_of k) (matching ns k)
unfolding notify_matching
notify_matching_lem [] k = refl
notify_matching_lem (n ∷ ns) k = elim (Bool-cases (is_key_registered n.key_data k)) [
  | inl e ↦ rw e (ap (λ l. (n.key_notification_fn, k) ∷ l) (notify_matching_lem ns k))
  | inr e ↦ rw e (notify_matching_lem ns k)
]

-- The loop has ended with the calls for all the keys and an empty queue.
abbrev pub Drained : List Notify → List KeyData → Option (List Call × KeyQueue) → Type 0
Drained ns ks none = ⊥
Drained ns ks (some (calls, q)) = (calls ≡ calls_for ns ks) × (contents q ≡ [])

after_pop-Drained :
    (ns : List Notify) (ks : List KeyData) (s : Status) (out : Option KeyData) (q : KeyQueue)
    (again : KeyQueue → Option (List Call × KeyQueue))
    → (s, out, contents q) ≡ Spec.pop ks
    → ((contents q ≡ Spec.drop_first ks) → ks ≢ [] → Drained ns (Spec.drop_first ks) (again q))
    → Drained ns ks (after_pop ns (s, out, q) again)
unfolding after_pop Spec.pop
after_pop-Drained ns [] s out q again e more = rw (ap (λ t. t.0) e) (refl, ap (λ t. t.2) e)
after_pop-Drained ns (k ∷ ks) s out q again e more =
    rw (ap (λ t. t.0) e, ap (λ t. t.1) e) (extend (again q) (more (ap (λ t. t.2) e) (λ z. cc)))
  where
    extend :
        (o : Option (List Call × KeyQueue))
        → Drained ns ks o
        → Drained ns
            (k ∷ ks)
            (elim o [ none ↦ none | some (calls, q') ↦ some (notify_matching ns k ++ calls, q') ])
    extend none d = d
    extend (some (calls, q')) (e', z) = (ap₂ (λ l l'. l ++ l') (notify_matching_lem ns k) e', z)

length-drop_first : (ks : List KeyData) → ks ≢ [] → suc (length (Spec.drop_first ks)) ≡ length ks
length-drop_first [] ne = absurd (ne refl)
length-drop_first (k ∷ ks) ne = refl

-- `KeyNotifyProcessHandler` ends on fuel above the number of waiting keys (255 at most). It calls,
-- for each waiting key in turn, the function of every registered entry that matches the key, and
-- leaves the queue empty.
pub drain_notifications-Drained :
    (fuel : ℕ) (ns : List Notify) (q : KeyQueue)
    → IsValid q
    → length (contents q) < fuel
    → Drained ns (contents q) (drain_notifications fuel ns q)
unfolding drain_notifications
drain_notifications-Drained zero ns q v h = absurd (omega arith)
drain_notifications-Drained (suc fuel) ns q v h =
    after_pop-Drained ns (contents q) _ _ _ (drain_notifications fuel ns) (pop_refines v)
      λ rest some_left. rw (← rest) (
        drain_notifications-Drained fuel ns (pop_efikey_buf_head q).2 (pop-IsValid v)
          (omega (arith, ap length rest, length-drop_first (contents q) some_left)))

-- How many registered entries match a key.
abbrev pub matches : List Notify → KeyData → ℕ
matches [] k = 0
matches (n ∷ ns) k = if is_key_registered n.key_data k then suc (matches ns k) else matches ns k

length-matching :
    (ns : List Notify) (k : KeyData) → length (map (call_of k) (matching ns k)) ≡ matches ns k
length-matching [] k = refl
length-matching (n ∷ ns) k = elim (Bool-cases (is_key_registered n.key_data k)) [
  | inl e ↦ rw e (ap suc (length-matching ns k))
  | inr e ↦ rw e (length-matching ns k)
]

length-calls_for-replicate :
    (ns : List Notify) (k : KeyData) (m : ℕ)
    → length (calls_for ns (replicate m k)) ≡ m * matches ns k
length-calls_for-replicate ns k zero = omega arith
length-calls_for-replicate ns k (suc m) = omega (
  arith,
  length-append (map (call_of k) (matching ns k)) (calls_for ns (replicate m k)),
  length-matching ns k,
  length-calls_for-replicate ns k m,
)

push_with_room :
    (q : KeyQueue) (k : KeyData)
    → IsValid q
    → length (contents q) < 255
    → contents (push_efikey_buf_tail q k) ≡ contents q ++ (k ∷ [])
unfolding Spec.push
push_with_room q k v h = push_refines v k ∙ ground arith

-- The notification queue after a key: one entry for each registered entry that matches.
queue_notifications-contents :
    {D : Type 0} (ns : List Notify) (k : KeyData) (c : ConsoleIn D)
    → IsValid c.efi_key_queue_for_notify
    → length (contents c.efi_key_queue_for_notify) + matches ns k ≤ 255
    → let q = (queue_notifications ns k c).efi_key_queue_for_notify in
      IsValid q × (contents q ≡ contents c.efi_key_queue_for_notify ++ replicate (matches ns k) k)
unfolding queue_notifications
queue_notifications-contents [] k c v h =
    (v, sym (append-nil (contents c.efi_key_queue_for_notify)))
queue_notifications-contents (n ∷ ns) k c v h = elim (Bool-cases (is_key_registered n.key_data k)) [
  | inl e ↦
      let h' : suc (length (contents c.efi_key_queue_for_notify) + matches ns k) ≤ 255 =
        omega (arith, rw e at h) in
      let c' = record c {
        efi_key_queue_for_notify = push_efikey_buf_tail c.efi_key_queue_for_notify k;
        signals = c.signals + 1;
      } in
      let one : contents c'.efi_key_queue_for_notify
          ≡ contents c.efi_key_queue_for_notify ++ (k ∷ []) =
        push_with_room c.efi_key_queue_for_notify k v (omega arith) in
      let (v', all) =
        queue_notifications-contents ns k c' (push-IsValid v k)
          (rw (one, length-append (contents c.efi_key_queue_for_notify) (k ∷ [])) (omega arith)) in
      rw (e, queue_notifications)
        (
          v',
          all
              ∙ ap (λ l. l ++ replicate (matches ns k) k) one
              ∙ append_assoc (contents c.efi_key_queue_for_notify) (k ∷ [])
                  (replicate (matches ns k) k),
        )
  | inr e ↦ rw (e, queue_notifications) (queue_notifications-contents ns k c v (rw e at h))
]

-- A key that matches `m` registered entries, at most 255, while no notification waits is queued `m`
-- times, and `KeyNotifyProcessHandler` then makes `m * m` calls: each of the `m` entries is called
-- `m` times for one key.
pub calls_squared :
    {D : Type 0} (k : KeyData) (c : ConsoleIn D)
    → IsValid c.efi_key_queue_for_notify
    → contents c.efi_key_queue_for_notify ≡ []
    → matches c.notify_list k ≤ 255
    → let q = (queue_notifications c.notify_list k c).efi_key_queue_for_notify in
      (calls : List Call) × (q' : KeyQueue) × (drain_notifications 256 c.notify_list q
        ≡ some (calls, q'))
      × (length calls ≡ matches c.notify_list k * matches c.notify_list k)
calls_squared k c v empty few =
    let (v', all) = queue_notifications-contents c.notify_list k c v (rw empty (omega arith)) in
    let q = (queue_notifications c.notify_list k c).efi_key_queue_for_notify in
    let copies : contents q ≡ replicate (matches c.notify_list k) k =
      all ∙ ap (λ l. l ++ replicate (matches c.notify_list k) k) empty in
    taken (drain_notifications 256 c.notify_list q) (
      rw copies at (
        drain_notifications-Drained 256 c.notify_list q v'
          (rw (copies, length-replicate (matches c.notify_list k) k) (omega arith))))
  where
    taken :
        (o : Option (List Call × KeyQueue))
        → Drained c.notify_list (replicate (matches c.notify_list k) k) o
        → (calls : List Call) × (q' : KeyQueue) × (o ≡ some (calls, q'))
          × (length calls ≡ matches c.notify_list k * matches c.notify_list k)
    taken none d = absurd d
    taken (some (calls, q')) (e, z) = (
      calls,
      q',
      refl,
      ap length e ∙ length-calls_for-replicate c.notify_list k (matches c.notify_list k),
    )
