-- ===== src/Keypad/Console/Registry.antt =====
-- The registered notifications of QSD8250Pkg/Drivers/KeypadDxe/KeypadTextIn.c, and the release of
-- the list in Keypad.c.
pub mod Handles
pub mod Delivery
use msm8909pkg.Base.{
  ℕ, zero, suc, ◌+◌, Bool, true, false, not, ◌&&◌, ◌||◌, Option, none, some, List, [], ◌∷◌, ◌++◌,
  if◌then◌else◌, ◌==◌,
}
use msm8909pkg.Keypad.Data.{
  KeyData, Status, success, not_ready, invalid_parameter, out_of_resources,
}
use msm8909pkg.Keypad.Queue.{KeyQueue, pop_efikey_buf_head}
use msm8909pkg.Keypad.Console.{Notify, ConsoleIn, is_key_registered}

-- The first entry that matches the key and has the function.
unfoldable pub find_registered : List Notify → KeyData → ℕ → Option ℕ
find_registered [] k fn = none
find_registered (n ∷ ns) k fn =
    if is_key_registered n.key_data k && (n.key_notification_fn == fn)
    then some n.handle
    else find_registered ns k fn

-- An entry at the end of the list, if `AllocateZeroPool` gives an address.
add_notify : {D : Type 0} → Option ℕ → KeyData → ℕ → ConsoleIn D → Status × Option ℕ × ConsoleIn D
add_notify none k fn c = (out_of_resources, none, c)
add_notify (some h) k fn c =
    let n : Notify = record { handle = h; key_data = k; key_notification_fn = fn } in
    (success, some h, record c { notify_list = c.notify_list ++ (n ∷ []) })

use_registered :
    {D : Type 0}
    → Option ℕ
    → Status × Option ℕ × ConsoleIn D
    → ConsoleIn D
    → Status × Option ℕ × ConsoleIn D
use_registered none added c = added
use_registered (some h) added c = (success, some h, c)

-- `KeypadRegisterKeyNotify`. The pointers that may be NULL are options (the place of the handle is a
-- Boolean), and `pool` is what `AllocateZeroPool` returns.
unfoldable pub register_key_notify :
    {D : Type 0}
    → Option ℕ
    → Option KeyData
    → Option ℕ
    → Bool
    → ConsoleIn D
    → Status × Option ℕ × ConsoleIn D
unfolding add_notify use_registered
register_key_notify pool (some k) (some fn) true c =
    use_registered (find_registered c.notify_list k fn) (add_notify pool k fn c) c
register_key_notify pool k fn room c = (invalid_parameter, none, c)

-- `RemoveEntryList` at the entry with the handle; `none` if there is none.
pub remove_notify : List Notify → ℕ → Option (List Notify)
remove_notify [] h = none
remove_notify (n ∷ ns) h =
    if n.handle == h
    then some ns
    else elim (remove_notify ns h) [ none ↦ none | some ms ↦ some (n ∷ ms) ]

-- The state after the search for the entry.
after_remove : {D : Type 0} → Option (List Notify) → ConsoleIn D → Status × ConsoleIn D
after_remove none c = (invalid_parameter, c)
after_remove (some ns) c = (success, record c { notify_list = ns })

-- `KeypadUnregisterKeyNotify`; the handle may be NULL.
pub unregister_key_notify : {D : Type 0} → Option ℕ → ConsoleIn D → Status × ConsoleIn D
unfolding after_remove
unregister_key_notify none c = (invalid_parameter, c)
unregister_key_notify (some h) c = after_remove (remove_notify c.notify_list h) c

-- A call of a notification function.
abbrev pub Call : Type 0
Call = ℕ × KeyData

-- The inner loop of `KeyNotifyProcessHandler`: a call for each entry that matches.
pub notify_matching : List Notify → KeyData → List Call
notify_matching [] k = []
notify_matching (n ∷ ns) k =
    if is_key_registered n.key_data k
    then (n.key_notification_fn, k) ∷ notify_matching ns k
    else notify_matching ns k

-- What a round of the outer loop does with the pop's result; `again` is the next round.
after_pop :
    List Notify
    → Status × Option KeyData × KeyQueue
    → (KeyQueue → Option (List Call × KeyQueue))
    → Option (List Call × KeyQueue)
after_pop ns (success, some k, q) again = elim (again q) [
  | none ↦ none
  | some (calls, q') ↦ some (notify_matching ns k ++ calls, q')
]
after_pop ns (s, out, q) again = some ([], q)

-- The outer loop, on fuel: `none` means that the fuel ran out.
pub drain_notifications : ℕ → List Notify → KeyQueue → Option (List Call × KeyQueue)
unfolding after_pop
drain_notifications zero ns q = none
drain_notifications (suc fuel) ns q =
    after_pop ns (pop_efikey_buf_head q) (drain_notifications fuel ns)

-- `KbdFreeNotifyList` on a list that is there: the addresses that are freed, in order.
pub kbd_free_notify_list : List Notify → List ℕ
kbd_free_notify_list [] = []
kbd_free_notify_list (n ∷ ns) = n.handle ∷ kbd_free_notify_list ns
