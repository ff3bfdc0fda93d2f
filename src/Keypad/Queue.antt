-- ===== src/Keypad/Queue.antt =====
-- The EFI key buffer of QSD8250Pkg/Drivers/KeypadDxe: a ring of 256 slots in which one stays free.
pub mod Spec
pub mod Refine
use msm8909pkg.Base.{
  ℕ, ◌+◌, ◌-◌, ◌%◌, Bool, Option, none, List, if◌then◌else◌, ◌==◌, get_elem?, set,
}
use msm8909pkg.Keypad.Data.{KeyData, Status, success, not_ready}

-- `KEYPAD_EFI_KEY_MAX_COUNT`
abbrev pub max_count : ℕ
max_count = 256

-- `EFI_KEY_QUEUE`
pub record KeyQueue : Type 0 where
  pub buffer : List KeyData
  pub head : ℕ
  pub tail : ℕ

unfoldable pub is_efikey_buf_empty : KeyQueue → Bool
is_efikey_buf_empty q = q.head == q.tail

-- The option is what goes through `KeyData`: `none` where nothing is copied.
unfoldable pub pop_efikey_buf_head : KeyQueue → Status × Option KeyData × KeyQueue
unfolding is_efikey_buf_empty
pop_efikey_buf_head q =
    if is_efikey_buf_empty q
    then (not_ready, none, q)
    else (success, get_elem? q.buffer q.head, record q { head = (q.head + 1) % max_count })

-- The write at the tail, after the room for it has been made.
abbrev store_tail : KeyQueue → KeyData → KeyQueue
store_tail q k = record q { buffer = set q.buffer q.tail k; tail = (q.tail + 1) % max_count }

unfoldable pub push_efikey_buf_tail : KeyQueue → KeyData → KeyQueue
unfolding pop_efikey_buf_head
push_efikey_buf_tail q k =
    if (q.tail + 1) % max_count == q.head
    then store_tail (pop_efikey_buf_head q).2 k
    else store_tail q k
