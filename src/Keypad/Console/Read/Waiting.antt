-- ===== src/Keypad/Console/Read/Waiting.antt =====
-- The event of `KeypadWaitForKey`.
use msm8909pkg.Base.{
  ℕ, zero, suc, ◌<◌, ◌≡◌, refl, ap, sym, ◌∙◌, Bool, true, false, List, [], ◌∷◌, if◌then◌else◌,
  arith, Bool-cases, inl, inr, length, get_or,
}
use msm8909pkg.Keypad.Data.{KeyData, is_partial_key, zero_key}
use msm8909pkg.Keypad.Queue.{KeyQueue, is_efikey_buf_empty, pop_efikey_buf_head}
use msm8909pkg.Keypad.Queue.Spec.{drop_first}
use msm8909pkg.Keypad.Queue.Refine.{
  IsValid, contents, pop-IsValid, contents_of_empty, contents_of_nonempty, length-contents,
}
use msm8909pkg.Keypad.Console.{Platform, ConsoleIn, timer_handler}
use msm8909pkg.Keypad.Console.Read.{skip_partial, wait_for_key}
use msm8909pkg.Keypad.Console.Pushed.{push_all_kept, polled, timer_handler-Received}

-- The keys without the partial keystrokes in front.
abbrev pub drop_partial : List KeyData → List KeyData
drop_partial [] = []
drop_partial (k ∷ ks) = if is_partial_key k then drop_partial ks else k ∷ ks

-- Whether a key is left.
abbrev pub any_left : List KeyData → Bool
any_left [] = false
any_left (k ∷ ks) = true

abbrev Skips : KeyQueue → List KeyData → Bool × KeyQueue → Type 0
Skips q ks (signal, q') =
    (signal ≡ any_left (drop_partial ks)) × (contents q' ≡ drop_partial ks) × IsValid q'

module _ (fuel : ℕ) (q : KeyQueue) where
  skip_empty : is_efikey_buf_empty q ≡ true → skip_partial (suc fuel) q ≡ (false, q)
  unfolding skip_partial
  skip_empty e = rw e

  skip_more :
      is_efikey_buf_empty q ≡ false
      → skip_partial (suc fuel) q ≡ (
          if is_partial_key (get_or q.buffer q.head zero_key)
          then skip_partial fuel (pop_efikey_buf_head q).2
          else (true, q))
  unfolding skip_partial
  skip_more e = rw e

skip_partial-Skips :
    (fuel : ℕ) (ks : List KeyData) (q : KeyQueue)
    → IsValid q
    → contents q ≡ ks
    → length ks < fuel
    → Skips q ks (skip_partial fuel q)
skip_partial-Skips zero ks q v e h = absurd (omega arith)
skip_partial-Skips (suc fuel) [] q v e h = elim (Bool-cases (is_efikey_buf_empty q)) [
  | inl empty ↦ rw (skip_empty fuel q empty) (refl, e, v)
  | inr more ↦ cc (contents_of_nonempty q v more)
]
skip_partial-Skips (suc fuel) (k ∷ ks) q v e h = elim (Bool-cases (is_efikey_buf_empty q)) [
  | inl empty ↦ cc (contents_of_empty q v empty)
  | inr more ↦
      let both = sym (contents_of_nonempty q v more) ∙ e in
      let first : get_or q.buffer q.head zero_key ≡ k = ap (λ l. get_or l 0 zero_key) both in
      rw (skip_more fuel q more, first)
        (elim (Bool-cases (is_partial_key k)) [
          | inl part ↦ rw part (
              skip_partial-Skips fuel ks (pop_efikey_buf_head q).2 (pop-IsValid v)
                (ap drop_first both) (omega arith))
          | inr whole ↦ rw whole (refl, e, v)
        ])
]

-- `KeypadWaitForKey` on a driver in no error state signals its event exactly when, after the poll,
-- a key that is no partial keystroke is in the queue. It removes the partial keystrokes in front of
-- that key (or all, if there is none), and nothing else.
pub wait_for_key_lem :
    {D : Type 0} (p : Platform D) (now : ℕ) (c : ConsoleIn D)
    → c.keypad_err ≡ false
    → IsValid c.efi_key_queue
    → let keys =
        push_all_kept c.is_support_partial_key (contents c.efi_key_queue) (polled p now c) in
      let (signal, c') = wait_for_key p now c in
      (signal ≡ any_left (drop_partial keys)) × (contents c'.efi_key_queue ≡ drop_partial keys)
unfolding wait_for_key
wait_for_key_lem p now c ok v =
    let ((err, _, _), v', keys) = timer_handler-Received p now c ok v in
    let q = (timer_handler p now c).efi_key_queue in
    let few : length (contents q) < 256 = omega (arith, length-contents q) in
    let (signal, left, _) = skip_partial-Skips 256 (contents q) q v' refl few in
    rw (err ∙ ok, ← keys) (signal, left)
