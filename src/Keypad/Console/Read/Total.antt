-- ===== src/Keypad/Console/Read/Total.antt =====
-- `KeypadReadKeyStroke` ends, and what it answers.
use msm8909pkg.Base.{
  ℕ, ◌+◌, ◌≤◌, ◌<◌, ◌≡◌, refl, ap, ◌∙◌, true, false, Option, none, some, List, [], ◌∷◌, ◌++◌,
  if◌then◌else◌, arith, Bool-cases, inl, inr, length,
}
use msm8909pkg.Keypad.Data.{KeyData, Status, success, not_ready, device_error, is_partial_key}
use msm8909pkg.Keypad.Queue.{pop_efikey_buf_head}
use msm8909pkg.Keypad.Queue.Spec
use msm8909pkg.Keypad.Queue.Refine.{IsValid, contents, pop-IsValid, pop_refines}
use msm8909pkg.Keypad.Console.{Platform, ConsoleIn, timer_handler}
use msm8909pkg.Keypad.Console.Read.{
  InputKey, translate_control, read_key_stroke_worker, after_worker, read_key_stroke,
}
use msm8909pkg.Keypad.Console.Pushed.{push_kept, push_all_kept, polled, timer_handler-Received}

-- The number of partial keystrokes in a queue.
abbrev pub partials : List KeyData → ℕ
partials [] = 0
partials (k ∷ ks) = (if is_partial_key k then 1 else 0) + partials ks

partials-append : (ks ms : List KeyData) → partials (ks ++ ms) ≡ partials ks + partials ms
partials-append [] ms = omega arith
partials-append (k ∷ ks) ms = omega (arith, partials-append ks ms)

partials-drop_first : (ks : List KeyData) → partials (Spec.drop_first ks) ≤ partials ks
partials-drop_first [] = omega arith
partials-drop_first (k ∷ ks) = omega arith

-- A driver that does not support partial keystrokes queues no more of them.
partials-push_kept :
    (ks : List KeyData) (k : KeyData) → partials (push_kept false ks k) ≤ partials ks
unfolding Spec.push
partials-push_kept ks k = ground (
  arith,
  partials-append ks (k ∷ []),
  partials-append (Spec.drop_first ks) (k ∷ []),
  partials-drop_first ks,
)

partials-push_all_kept :
    (new ks : List KeyData) → partials (push_all_kept false ks new) ≤ partials ks
partials-push_all_kept [] ks = omega arith
partials-push_all_kept (k ∷ new) ks =
    omega (arith, partials-push_kept ks k, partials-push_all_kept new (push_kept false ks k))

-- What the caller of `KeypadReadKeyStroke` may get: a key that is no partial keystroke; no key,
-- with the queue empty; or a device error, with the driver in the error state.
abbrev pub Answers : {D : Type 0} → Status × Option InputKey × ConsoleIn D → Type 0
Answers (success, some (s, u), c) = ¬ ((s ≡ 0) × (u ≡ 0))
Answers (success, none, c) = ⊥
Answers (not_ready, none, c) = contents c.efi_key_queue ≡ []
Answers (not_ready, some k, c) = ⊥
Answers (device_error, out, c) = (out ≡ none) × (c.keypad_err ≡ true)
Answers (s, out, c) = ⊥

abbrev pub Finishes : {D : Type 0} → Option (Status × Option InputKey × ConsoleIn D) → Type 0
Finishes {D} o = (r : Status × Option InputKey × ConsoleIn D) × (o ≡ some r) × Answers r

translate_control-whole :
    (k : KeyData)
    → is_partial_key k ≡ false
    → ¬ (((translate_control k).scan_code ≡ 0) × ((translate_control k).unicode_char ≡ 0))
unfolding translate_control
translate_control-whole k e h = ground arith

module _ {D : Type 0} (p : Platform D) where
  round-Finishes :
      (ks : List KeyData) (s : Status) (out : Option KeyData) (c : ConsoleIn D)
      (again : ConsoleIn D → Option (Status × Option InputKey × ConsoleIn D))
      → (s, out, contents c.efi_key_queue) ≡ Spec.pop ks
      → (partials (contents c.efi_key_queue) < partials ks → Finishes (again c))
      → Finishes (after_worker p (s, out, c) again)
  unfolding after_worker Spec.pop
  round-Finishes [] s out c again e more =
      rw (ap (λ t. t.0) e) ((not_ready, none, c), refl, ap (λ t. t.2) e)
  round-Finishes (k ∷ ks) s out c again e more =
      let rest : contents c.efi_key_queue ≡ ks = ap (λ t. t.2) e in
      rw (ap (λ t. t.0) e, ap (λ t. t.1) e)
        (elim (Bool-cases (is_partial_key k)) [
          | inl skipped ↦ rw skipped (more (rw (rest, skipped) (omega arith)))
          | inr whole ↦ rw whole (
            (
              success,
              some ((translate_control k).scan_code, (translate_control k).unicode_char),
              c,
            ),
            refl,
            translate_control-whole k whole,
          )
        ])

  timer_handler-err : (now : ℕ) (c : ConsoleIn D) → c.keypad_err ≡ true → timer_handler p now c ≡ c
  unfolding timer_handler
  timer_handler-err now c e = rw e

  worker-err :
      (now : ℕ) (c : ConsoleIn D)
      → c.keypad_err ≡ true
      → read_key_stroke_worker p true now c ≡ (device_error, none, c)
  unfolding read_key_stroke_worker
  worker-err now c e = rw (timer_handler-err now c e, e)

  worker-pop :
      (now : ℕ) (c : ConsoleIn D)
      → (timer_handler p now c).keypad_err ≡ false
      → read_key_stroke_worker p true now c ≡ (
        (pop_efikey_buf_head (timer_handler p now c).efi_key_queue).0,
        (pop_efikey_buf_head (timer_handler p now c).efi_key_queue).1,
        record (timer_handler p now c) {
          efi_key_queue = (pop_efikey_buf_head (timer_handler p now c).efi_key_queue).2;
        },
      )
  unfolding read_key_stroke_worker
  worker-pop now c e = rw e

  -- While the driver does not support partial keystrokes, `KeypadReadKeyStroke` answers after one
  -- round more than there are partial keystrokes in the queue, or sooner, whatever keys the device
  -- pushes during the rounds; and the answer is a whole key, or `EFI_NOT_READY` with the queue empty,
  -- or `EFI_DEVICE_ERROR` with the driver in the error state.
  pub read_key_stroke-Finishes :
      (nows : List ℕ) (c : ConsoleIn D)
      → c.is_support_partial_key ≡ false
      → IsValid c.efi_key_queue
      → partials (contents c.efi_key_queue) < length nows
      → Finishes (read_key_stroke p nows c)
  unfolding read_key_stroke
  read_key_stroke-Finishes [] c off v h = absurd (omega arith)
  read_key_stroke-Finishes (now ∷ nows) c off v h = elim (Bool-cases c.keypad_err) [
    | inl bad ↦ rw (worker-err now c bad) ((device_error, none, c), refl, (refl, bad))
    | inr good ↦
        let ((err, partial, _), v', keys) = timer_handler-Received p now c good v in
        let c' = timer_handler p now c in
        let fewer : partials (contents c'.efi_key_queue) ≤ partials (contents c.efi_key_queue) =
          rw (keys, off) (partials-push_all_kept (polled p now c) (contents c.efi_key_queue)) in
        rw (worker-pop now c (err ∙ good)) (
          round-Finishes (contents c'.efi_key_queue) _ _ _ (read_key_stroke p nows) (pop_refines v')
            λ less. read_key_stroke-Finishes nows _ (partial ∙ off) (pop-IsValid v') (omega arith))
  ]

  -- A key that is no partial keystroke ends the loop in its round, as an empty queue does.
  round-whole :
      (ks : List KeyData) (s : Status) (out : Option KeyData) (c : ConsoleIn D)
      (again : ConsoleIn D → Option (Status × Option InputKey × ConsoleIn D))
      → (s, out, contents c.efi_key_queue) ≡ Spec.pop ks
      → partials ks ≡ 0
      → (r : Status × Option InputKey × ConsoleIn D) × (after_worker p (s, out, c) again ≡ some r)
        × Answers r
        × (r.2 ≡ c)
  unfolding after_worker Spec.pop
  round-whole [] s out c again e none_partial =
      rw (ap (λ t. t.0) e) ((not_ready, none, c), refl, ap (λ t. t.2) e, refl)
  round-whole (k ∷ ks) s out c again e none_partial =
      let whole : is_partial_key k ≡ false = ground arith in
      rw (ap (λ t. t.0) e, ap (λ t. t.1) e, whole)
        (
          (success, some ((translate_control k).scan_code, (translate_control k).unicode_char), c),
          refl,
          translate_control-whole k whole,
          refl,
        )

  -- A call of `KeypadReadKeyStroke` that finds no partial keystroke takes one round.
  pub read_key_stroke-whole :
      (now : ℕ) (c : ConsoleIn D)
      → c.keypad_err ≡ false
      → IsValid (timer_handler p now c).efi_key_queue
      → (timer_handler p now c).keypad_err ≡ false
      → partials (contents (timer_handler p now c).efi_key_queue) ≡ 0
      → let c' = timer_handler p now c in
        (r : Status × Option InputKey × ConsoleIn D) × (read_key_stroke p (now ∷ []) c ≡ some r)
        × Answers r
        × (r.2 ≡ record c' { efi_key_queue = (pop_efikey_buf_head c'.efi_key_queue).2 })
  unfolding read_key_stroke
  read_key_stroke-whole now c good v err h =
      let c' = timer_handler p now c in
      rw (worker-pop now c err)
        (round-whole (contents c'.efi_key_queue) _ _ _ (read_key_stroke p []) (pop_refines v) h)

  pub read_key_stroke-err :
      (now : ℕ) (c : ConsoleIn D)
      → c.keypad_err ≡ true
      → read_key_stroke p (now ∷ []) c ≡ some (device_error, none, c)
  unfolding read_key_stroke after_worker
  read_key_stroke-err now c bad = rw (worker-err now c bad) refl
