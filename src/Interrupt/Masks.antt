-- ===== src/Interrupt/Masks.antt =====
-- Which interrupt a source's mask bit belongs to, and the shutdown.
use msm8909pkg.Base.{
  ℕ, zero, suc, ◌+◌, ◌%◌, ◌^◌, ◌≤◌, ◌<◌, ◌≡◌, ◌≢◌, refl, ap, sym, ◌∙◌, false, List, [], ◌∷◌, ◌++◌,
  arith, if◌then◌else◌, ltb,
}
use mathlib.Core.List.{append_assoc, append-nil}
use msm8909pkg.Base.Bits.{pow_lt_pow}
use native.Mathlib.Decide.{dec_lt}
use msm8909pkg.Interrupt.{
  Event, write, Vic, success, nr_irqs, bank_reg, source_bit, vic_int_enclear0, vic_int_enclear1,
  disable_interrupt_source, deinit_interrupts, disable_from, exit_boot_services_event,
}

pow_injective : (a b : ℕ) → 2 ^ a ≡ 2 ^ b → a ≡ b
pow_injective a b e = elim (dec_lt a b) [
  | yes h ↦ absurd (omega (arith, pow_lt_pow a b h))
  | no h ↦ elim (dec_lt b a) [
    | yes g ↦ absurd (omega (arith, pow_lt_pow b a g))
    | no g ↦ omega arith
  ]
]

abbrev address : Event → ℕ
address (write a w) = a
address _ = 0

abbrev word : Event → ℕ
word (write a w) = w
word _ = 0

-- The write that masks a source.
abbrev pub mask : ℕ → Event
mask source = write (bank_reg source vic_int_enclear0 vic_int_enclear1) (source_bit source)

mask_injective : (s t : ℕ) → s < 64 → t < 64 → mask s ≡ mask t → s ≡ t
mask_injective s t hs ht e =
    let low : s % 32 ≡ t % 32 = pow_injective (s % 32) (t % 32) (ap word e) in
    let bank : (if ltb 31 s then vic_int_enclear1 else vic_int_enclear0)
        ≡ (if ltb 31 t then vic_int_enclear1 else vic_int_enclear0) =
      ap address e in
    ground arith

disable_at :
    (s : ℕ) (v : Vic)
    → s ≤ nr_irqs
    → disable_interrupt_source s v ≡ (success, record v { events = v.events ++ (mask s ∷ []) })
unfolding disable_interrupt_source
disable_at s v h = let small : ltb nr_irqs s ≡ false = ground arith in rw small

last_event : Event → List Event → Event
last_event e [] = e
last_event e (x ∷ xs) = last_event x xs

last_event-append : (e x : Event) (xs : List Event) → last_event e (xs ++ (x ∷ [])) ≡ x
unfolding last_event
last_event-append e x [] = refl
last_event-append e x (y ∷ ys) = last_event-append y x ys

mask_alias : (s : ℕ) → 64 ≤ s → mask s ≡ mask (32 + s % 32)
mask_alias s h = let bit : (32 + s % 32) % 32 ≡ s % 32 = omega arith in rw bit (ground arith)

disabled_last :
    (s : ℕ) (v : Vic)
    → s ≤ nr_irqs
    → last_event (mask 0) (disable_interrupt_source s v).1.events ≡ mask s
disabled_last s v h = rw (disable_at s v h) (last_event-append (mask 0) (mask s) v.events)

-- `DisableInterruptSource` on different sources below 64 does different things.
pub disable_distinct :
    (s t : ℕ) (v : Vic)
    → s < 64
    → t < 64
    → s ≢ t
    → disable_interrupt_source s v ≢ disable_interrupt_source t v
disable_distinct s t v hs ht apart = λ e. apart (
    mask_injective s t hs ht (
      sym (disabled_last s v (omega arith))
      ∙ ap (λ r. last_event (mask 0) r.1.events) e
      ∙ disabled_last t v (omega arith)))

-- From 64 to the number of interrupts, which its guard lets pass, `DisableInterruptSource` does what
-- it does for another source: the one from 32 to 63 that has the same low five bits.
pub disable_aliases :
    (s : ℕ) (v : Vic)
    → s ≤ nr_irqs
    → 64 ≤ s
    → disable_interrupt_source s v ≡ disable_interrupt_source (32 + s % 32) v
disable_aliases s v hs h =
    disable_at s v hs
    ∙ ap (λ w. (success, record v { events = v.events ++ (w ∷ []) })) (mask_alias s h)
    ∙ sym (disable_at (32 + s % 32) v (omega arith))

-- The masks of the sources from `index` on.
abbrev pub masks : ℕ → ℕ → List Event
masks zero index = []
masks (suc left) index = mask index ∷ masks left (index + 1)

disable_from_lem :
    (left index : ℕ) (v : Vic)
    → left + index ≤ nr_irqs
    → disable_from left index v ≡ record v { events = v.events ++ masks left index }
unfolding disable_from
disable_from_lem zero index v h = ap (λ es. record v { events = es }) (sym (append-nil v.events))
disable_from_lem (suc left) index v h = rw (disable_at index v (omega arith)) (
    disable_from_lem left (index + 1) (record v { events = v.events ++ (mask index ∷ []) })
      (omega arith)
    ∙ ap (λ es. record v { events = es })
        (append_assoc v.events (mask index ∷ []) (masks left (index + 1))))

-- At the end of the boot services every source of the table is masked, in order, with its guard
-- never in the way; then the controller is shut down, the master enable first. The table of handlers
-- stays.
pub exit_boot_services_lem :
    (v : Vic)
    → exit_boot_services_event v
      ≡ record v { events = (v.events ++ masks nr_irqs 0) ++ deinit_interrupts }
unfolding exit_boot_services_event
exit_boot_services_lem v =
    ap (λ (v' : Vic). record v' { events = v'.events ++ deinit_interrupts })
      (disable_from_lem nr_irqs 0 v (omega arith))
