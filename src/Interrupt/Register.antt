-- ===== src/Interrupt/Register.antt =====
-- Registering handlers: every branch, and the edge of the table.
use msm8909pkg.Base.{
  ℕ, ◌<◌, ◌≡◌, ◌≢◌, ◌↔◌, refl, ◌∙◌, true, false, Option, none, some, [], ◌∷◌, ◌++◌, arith, ltb,
  length, get_elem?, set, get_elem?-set_self, get_elem?-set_ne, get_elem?-past, get_elem?-in,
  length-set,
}
use native.Mathlib.Decide.{dec_lt}
use msm8909pkg.Interrupt.{
  Event, write, Vic, Status, success, unsupported, invalid_parameter, already_started, nr_irqs,
  bank_reg, source_bit, vic_int_enset0, vic_int_enset1, enable_interrupt_source, check_entry,
  register_interrupt_source,
}

-- The table has an entry for each interrupt.
abbrev pub HasTable : Vic → Type 0
HasTable v = length v.handlers ≡ nr_irqs

-- The write that unmasks a source.
abbrev pub unmask : ℕ → Event
unmask source = write (bank_reg source vic_int_enset0 vic_int_enset1) (source_bit source)

-- The table with one entry changed, and the source unmasked.
abbrev pub Registered : ℕ → Option ℕ → Vic → Status × Vic → Type 0
Registered source handler v (s, v') =
    (s ≡ success)
    × (get_elem? v'.handlers source ≡ some handler)
    × ((other : ℕ) → source ≢ other → get_elem? v'.handlers other ≡ get_elem? v.handlers other)
    × (v'.events ≡ v.events ++ (unmask source ∷ []))
    × HasTable v'

-- What the protocol promises for a handler (or NULL) and the entry of the table (or NULL).
abbrev pub Promised : ℕ → Option ℕ → Option ℕ → Vic → Status × Vic → Type 0
Promised source none none v r = r ≡ (invalid_parameter, v)
Promised source (some h) (some old) v r = r ≡ (already_started, v)
Promised source none (some old) v r = Registered source none v r
Promised source (some h) none v r = Registered source (some h) v r

enabled_entry :
    (source : ℕ) (handler : Option ℕ) (v : Vic)
    → HasTable v
    → source < nr_irqs
    → Registered source handler v
        (enable_interrupt_source source (record v { handlers = set v.handlers source handler }))
unfolding enable_interrupt_source
enabled_entry source handler v t h =
    let small : ltb nr_irqs source ≡ false = ground arith in
    rw small (
      refl,
      get_elem?-set_self v.handlers source handler (omega arith),
      (λ other ne. get_elem?-set_ne v.handlers source other handler ne),
      refl,
      length-set v.handlers source handler ∙ t,
    )

check_entry-Promised :
    (source : ℕ) (handler entry : Option ℕ) (v : Vic)
    → HasTable v
    → source < nr_irqs
    → Promised source handler entry v (check_entry source handler entry v)
unfolding check_entry
check_entry-Promised source none none v t h = refl
check_entry-Promised source none (some old) v t h = enabled_entry source none v t h
check_entry-Promised source (some x) none v t h = enabled_entry source (some x) v t h
check_entry-Promised source (some x) (some old) v t h = refl

-- For a source below the size of the table, `RegisterInterruptSource` returns: a NULL handler with
-- no handler registered is `EFI_INVALID_PARAMETER`, a handler over another one is
-- `EFI_ALREADY_STARTED`, and both change nothing. Else the entry of the source becomes the handler
-- (NULL unregisters), every other entry stays, and the source is unmasked, also when its handler is
-- unregistered.
pub register_lem :
    (source : ℕ) (handler : Option ℕ) (v : Vic)
    → HasTable v
    → source < nr_irqs
    → (entry : Option ℕ) × (r : Status × Vic) × (get_elem? v.handlers source ≡ some entry)
      × (register_interrupt_source source handler v ≡ some r)
      × Promised source handler entry v r
unfolding register_interrupt_source
register_lem source handler v t h =
    let (entry, e) = get_elem?-in v.handlers source (omega arith) in
    let small : ltb nr_irqs source ≡ false = ground arith in
    (
      entry,
      check_entry source handler entry v,
      e,
      rw (small, e),
      check_entry-Promised source handler entry v t h,
    )

register_at_end :
    (source : ℕ) (handler : Option ℕ) (v : Vic)
    → HasTable v
    → source ≡ nr_irqs
    → register_interrupt_source source handler v ≡ none
unfolding register_interrupt_source
register_at_end source handler v t e =
    let small : ltb nr_irqs source ≡ false = ground arith in
    rw (small, get_elem?-past v.handlers source (omega arith))

register_refused :
    (source : ℕ) (handler : Option ℕ) (v : Vic)
    → nr_irqs < source
    → register_interrupt_source source handler v ≡ some (unsupported, v)
unfolding register_interrupt_source
register_refused source handler v h =
    let large : ltb nr_irqs source ≡ true = ground arith in rw large

only_at_end :
    (source : ℕ) (handler : Option ℕ) (v : Vic)
    → HasTable v
    → register_interrupt_source source handler v ≡ none
    → source ≡ nr_irqs
only_at_end source handler v t e = elim (dec_lt source nr_irqs) [
  | yes below ↦ let (_, _, _, returns, _) = register_lem source handler v t below in cc (e, returns)
  | no above ↦ elim (dec_lt nr_irqs source) [
    | yes past ↦ cc (e, register_refused source handler v past)
    | no stop ↦ omega arith
  ]
]

-- `RegisterInterruptSource` accesses the table outside of its bounds for exactly one source, the
-- number of interrupts: its guard lets that one pass.
pub register_faults_iff :
    (source : ℕ) (handler : Option ℕ) (v : Vic)
    → HasTable v
    → (register_interrupt_source source handler v ≡ none) ↔ (source ≡ nr_irqs)
register_faults_iff source handler v t =
    (only_at_end source handler v t, register_at_end source handler v t)
