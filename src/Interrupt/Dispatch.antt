-- ===== src/Interrupt/Dispatch.antt =====
-- From an interrupt to its handler.
use msm8909pkg.Base.{
  ℕ, ◌≤◌, ◌<◌, ◌≡◌, ap, ◌∙◌, Option, none, some, List, [], ◌∷◌, ◌++◌, arith, get_elem?,
  get_elem?-past,
}
use mathlib.Core.List.{append_assoc}
use msm8909pkg.Interrupt.{
  Event, write, barrier, call, Vic, Status, success, nr_irqs, bank_reg, source_bit, vic_int_clear0,
  vic_int_clear1, vic_irq_vec_wr, register_interrupt_source, irq_interrupt_handler,
}
use msm8909pkg.Interrupt.Register.{HasTable, Promised, register_lem}

-- The acknowledgement of a vector, and the end of the interrupt.
abbrev pub acknowledge : ℕ → List Event
acknowledge vector =
    write (bank_reg vector vic_int_clear0 vic_int_clear1) (source_bit vector) ∷ barrier ∷ []

abbrev pub finish : List Event
finish = write vic_irq_vec_wr 0 ∷ barrier ∷ []

abbrev pub called : Option ℕ → ℕ → List Event
called none vector = []
called (some h) vector = call h vector ∷ []

handled :
    (entry : Option ℕ) (vector : ℕ) (v : Vic)
    → get_elem? v.handlers vector ≡ some entry
    → irq_interrupt_handler vector v
      ≡ some (record v {
        events = v.events ++ (acknowledge vector ++ (called entry vector ++ finish));
      })
unfolding irq_interrupt_handler
handled none vector v e = rw (e, irq_interrupt_handler) (simp append_assoc)
handled (some h) vector v e = rw (e, irq_interrupt_handler) (simp append_assoc)

-- A handler that is registered for a source with no handler is called by the next interrupt with
-- that vector: once, with its vector, after the source is acknowledged and before the interrupt is
-- ended. The handler then stays registered.
pub registered_called :
    (source h : ℕ) (v : Vic)
    → HasTable v
    → source < nr_irqs
    → get_elem? v.handlers source ≡ some none
    → (v' : Vic) × (register_interrupt_source source (some h) v ≡ some (success, v'))
      × (irq_interrupt_handler source v'
          ≡ some (record v' {
            events = v'.events ++ (acknowledge source ++ (call h source ∷ finish));
          }))
registered_called source h v t below free =
    let (entry, r, at, returns, promised) = register_lem source (some h) v t below in
    after r entry at returns promised
  where
    after :
        (r : Status × Vic) (entry : Option ℕ)
        → get_elem? v.handlers source ≡ some entry
        → register_interrupt_source source (some h) v ≡ some r
        → Promised source (some h) entry v r
        → (v' : Vic) × (register_interrupt_source source (some h) v ≡ some (success, v'))
          × (irq_interrupt_handler source v'
              ≡ some (record v' {
                events = v'.events ++ (acknowledge source ++ (call h source ∷ finish));
              }))
    after (s, v') none at returns (ok, placed, _, _, _) =
        (v', returns ∙ ap (λ z. some (z, v')) ok, handled (some h) source v' placed)
    after (s, v') (some old) at returns p = cc (free, at)

-- An interrupt with no handler registered is acknowledged and ended, and no handler is called.
pub unregistered_ignored :
    (vector : ℕ) (v : Vic)
    → get_elem? v.handlers vector ≡ some none
    → irq_interrupt_handler vector v
      ≡ some (record v { events = v.events ++ (acknowledge vector ++ finish) })
unregistered_ignored vector v at = handled none vector v at

-- A vector outside of the table makes `IrqInterruptHandler` access the table out of its bounds.
pub vector_past_table :
    (vector : ℕ) (v : Vic) → HasTable v → nr_irqs ≤ vector → irq_interrupt_handler vector v ≡ none
unfolding irq_interrupt_handler
vector_past_table vector v t h =
    rw (get_elem?-past v.handlers vector (omega arith), irq_interrupt_handler)
