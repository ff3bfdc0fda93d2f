-- ===== src/Interrupt/Tests.antt =====
-- The interrupt controller on a table with one handler, number 9 for source 5.
use msm8909pkg.Base.{◌≡◌, refl, none, some, [], ◌∷◌, ◌++◌, replicate, set, arith}
use msm8909pkg.Interrupt.{call, Vic, success, register_interrupt_source, irq_interrupt_handler}
use msm8909pkg.Interrupt.Dispatch.{acknowledge, finish, registered_called}

abbrev vic : Vic
vic = record { handlers = set (replicate 332 none) 5 (some 9); events = [] }

registered_called_example :
    (v' : Vic) × (register_interrupt_source 7 (some 3) vic ≡ some (success, v'))
    × (irq_interrupt_handler 7 v'
        ≡ some (record v' { events = v'.events ++ (acknowledge 7 ++ (call 3 7 ∷ finish)) }))
registered_called_example = registered_called 7 3 vic refl (omega arith) refl
