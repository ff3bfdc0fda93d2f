-- ===== src/Pcom/Tests.antt =====
-- Calls of a modem that refuses the first call, and takes the others.
use msm8909pkg.Base.{◌≡◌, refl, none, some, [], ◌∷◌, arith}
use msm8909pkg.Pcom.{proc_comm, pcom_vreg_switch_cmd, Reply}
use msm8909pkg.Pcom.Modem.{ModemCall, Replies, proc_comm_lem}
use msm8909pkg.Pcom.Clients.{pcom_vreg_control}
use msm8909pkg.Pcom.Switch.{Switched, level_call, switch_call, vreg_control_on}
use msm8909pkg.Pcom.Sample.{Memory, answers, shared, modem, memory, memory-Sees}

proc_comm_lem_example :
    let call : ModemCall = record { command = pcom_vreg_switch_cmd; arg1 = 22; arg2 = 0 } in
    (r : Reply Memory) × (proc_comm shared 1 pcom_vreg_switch_cmd (some 22) none memory ≡ some r)
    × Replies shared modem (some 22) none (call ∷ []) (answers [] call) r
proc_comm_lem_example =
    proc_comm_lem shared modem 0 pcom_vreg_switch_cmd (some 22) none memory [] 0 0 0 0 memory-Sees

vreg_control_on_example :
    Switched shared modem
      (level_call shared modem 22 2850
        ∷ level_call shared modem 22 2850
        ∷ switch_call shared modem 22 1
        ∷ [])
      (pcom_vreg_control shared 1 2 22 2850 1 memory)
vreg_control_on_example =
    vreg_control_on shared modem 0 1 0 2 22 2850 1 memory [] 0 0 0 (λ h c. (refl, refl))
      (omega arith) (omega arith) refl memory-Sees (refl, refl) refl
