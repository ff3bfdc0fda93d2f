-- ===== src/Clock/Booted.antt =====
-- The processor's clock after its start.
use msm8909pkg.Base.{
  ◌++◌, ◌∷◌, [], if_both, Ensures, and_then-Ensures, ℕ, suc, ◌/◌, ◌≡◌, ◌∙◌, refl, true, false,
  Option, some, List, if◌then◌else◌, ◌==◌, bit_and, get_elem?, arith, ap, ==_iff,
}
use msm8909pkg.Mmio.{Mmio, Holds}
use msm8909pkg.Pcom.{msm_a2m_int6}
use msm8909pkg.Clock.Untouched.{Apart, power_down-Keeps, set_freq-Keeps}
use msm8909pkg.Pcom.Modem.{ModemCall, Modem, Sees, proc_comm_lem, read-Sees}
use msm8909pkg.Clock.{
  update, select_raw, src_raw, clk_cntl_addr, AcpuSpeed, acpu_freq_tbl, acpu_stby, src_scpll,
  clk_sel_addr, scpll_fsm_ctl_ext_addr, select_clock,
}
use msm8909pkg.Clock.Source.{source, IsSel, sel, Settled, select_clock-source}
use msm8909pkg.Clock.Init.{
  Boot, pll_request_cmd, pcom_modem_pll, mpll_addr, acpuclk_find_speed, msm_pll_request, start_mpll,
  step_over, boot_at, acpuclk_init, acpuclk_get_rate,
}

module _ {S : Type 0} (m : Mmio S) (n : ℕ) (holds : Holds m IsSel) (settled : Settled m n holds)
    (modem : Modem m) where
  -- The clock comes from the PLL, and the modem has taken the calls `h`.
  abbrev IsOnPll : List ModemCall → S → Type 0
  IsOnPll h s = (source (sel m n holds s) ≡ src_scpll) × (modem.calls s ≡ h)

  calls-Apart : Apart m modem.calls
  calls-Apart = record {
    read_f = modem.read_calls;
    write_f = λ a v s ne ne'. modem.write_calls a _ s ne';
  }

  update-calls :
      (a : ℕ) (f : ℕ → ℕ) (s : S)
      → (a == msm_a2m_int6) ≡ false
      → modem.calls (update m (suc n) a f s) ≡ modem.calls s
  unfolding update
  update-calls a f s ne = modem.write_calls a _ _ ne ∙ modem.read_calls a s

  select_raw-calls :
      (config : ℕ) (s : S) → modem.calls (select_raw m (suc n) config s) ≡ modem.calls s
  unfolding select_raw
  select_raw-calls config s =
      modem.write_calls clk_sel_addr _ _ refl
      ∙ update-calls clk_cntl_addr _ _ refl
      ∙ modem.read_calls clk_sel_addr s

  select_clock-calls :
      (src config : ℕ) (s : S) → modem.calls (select_clock m (suc n) src config s) ≡ modem.calls s
  unfolding select_clock
  select_clock-calls src config s =
      update-calls clk_sel_addr _ _ refl
      ∙ if_both (λ t. modem.calls t ≡ modem.calls s) (src == src_raw) (select_raw-calls config s)
          refl

  step_over-OnPll :
      (next : AcpuSpeed) (s : S) (h : List ModemCall)
      → modem.calls s ≡ h
      → Ensures (IsOnPll h) (step_over m (suc n) next s)
  unfolding step_over
  step_over-OnPll next s h e =
      let s0 = select_clock m (suc n) acpu_stby.clk_sel acpu_stby.clk_cfg s in
      let e0 = select_clock-calls acpu_stby.clk_sel acpu_stby.clk_cfg s ∙ e in
      and_then-Ensures (λ t. modem.calls t ≡ modem.calls s0) (IsOnPll h) _ _
        (power_down-Keeps m n modem.calls calls-Apart settled.status s0)
        λ s1 e1.
          and_then-Ensures (λ t. modem.calls t ≡ modem.calls s1) (IsOnPll h) _ _
            (set_freq-Keeps m n modem.calls calls-Apart settled.status next.sc_l_value s1)
            λ s2 e2. (
              select_clock-source m n holds src_scpll 0 s2 (omega arith),
              select_clock-calls src_scpll 0 s2 ∙ e2 ∙ e1 ∙ e0,
            )

  -- The clock is started, at the rate of `next`, and the modem has taken the calls `h`.
  abbrev pub RunsAt : AcpuSpeed → List ModemCall → Boot S → Type 0
  RunsAt next h b =
      (source (sel m n holds b.world) ≡ src_scpll)
      × (b.acpuclk_init_done ≡ true)
      × (acpuclk_get_rate b ≡ next.acpu_khz)
      × (modem.calls b.world ≡ h)

  abbrev pub Booted : AcpuSpeed → List ModemCall → Option (Boot S) → Type 0
  Booted next h o = Ensures (RunsAt next h) o

  boot_at-Booted :
      (o : Option AcpuSpeed) (next : AcpuSpeed) (s : S) (h : List ModemCall)
      → o ≡ some next
      → modem.calls s ≡ h
      → Booted next h (boot_at m (suc n) o s)
  boot_at-Booted o next s h e taken = rw e (
      and_then-Ensures (IsOnPll h) (RunsAt next h) (step_over m (suc n) next s) _
        (step_over-OnPll next s h taken) λ s' k. (k.0, refl, refl, k.1))

  -- The modem is ready for a call, with nothing under way, and has taken the calls `h`.
  pub record IsReady (h : List ModemCall) (s : S) : Type 0 where
    pub command : ℕ
    pub status : ℕ
    pub data1 : ℕ
    pub data2 : ℕ
    pub sees : Sees m modem s h command status data1 data2

  read-IsReady : (a : ℕ) (s : S) (h : List ModemCall) → IsReady h s → IsReady h (m.read32 a s).1
  read-IsReady a s h r = record {
    command = r.command;
    status = r.status;
    data1 = r.data1;
    data2 = r.data2;
    sees = read-Sees m modem a s h r.command r.status r.data1 r.data2 r.sees;
  }

  -- The request of the modem's PLL, on or off.
  abbrev pub pll_call : ℕ → ModemCall
  pll_call on = record { command = pll_request_cmd; arg1 = pcom_modem_pll; arg2 = on }

  pll-IsReady :
      (on : ℕ) (s : S) (h : List ModemCall)
      → IsReady h s
      → Ensures
          (IsReady (h ++ pll_call (if on == 0 then 0 else 1) ∷ []))
          (msm_pll_request m (suc n) pcom_modem_pll on s)
  unfolding msm_pll_request
  pll-IsReady on s h r =
      let (reply, e, rep) =
        proc_comm_lem m modem n pll_request_cmd (some pcom_modem_pll)
          (some (if on == 0 then 0 else 1)) s h r.command r.status r.data1 r.data2 r.sees in
      rw e (record { command = _; status = _; data1 = _; data2 = _; sees = rep.3 })

  -- The requests that the start makes: the PLL on, and off again.
  abbrev pub requested : List ModemCall → List ModemCall
  requested h = (h ++ pll_call 1 ∷ []) ++ pll_call 0 ∷ []

  abbrev pub IsOn : Type 0
  IsOn = (s : S) → (bit_and (m.read32 mpll_addr s).0 1 == 0) ≡ false

  start_mpll-IsReady :
      (s : S) (h : List ModemCall)
      → IsOn
      → IsReady h s
      → Ensures (IsReady (requested h)) (start_mpll m (suc n) s)
  unfolding start_mpll
  start_mpll-IsReady s h on r =
      let h1 = h ++ pll_call 1 ∷ [] in
      and_then-Ensures (IsReady h1) (IsReady (requested h)) _ _ (pll-IsReady 1 s h r) λ s1 r1.
        and_then-Ensures (IsReady (requested h)) (IsReady (requested h)) _ _
          (pll-IsReady 0 s1 h1 r1) λ s2 r2. rw (on s2) (read-IsReady mpll_addr s2 (requested h) r2)

  find_speed-IsReady :
      (s : S) (h : List ModemCall)
      → source (sel m n holds s) ≡ src_scpll
      → IsReady h s
      → Ensures (λ x. IsReady h x.1) (acpuclk_find_speed m (suc n) s)
  unfolding acpuclk_find_speed
  find_speed-IsReady s h on r =
      let test : (bit_and (m.read32 clk_sel_addr s).0 6 / 2 == 1) ≡ true =
        (==_iff (source (m.read32 clk_sel_addr s).0) 1).1
          (ap source (holds.read_reg clk_sel_addr s refl) ∙ on) in
      rw test (read-IsReady scpll_fsm_ctl_ext_addr _ h (read-IsReady clk_sel_addr s h r))

  -- Where the clock has not been started and comes from the PLL, with a modem that is ready and has
  -- taken the calls `h`, whose PLL is on, and no switch of the clock's PLL in progress: the start at
  -- the row `next` of the table of speeds ends; after `h` the modem has taken two calls, that
  -- request its PLL on and off again, and no other; the clock then comes from the PLL, the start is
  -- noted as done, and the rate that is reported is that of the row.
  pub acpuclk_init-Booted :
      (freq_num : ℕ) (next : AcpuSpeed) (b : Boot S) (h : List ModemCall)
      → IsOn
      → get_elem? acpu_freq_tbl freq_num ≡ some next
      → b.acpuclk_init_done ≡ false
      → source (sel m n holds b.world) ≡ src_scpll
      → IsReady h b.world
      → Booted next (requested h) (acpuclk_init m (suc n) freq_num b)
  unfolding acpuclk_init
  acpuclk_init-Booted freq_num next b h on row fresh src r = rw fresh (
      and_then-Ensures (λ x. IsReady h x.1) (RunsAt next (requested h)) _ _
        (find_speed-IsReady b.world h src r)
        λ x r1.
          and_then-Ensures (IsReady (requested h)) (RunsAt next (requested h)) _ _
            (start_mpll-IsReady x.1 h on r1)
            λ s r2.
              boot_at-Booted (get_elem? acpu_freq_tbl freq_num) next s (requested h) row
                r2.sees.calls_lem)
