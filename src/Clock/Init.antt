-- ===== src/Clock/Init.antt =====
-- The start of the processor's clock: acpuclk_init and what is below it in acpuclock.c.
use msm8909pkg.Base.{
  ℕ, ◌+◌, ◌*◌, ◌/◌, ◌^◌, Bool, true, Option, none, some, and_then, if◌then◌else◌, ◌==◌, bit_and,
  get_elem?,
}
use msm8909pkg.Mmio.{Mmio}
use msm8909pkg.Pcom.{proc_comm}
use msm8909pkg.Clock.{
  AcpuSpeed, acpu_freq_tbl, acpu_stby, src_scpll, clk_sel_addr, scpll_fsm_ctl_ext_addr,
  select_clock, scpll_set_freq, scpll_power_down,
}
use msm8909pkg.Clock.Source.{sel}

-- `PCOM_CLKCTL_RPC_PLL_REQUEST`, `PCOM_MODEM_PLL`, and the register of the modem's PLL.
abbrev pub pll_request_cmd : ℕ
pll_request_cmd = 28

abbrev pub pcom_modem_pll : ℕ
pcom_modem_pll = 0

abbrev pub mpll_addr : ℕ
mpll_addr = 0xA8600000 + 0x300

-- `current_speed` before it is set, `acpuclk_init_done`, and the machine.
pub record Boot (S : Type 0) : Type 0 where
  pub acpuclk_init_done : Bool
  pub current_speed : Option AcpuSpeed
  pub world : S

module _ {S : Type 0} (m : Mmio S) (fuel : ℕ) where
  -- `acpuclk_find_speed`; where it spins forever there is no result.
  unfoldable pub acpuclk_find_speed : S → Option (ℕ × S)
  acpuclk_find_speed s =
      let (sel, s') = m.read32 clk_sel_addr s in
      let (val, s'') = m.read32 scpll_fsm_ctl_ext_addr s' in
      let src = bit_and sel 6 / 2 in
      if src == 1
      then some (bit_and (val / 2 ^ 3) 0x3f * 38400, s'')
      else if src == 2
      then some (128000, s')
      else none

  -- `msm_pll_request`
  unfoldable pub msm_pll_request : ℕ → ℕ → S → Option S
  msm_pll_request id on s =
      and_then (proc_comm m fuel pll_request_cmd (some id) (some (if on == 0 then 0 else 1)) s)
        λ r. some r.world

  -- The requests, and the test of the PLL; where it is off there is no result.
  unfoldable pub start_mpll : S → Option S
  start_mpll s = and_then (msm_pll_request pcom_modem_pll 1 s) λ s1.
      and_then (msm_pll_request pcom_modem_pll 0 s1)
        λ s2. let (v, s3) = m.read32 mpll_addr s2 in if bit_and v 1 == 0 then none else some s3

  -- Over to the standby clock, and back to the PLL at its rate.
  unfoldable pub step_over : AcpuSpeed → S → Option S
  step_over next s =
      and_then (scpll_power_down m fuel (select_clock m fuel acpu_stby.clk_sel acpu_stby.clk_cfg s))
        λ s1.
          and_then (scpll_set_freq m fuel next.sc_l_value s1)
            λ s2. some (select_clock m fuel src_scpll 0 s2)

  abbrev pub boot_at : Option AcpuSpeed → S → Option (Boot S)
  boot_at none s = none
  boot_at (some next) s =
      and_then (step_over next s)
        λ s'. some (record { acpuclk_init_done = true; current_speed = some next; world = s' })

  -- `acpuclk_init`; an index outside of the table is a fault.
  unfoldable pub acpuclk_init : ℕ → Boot S → Option (Boot S)
  acpuclk_init freq_num b =
      let started =
        and_then (acpuclk_find_speed b.world)
          λ x. and_then (start_mpll x.1) λ s. boot_at (get_elem? acpu_freq_tbl freq_num) s in
      if b.acpuclk_init_done then some b else started

abbrev rate_of : Option AcpuSpeed → ℕ
rate_of none = 0
rate_of (some e) = e.acpu_khz

-- `acpuclk_get_rate`
abbrev pub acpuclk_get_rate : {S : Type 0} → Boot S → ℕ
acpuclk_get_rate b = if b.acpuclk_init_done then rate_of b.current_speed else 998001
