-- ===== src/Clock.antt =====
-- The processor's clock: QSD8250Pkg/GPLDrivers/ClockDxe/acpuclock.c. The registers are a parameter; a
-- loop that waits for a status bit takes fuel, and `none` means that the fuel ran out.
pub mod Untouched
pub mod Source
pub mod Rates
pub mod Init
pub mod Booted
pub mod Driver
pub mod Speeds
pub mod Served
mod Tests
use msm8909pkg.Base.{
  and_then, ℕ, zero, suc, ◌+◌, ◌-◌, ◌*◌, ◌/◌, ◌%◌, ◌^◌, Bool, true, false, not, ◌&&◌, ◌||◌, Option,
  none, some, List, [], ◌∷◌, if◌then◌else◌, ◌==◌, ltb, bit_and, bit_or, bit_xor,
}
use msm8909pkg.Base.Bits.{bit_not}
use msm8909pkg.Mmio.{Mmio}

-- `SPSS_CLK_CNTL_ADDR`, `SPSS_CLK_SEL_ADDR`, and the registers of the SCPLL.
abbrev pub clk_cntl_addr : ℕ
clk_cntl_addr = 0xAC100000 + 0x100

abbrev pub clk_sel_addr : ℕ
clk_sel_addr = 0xAC100000 + 0x104

abbrev pub scpll_ctl_addr : ℕ
scpll_ctl_addr = 0xA8800000 + 0x4

abbrev pub scpll_status_addr : ℕ
scpll_status_addr = 0xA8800000 + 0x18

abbrev pub scpll_fsm_ctl_ext_addr : ℕ
scpll_fsm_ctl_ext_addr = 0xA8800000 + 0x10

-- `CLK_TCXO`, `CLK_MODEM_PLL`, `SRC_RAW`, `SRC_SCPLL`, and `CCTL`.
abbrev clk_tcxo : ℕ
clk_tcxo = 0

abbrev clk_modem_pll : ℕ
clk_modem_pll = 4

abbrev pub src_raw : ℕ
src_raw = 0

abbrev pub src_scpll : ℕ
src_scpll = 1

abbrev cctl : ℕ → ℕ → ℕ
cctl src div = bit_or (src * 2 ^ 4) (div - 1)

-- `struct clkctl_acpu_speed`
pub record AcpuSpeed : Type 0 where
  pub acpu_khz : ℕ
  pub clk_cfg : ℕ
  pub clk_sel : ℕ
  pub sc_l_value : ℕ
  pub vdd : ℕ
  pub axiclk_khz : ℕ

abbrev speed : ℕ → ℕ → ℕ → ℕ → ℕ → ℕ → AcpuSpeed
speed khz cfg sel l vdd axi = record {
  acpu_khz = khz;
  clk_cfg = cfg;
  clk_sel = sel;
  sc_l_value = l;
  vdd = vdd;
  axiclk_khz = axi;
}

abbrev pub acpu_stby : AcpuSpeed
acpu_stby = speed 245000 (cctl clk_modem_pll 1) src_raw 0x00 1050 29000

-- `acpu_freq_tbl`, without the entry of zeros that ends it.
abbrev pub acpu_freq_tbl : List AcpuSpeed
acpu_freq_tbl =
    acpu_stby
    ∷ speed 384000 (cctl clk_tcxo 1) src_scpll 0x0A 1050 58000
    ∷ speed 422400 (cctl clk_tcxo 1) src_scpll 0x0B 1050 117000
    ∷ speed 460800 (cctl clk_tcxo 1) src_scpll 0x0C 1050 117000
    ∷ speed 499200 (cctl clk_tcxo 1) src_scpll 0x0D 1075 117000
    ∷ speed 537600 (cctl clk_tcxo 1) src_scpll 0x0E 1100 117000
    ∷ speed 576000 (cctl clk_tcxo 1) src_scpll 0x0F 1100 117000
    ∷ speed 614400 (cctl clk_tcxo 1) src_scpll 0x10 1125 117000
    ∷ speed 652800 (cctl clk_tcxo 1) src_scpll 0x11 1150 117000
    ∷ speed 691200 (cctl clk_tcxo 1) src_scpll 0x12 1175 117000
    ∷ speed 729600 (cctl clk_tcxo 1) src_scpll 0x13 1200 117000
    ∷ speed 768000 (cctl clk_tcxo 1) src_scpll 0x14 1200 128000
    ∷ speed 806400 (cctl clk_tcxo 1) src_scpll 0x15 1225 128000
    ∷ speed 844800 (cctl clk_tcxo 1) src_scpll 0x16 1250 128000
    ∷ speed 883200 (cctl clk_tcxo 1) src_scpll 0x17 1275 128000
    ∷ speed 921600 (cctl clk_tcxo 1) src_scpll 0x18 1300 128000
    ∷ speed 960000 (cctl clk_tcxo 1) src_scpll 0x19 1300 128000
    ∷ speed 998400 (cctl clk_tcxo 1) src_scpll 0x1A 1300 128000
    ∷ []

-- `IS_ACPU_STANDBY`
abbrev pub is_acpu_standby : AcpuSpeed → Bool
is_acpu_standby x = x.clk_cfg == acpu_stby.clk_cfg && x.clk_sel == acpu_stby.clk_sel

-- `current_speed`, and the machine.
pub record AcpuClock (S : Type 0) : Type 0 where
  pub current_speed : AcpuSpeed
  pub world : S

-- `val & (~mask)`, on words of 32 bits.
abbrev pub clear : ℕ → ℕ → ℕ
clear v mask = bit_and v (bit_not 32 mask)

module _ {S : Type 0} (m : Mmio S) (fuel : ℕ) where
  -- `while (readl(SCPLL_STATUS_ADDR) & mask);`
  unfoldable pub wait_clear : ℕ → ℕ → S → Option S
  wait_clear zero mask s = none
  wait_clear (suc n) mask s =
      let (v, s') = m.read32 scpll_status_addr s in
      let more = wait_clear n mask s' in if bit_and v mask == 0 then some s' else more

  -- A register is read, changed and written; the bound keeps a word of 32 bits.
  unfoldable pub update : ℕ → (ℕ → ℕ) → S → S
  update a f s = let (v, s') = m.read32 a s in m.write32 a (f v % 2 ^ 32) s'

  -- `scpll_power_down`: standby, then off.
  unfoldable pub scpll_power_down : S → Option S
  scpll_power_down s = and_then (wait_clear fuel 1 s) λ s'.
      let (v, s'') = m.read32 scpll_ctl_addr s' in
      let standby = bit_or (clear v 7) 2 in
      some (
        m.write32 scpll_ctl_addr (clear standby 7 % 2 ^ 32)
          (m.write32 scpll_ctl_addr (standby % 2 ^ 32) s''))

  -- The start of `scpll_set_freq` for a PLL that is not in its normal mode: standby, then 384 MHz with
  -- `SHOT_SWITCH`.
  unfoldable pub scpll_start : ℕ → S → Option S
  scpll_start ctl s =
      let s1 = m.write32 scpll_ctl_addr (bit_or (clear ctl 7) 2 % 2 ^ 32) s in
      let s2 =
        update scpll_fsm_ctl_ext_addr (λ v. bit_or (bit_or (clear v 0x1FF) (0x0A * 2 ^ 3)) 4) s1 in
      wait_clear fuel 1 (update scpll_ctl_addr (λ v. bit_or v 7) s2)

  -- The new L value with `HOP_SWITCH`, and the normal mode.
  unfoldable pub scpll_hop : ℕ → S → Option S
  scpll_hop lval s =
      let s' =
        update scpll_fsm_ctl_ext_addr (λ v. bit_or (bit_or (clear v 0x1FF) (lval * 2 ^ 3)) 5) s in
      wait_clear fuel 1 (update scpll_ctl_addr (λ v. bit_or v 7) s')

  abbrev clamp : ℕ → ℕ
  clamp lval = if ltb 33 lval then 33 else if ltb lval 10 then 10 else lval

  -- `scpll_set_freq`
  unfoldable pub scpll_set_freq : ℕ → S → Option S
  scpll_set_freq lval s = and_then (wait_clear fuel 3 s) λ s'.
      let (ctl, s'') = m.read32 scpll_ctl_addr s' in
      let started = if bit_and ctl 7 == 7 then some s'' else scpll_start ctl s'' in
      and_then started (scpll_hop (clamp lval))

  -- The first part of `select_clock`: the clock source that is not in use gets the configuration, and
  -- is taken into use.
  unfoldable pub select_raw : ℕ → S → S
  select_raw config s =
      let (sel, s') = m.read32 clk_sel_addr s in
      let shift = if bit_and sel 1 == 0 then 0 else 8 in
      let s'' =
        update clk_cntl_addr (λ v. bit_or (clear v (0x7F * 2 ^ shift)) (config * 2 ^ shift)) s' in
      m.write32 clk_sel_addr (bit_xor sel 1 % 2 ^ 32) s''

  -- `select_clock`
  unfoldable pub select_clock : ℕ → ℕ → S → S
  select_clock src config s =
      let s' = if src == src_raw then select_raw config s else s in
      update clk_sel_addr (λ v. bit_or (clear v 6) (bit_and src 3 * 2)) s'

  -- The search of `acpuclk_set_rate`.
  unfoldable pub find_rate : ℕ → List AcpuSpeed → Option AcpuSpeed
  find_rate rate [] = none
  find_rate rate (e ∷ es) =
      let more = find_rate rate es in if e.acpu_khz == rate then some e else more

  -- The switch to the entry that is found: to the PLL, from it, or between raw clocks.
  unfoldable pub switch_up : AcpuSpeed → AcpuSpeed → S → Option S
  switch_up cur next s =
      let s' =
        if is_acpu_standby cur then s else select_clock acpu_stby.clk_sel acpu_stby.clk_cfg s in
      and_then (scpll_set_freq next.sc_l_value s') (λ s''. some (select_clock src_scpll 0 s''))

  unfoldable pub switch_speed : AcpuSpeed → AcpuSpeed → S → Option S
  switch_speed cur next s =
      let standby = select_clock acpu_stby.clk_sel acpu_stby.clk_cfg s in
      if next.clk_sel == src_scpll
      then switch_up cur next s
      else if cur.clk_sel == src_scpll
      then scpll_power_down (select_clock next.clk_sel next.clk_cfg standby)
      else some (select_clock next.clk_sel next.clk_cfg s)

  abbrev switched : AcpuSpeed → Option S → Option (Bool × AcpuClock S)
  switched next none = none
  switched next (some s) = some (true, record { current_speed = next; world = s })

  abbrev set_found : Option AcpuSpeed → AcpuClock S → Option (Bool × AcpuClock S)
  set_found none c = some (false, c)
  set_found (some next) c = switched next (switch_speed c.current_speed next c.world)

  -- `acpuclk_set_rate`; the Boolean says whether the result is 0, and not -1.
  unfoldable pub acpuclk_set_rate : ℕ → AcpuClock S → Option (Bool × AcpuClock S)
  acpuclk_set_rate rate c =
      let khz = rate / 1000 in
      if khz == c.current_speed.acpu_khz || khz == 0
      then some (true, c)
      else set_found (find_rate khz acpu_freq_tbl) c
