-- ===== src/Pcom/Clients.antt =====
-- The calls that the drivers make: the rest of pcom.c, and
-- QSD8250Pkg/Library/MsmPcomClientLib/pcom_clients.c.
use msm8909pkg.Base.{
  and_then, ℕ, zero, suc, ◌-◌, ◌*◌, ◌^◌, Bool, Option, none, some, List, [], ◌∷◌, if◌then◌else◌,
  ◌==◌, bit_or, bit_and,
}
use msm8909pkg.Mmio.{Mmio}
use msm8909pkg.Pcom.{
  app_status, pcom_cmd_success, pcom_clkctl_rpc_enable, pcom_clkctl_rpc_disable,
  pcom_clkctl_rpc_set_flags, pcom_clkctl_rpc_set_rate, pcom_clkctl_rpc_rate,
  pcom_clkctl_rpc_enabled, pcom_vreg_switch_cmd, pcom_vreg_set_level_cmd,
  pcom_rpc_gpio_tlmm_config_ex, Reply, word_of, proc_comm,
}

-- `PCOM_VREG_SDC`, `PCOM_MPP_FOR_USB_VBUS`, `PROC_COMM_END_CMDS`, `PCOM_PM_MPP_CONFIG` and
-- `PCOM_MSM_HSUSB_PHY_RESET`
abbrev pub pcom_vreg_sdc : ℕ
pcom_vreg_sdc = 22

abbrev pcom_mpp_for_usb_vbus : ℕ
pcom_mpp_for_usb_vbus = 15

abbrev proc_comm_end_cmds : ℕ
proc_comm_end_cmds = 0xFFFF

abbrev pcom_pm_mpp_config : ℕ
pcom_pm_mpp_config = 38

abbrev pcom_msm_hsusb_phy_reset : ℕ
pcom_msm_hsusb_phy_reset = 102

-- The clocks of the SD card controllers: `PCOM_SDC1_CLK` to `PCOM_SDC4_CLK` and `PCOM_SDC1_PCLK` to
-- `PCOM_SDC4_PCLK`. Another instance has none.
abbrev pub sdc_clk : ℕ → Option ℕ
sdc_clk instance_no =
    if instance_no == 1
    then some 19
    else if instance_no == 2
    then some 21
    else if instance_no == 3
    then some 23
    else if instance_no == 4
    then some 25
    else none

abbrev pub sdc_pclk : ℕ → Option ℕ
sdc_pclk instance_no =
    if instance_no == 1
    then some 20
    else if instance_no == 2
    then some 22
    else if instance_no == 3
    then some 24
    else if instance_no == 4
    then some 26
    else none

-- `PCOM_UART1_CLK` to `PCOM_UART3_CLK`, by the base of the port.
abbrev uart_clk : ℕ → Option ℕ
uart_clk base =
    if base == 0xA9A00000
    then some 31
    else if base == 0xA9B00000
    then some 32
    else if base == 0xA9C00000
    then some 33
    else none

abbrev pcom_usb_hs_clk : ℕ
pcom_usb_hs_clk = 36

abbrev pcom_mdp_lcdc_pclk_clk : ℕ
pcom_mdp_lcdc_pclk_clk = 42

abbrev pcom_mdp_lcdc_pad_pclk_clk : ℕ
pcom_mdp_lcdc_pad_pclk_clk = 43

-- `MSM_GPIO_CFG`
abbrev pub msm_gpio_cfg : ℕ → ℕ → ℕ → ℕ → ℕ → ℕ
msm_gpio_cfg gpio func dir pull drvstr =
    bit_or
      (bit_or
        (bit_or (bit_or (bit_and gpio 0x3FF * 2 ^ 4) (bit_and func 0xf)) (bit_and dir 0x1 * 2 ^ 14))
        (bit_and pull 0x3 * 2 ^ 15))
      (bit_and drvstr 0xF * 2 ^ 17)

-- The pins of `pcom_sdcard_gpio_config`: the pin, its function, pull-up or not, and its strength; each
-- is an output.
abbrev pin_cfg : ℕ → ℕ → ℕ → ℕ → ℕ
pin_cfg gpio func pull strength = msm_gpio_cfg gpio func 1 pull strength

abbrev pub sdcard_pins : ℕ → List ℕ
sdcard_pins instance_no =
    if instance_no == 1
    then pin_cfg 51 1 3 7
      ∷ pin_cfg 52 1 3 7
      ∷ pin_cfg 53 1 3 7
      ∷ pin_cfg 54 1 3 7
      ∷ pin_cfg 55 1 3 7
      ∷ pin_cfg 56 1 0 7
      ∷ []
    else if instance_no == 2
    then pin_cfg 62 1 0 3
      ∷ pin_cfg 63 1 3 3
      ∷ pin_cfg 64 1 3 3
      ∷ pin_cfg 65 1 3 3
      ∷ pin_cfg 66 1 3 3
      ∷ pin_cfg 67 1 3 3
      ∷ []
    else if instance_no == 3
    then pin_cfg 88 1 0 3
      ∷ pin_cfg 89 1 3 3
      ∷ pin_cfg 90 1 3 3
      ∷ pin_cfg 91 1 3 3
      ∷ pin_cfg 92 1 3 3
      ∷ pin_cfg 93 1 3 3
      ∷ pin_cfg 158 1 3 3
      ∷ pin_cfg 159 1 3 3
      ∷ pin_cfg 160 1 3 3
      ∷ pin_cfg 161 1 3 3
      ∷ []
    else if instance_no == 4
    then pin_cfg 142 3 0 3
      ∷ pin_cfg 143 3 3 3
      ∷ pin_cfg 144 2 3 3
      ∷ pin_cfg 145 2 3 3
      ∷ pin_cfg 146 3 3 3
      ∷ pin_cfg 147 3 3 3
      ∷ []
    else []

abbrev pub on_off : ℕ → ℕ
on_off state = if state == 0 then 0 else 1

module _ {S : Type 0} (m : Mmio S) (fuel : ℕ) where
  -- The result of a call as a number, and the machine.
  abbrev returned : Option (Reply S) → Option (Bool × S)
  returned o = and_then o λ r. some (r.succeeds, r.world)

  unfoldable pub pcom_gpio_tlmm_config : ℕ → ℕ → S → Option (Bool × S)
  pcom_gpio_tlmm_config config disable s =
      returned (proc_comm m fuel pcom_rpc_gpio_tlmm_config_ex (some config) (some disable) s)

  unfoldable pub pcom_vreg_set_level : ℕ → ℕ → S → Option (Bool × S)
  pcom_vreg_set_level id mv s =
      returned (proc_comm m fuel pcom_vreg_set_level_cmd (some id) (some mv) s)

  unfoldable pub pcom_vreg_enable : ℕ → S → Option (Bool × S)
  pcom_vreg_enable id s = returned (proc_comm m fuel pcom_vreg_switch_cmd (some id) (some 1) s)

  unfoldable pub pcom_vreg_disable : ℕ → S → Option (Bool × S)
  pcom_vreg_disable id s = returned (proc_comm m fuel pcom_vreg_switch_cmd (some id) (some 0) s)

  unfoldable pub pcom_clock_enable : ℕ → S → Option (Bool × S)
  pcom_clock_enable id s = returned (proc_comm m fuel pcom_clkctl_rpc_enable (some id) none s)

  unfoldable pub pcom_clock_disable : ℕ → S → Option (Bool × S)
  pcom_clock_disable id s = returned (proc_comm m fuel pcom_clkctl_rpc_disable (some id) none s)

  -- 0 or -1, as for every call: the Boolean says which.
  unfoldable pub pcom_clock_is_enabled : ℕ → S → Option (Bool × S)
  pcom_clock_is_enabled id s = returned (proc_comm m fuel pcom_clkctl_rpc_enabled (some id) none s)

  unfoldable pub pcom_clock_set_rate : ℕ → ℕ → S → Option (Bool × S)
  pcom_clock_set_rate id rate s =
      returned (proc_comm m fuel pcom_clkctl_rpc_set_rate (some id) (some rate) s)

  -- The rate, as a word of 32 bits: that of -1 where the call fails.
  unfoldable pub pcom_clock_get_rate : ℕ → S → Option (ℕ × S)
  pcom_clock_get_rate id s =
      and_then (proc_comm m fuel pcom_clkctl_rpc_rate (some id) none s)
        λ r. some (if r.succeeds then word_of r.data1 else 2 ^ 32 - 1, r.world)

  unfoldable pub pcom_set_clock_flags : ℕ → ℕ → S → Option (Bool × S)
  pcom_set_clock_flags id flags s =
      returned (proc_comm m fuel pcom_clkctl_rpc_set_flags (some id) (some flags) s)

  -- The `switch` over the instances: what has no clock does nothing.
  abbrev forget : Option (Bool × S) → Option S
  forget o = and_then o λ x. some x.1

  abbrev on_clock : (ℕ → S → Option (Bool × S)) → Option ℕ → S → Option S
  on_clock f none s = some s
  on_clock f (some id) s = forget (f id s)

  abbrev with_clock : (ℕ → S → Option (ℕ × S)) → Option ℕ → S → Option (ℕ × S)
  with_clock f none s = some (0, s)
  with_clock f (some id) s = f id s

  unfoldable pub pcom_set_sdcard_clk_flags : ℕ → ℕ → S → Option S
  pcom_set_sdcard_clk_flags instance_no flags s =
      on_clock (λ id. pcom_set_clock_flags id flags) (sdc_clk instance_no) s

  unfoldable pub pcom_set_sdcard_clk : ℕ → ℕ → S → Option S
  pcom_set_sdcard_clk instance_no rate s =
      on_clock (λ id. pcom_clock_set_rate id rate) (sdc_clk instance_no) s

  unfoldable pub pcom_get_sdcard_clk : ℕ → S → Option (ℕ × S)
  pcom_get_sdcard_clk instance_no s = with_clock pcom_clock_get_rate (sdc_clk instance_no) s

  unfoldable pub pcom_enable_sdcard_clk : ℕ → S → Option S
  pcom_enable_sdcard_clk instance_no s = on_clock pcom_clock_enable (sdc_clk instance_no) s

  unfoldable pub pcom_disable_sdcard_clk : ℕ → S → Option S
  pcom_disable_sdcard_clk instance_no s = on_clock pcom_clock_disable (sdc_clk instance_no) s

  unfoldable pub pcom_enable_sdcard_pclk : ℕ → S → Option S
  pcom_enable_sdcard_pclk instance_no s = on_clock pcom_clock_enable (sdc_pclk instance_no) s

  unfoldable pub pcom_disable_sdcard_pclk : ℕ → S → Option S
  pcom_disable_sdcard_pclk instance_no s = on_clock pcom_clock_disable (sdc_pclk instance_no) s

  -- The result of the call, 0 or -1, as the UINT32 that the client returns.
  abbrev as_word : Option (Bool × S) → Option (ℕ × S)
  as_word o = and_then o λ x. some (if x.0 then 0 else 2 ^ 32 - 1, x.1)

  unfoldable pub pcom_is_sdcard_clk_enabled : ℕ → S → Option (ℕ × S)
  pcom_is_sdcard_clk_enabled instance_no s =
      with_clock (λ id t. as_word (pcom_clock_is_enabled id t)) (sdc_clk instance_no) s

  unfoldable pub pcom_is_sdcard_pclk_enabled : ℕ → S → Option (ℕ × S)
  pcom_is_sdcard_pclk_enabled instance_no s =
      with_clock (λ id t. as_word (pcom_clock_is_enabled id t)) (sdc_pclk instance_no) s

  unfoldable pub pcom_get_uart_clk : ℕ → S → Option (ℕ × S)
  pcom_get_uart_clk base s = with_clock pcom_clock_get_rate (uart_clk base) s

  unfoldable pub pcom_set_lcdc_clk : ℕ → S → Option S
  pcom_set_lcdc_clk rate s = forget (pcom_clock_set_rate pcom_mdp_lcdc_pclk_clk rate s)

  unfoldable pub pcom_enable_lcdc_pad_clk : S → Option S
  pcom_enable_lcdc_pad_clk s = forget (pcom_clock_enable pcom_mdp_lcdc_pad_pclk_clk s)

  unfoldable pub pcom_enable_lcdc_clk : S → Option S
  pcom_enable_lcdc_clk s = forget (pcom_clock_enable pcom_mdp_lcdc_pclk_clk s)

  unfoldable pub pcom_get_lcdc_clk : S → Option (ℕ × S)
  pcom_get_lcdc_clk s = pcom_clock_get_rate pcom_mdp_lcdc_pclk_clk s

  unfoldable pub pcom_enable_hsusb_clk : S → Option S
  pcom_enable_hsusb_clk s = forget (pcom_clock_enable pcom_usb_hs_clk s)

  unfoldable pub pcom_disable_hsusb_clk : S → Option S
  pcom_disable_hsusb_clk s = forget (pcom_clock_disable pcom_usb_hs_clk s)

  -- The two that read the status only to report it.
  abbrev reported : Option (Reply S) → Option S
  reported o = and_then o λ r. some (m.read32 app_status r.world).1

  unfoldable pub pcom_usb_vbus_power : Bool → S → Option S
  pcom_usb_vbus_power state s = reported (
      proc_comm m fuel pcom_pm_mpp_config (some pcom_mpp_for_usb_vbus)
        (some (bit_or (4 * 2 ^ 16) (if state then 1 else 0))) s)

  unfoldable pub pcom_usb_reset_phy : S → Option S
  pcom_usb_reset_phy s = reported (proc_comm m fuel pcom_msm_hsusb_phy_reset none none s)

  unfoldable pub pcom_end_cmds : S → Option S
  pcom_end_cmds s = and_then (proc_comm m fuel proc_comm_end_cmds none none s) λ r. some r.world

  -- `pcom_sdcard_gpio_config`
  unfoldable pub config_pins : List ℕ → S → Option S
  config_pins [] s = some s
  config_pins (c ∷ cs) s = and_then (pcom_gpio_tlmm_config c 0 s) λ x. config_pins cs x.1

  unfoldable pub pcom_sdcard_gpio_config : ℕ → S → Option S
  pcom_sdcard_gpio_config instance_no s = config_pins (sdcard_pins instance_no) s

  -- `do msm_proc_comm(cmd, &d1, &d2); while (readl(APP_STATUS) != PCOM_CMD_SUCCESS)`, with the words
  -- that the calls leave in `d1` and `d2`.
  unfoldable pub set_until : ℕ → ℕ → ℕ → ℕ → S → Option (ℕ × ℕ × S)
  set_until zero cmd d1 d2 s = none
  set_until (suc n) cmd d1 d2 s = and_then (proc_comm m fuel cmd (some d1) (some d2) s) λ r.
      let (status, s') = m.read32 app_status r.world in
      let more = set_until n cmd (word_of r.data1) (word_of r.data2) s' in
      if status == pcom_cmd_success then some (word_of r.data1, word_of r.data2, s') else more

  -- `pcom_vreg_control` and `pcom_sdcard_power`, with `tries` for their loops.
  unfoldable pub pcom_vreg_control : ℕ → ℕ → ℕ → ℕ → S → Option S
  pcom_vreg_control tries vreg level state s =
      let levelled = set_until tries pcom_vreg_set_level_cmd vreg level s in
      and_then (if state == 0 then some (vreg, level, s) else levelled)
        λ x. and_then (set_until tries pcom_vreg_switch_cmd x.0 (on_off state) x.2) λ y. some y.2

  unfoldable pub pcom_sdcard_power : ℕ → ℕ → S → Option S
  pcom_sdcard_power tries state s =
      and_then (set_until tries pcom_vreg_switch_cmd pcom_vreg_sdc (on_off state) s) λ y. some y.2
