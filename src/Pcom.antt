-- ===== src/Pcom.antt =====
-- Remote procedure calls to the modem: QSD8250Pkg/Library/MsmPcomLib/pcom.c. The shared memory is a
-- parameter; a loop that waits takes fuel, and `none` means that the fuel ran out.
pub mod Modem
pub mod Clients
pub mod Switch
pub mod Sample
mod Tests
use msm8909pkg.Base.{
  and_then, ℕ, zero, suc, ◌+◌, ◌*◌, Bool, true, false, not, Option, none, some, if◌then◌else◌, ◌==◌,
}
use msm8909pkg.Mmio.{Mmio}

-- `APP_COMMAND`, `APP_STATUS`, `APP_DATA1`, `APP_DATA2`, `MDM_STATUS` and `MSM_A2M_INT(6)`
abbrev pub app_command : ℕ
app_command = 0x00100000 + 0x00

abbrev pub app_status : ℕ
app_status = 0x00100000 + 0x04

abbrev pub app_data1 : ℕ
app_data1 = 0x00100000 + 0x08

abbrev pub app_data2 : ℕ
app_data2 = 0x00100000 + 0x0C

abbrev pub mdm_status : ℕ
mdm_status = 0x00100000 + 0x14

abbrev pub msm_a2m_int6 : ℕ
msm_a2m_int6 = 0xAC100000 + 0x400 + 6 * 4

-- `PCOM_CMD_IDLE`, `PCOM_CMD_DONE`, and the status words.
abbrev pub pcom_cmd_idle : ℕ
pcom_cmd_idle = 0

abbrev pub pcom_cmd_done : ℕ
pcom_cmd_done = 1

abbrev pub pcom_invalid_status : ℕ
pcom_invalid_status = 0

abbrev pub pcom_ready : ℕ
pcom_ready = 1

abbrev pub pcom_cmd_success : ℕ
pcom_cmd_success = 3

abbrev pub pcom_cmd_fail : ℕ
pcom_cmd_fail = 4

-- The commands that the drivers use.
abbrev pub pcom_clkctl_rpc_enable : ℕ
pcom_clkctl_rpc_enable = 20

abbrev pub pcom_clkctl_rpc_disable : ℕ
pcom_clkctl_rpc_disable = 21

abbrev pub pcom_clkctl_rpc_set_flags : ℕ
pcom_clkctl_rpc_set_flags = 23

abbrev pub pcom_clkctl_rpc_set_rate : ℕ
pcom_clkctl_rpc_set_rate = 24

abbrev pub pcom_clkctl_rpc_rate : ℕ
pcom_clkctl_rpc_rate = 27

abbrev pub pcom_clkctl_rpc_enabled : ℕ
pcom_clkctl_rpc_enabled = 29

abbrev pub pcom_vreg_switch_cmd : ℕ
pcom_vreg_switch_cmd = 30

abbrev pub pcom_vreg_set_level_cmd : ℕ
pcom_vreg_set_level_cmd = 31

abbrev pub pcom_rpc_gpio_tlmm_config_ex : ℕ
pcom_rpc_gpio_tlmm_config_ex = 37

-- What `msm_proc_comm` returns, whether 0 or -1, with the words behind `data1` and `data2`, if any.
pub record Reply (S : Type 0) : Type 0 where
  pub succeeds : Bool
  pub data1 : Option ℕ
  pub data2 : Option ℕ
  pub world : S

abbrev pub word_of : Option ℕ → ℕ
word_of none = 0
word_of (some v) = v

module _ {S : Type 0} (m : Mmio S) where
  -- `pcom_wait_for`
  unfoldable pub wait_for : ℕ → ℕ → ℕ → S → Option S
  wait_for zero addr value s = none
  wait_for (suc n) addr value s =
      let (v, s') = m.read32 addr s in
      let more = wait_for n addr value s' in if v == value then some s' else more

  -- `if (data) *data = readl(addr)`
  abbrev pub fetch : ℕ → Option ℕ → S → Option ℕ × S
  fetch addr none s = (none, s)
  fetch addr (some v) s = let (v', s') = m.read32 addr s in (some v', s')

  -- `msm_proc_comm` after the modem is ready.
  unfoldable pub post : ℕ → Option ℕ → Option ℕ → S → S
  post cmd data1 data2 s = m.write32 msm_a2m_int6 1 (
      m.write32 app_data2 (word_of data2)
        (m.write32 app_data1 (word_of data1) (m.write32 app_command cmd s)))

  -- `msm_proc_comm` once the command is done.
  unfoldable pub collect : Option ℕ → Option ℕ → S → Reply S
  collect data1 data2 s =
      let (status, s1) = m.read32 app_status s in
      let (v1, s2) = fetch app_data1 data1 s1 in
      let (v2, s3) = fetch app_data2 data2 s2 in
      if status == pcom_cmd_fail
      then record {
        succeeds = false;
        data1 = data1;
        data2 = data2;
        world = m.write32 app_command pcom_cmd_idle s1;
      }
      else record {
        succeeds = true;
        data1 = v1;
        data2 = v2;
        world = m.write32 app_command pcom_cmd_idle s3;
      }

  -- `msm_proc_comm`
  unfoldable pub proc_comm : ℕ → ℕ → Option ℕ → Option ℕ → S → Option (Reply S)
  proc_comm fuel cmd data1 data2 s = and_then (wait_for fuel mdm_status pcom_ready s) λ s'.
      and_then (wait_for fuel app_command pcom_cmd_done (post cmd data1 data2 s'))
        λ s''. some (collect data1 data2 s'')

  -- `msm_pcom_init`
  unfoldable pub pcom_init : S → S
  pcom_init s = m.write32 app_status pcom_invalid_status (m.write32 app_command pcom_cmd_idle s)
