-- ===== src/Clock/Tests.antt =====
-- The rate of the processor on registers that are plain memory.
use msm8909pkg.Base.{
  true, false, none, ==_iff, ==_ne, ap, ◌∙◌, sym, Bool-cases, inl, inr, List, [], ◌∷◌, ℕ, ◌%◌, ◌^◌,
  ◌<◌, ◌≡◌, refl, if◌then◌else◌, ◌==◌, arith,
}
use mathlib.Core.Bool.{false≢true}
use msm8909pkg.Mmio.{Mmio, Holds}
use msm8909pkg.Clock.{AcpuClock, acpu_stby, scpll_status_addr, acpuclk_set_rate}
use msm8909pkg.Pcom.{mdm_status, msm_a2m_int6}
use msm8909pkg.Pcom.Modem.{Modem, is_mailbox}
use msm8909pkg.Clock.{src_scpll, clk_sel_addr, AcpuSpeed}
use msm8909pkg.Clock.Init.{mpll_addr, Boot, acpuclk_init}
use msm8909pkg.Clock.Booted.{IsReady, Booted, requested, acpuclk_init-Booted}
use msm8909pkg.Pcom.Sample.{
  kept_word, kept_calls, first, answers, Memory as Shared, shared, modem, memory, memory-Sees,
}
use msm8909pkg.Clock.Driver.{
  Clocks, fill_clocks_lookup, Request, enable, disable, set_rate, perform_all,
}
use msm8909pkg.Clock.Served.{Serves, AllServed, all_calls, perform_all-AllServed}
use msm8909pkg.Clock.Source.{IsSel, Settled}
use msm8909pkg.Clock.Rates.{Changed, acpuclk_set_rate-Changed}

abbrev Memory : Type 0
Memory = ℕ → ℕ

-- The status register reads as 0: no switch is in progress.
abbrev registers : Mmio Memory
registers = record {
  read32 = λ a s. ((if a == scpll_status_addr then 0 else s a % 2 ^ 32), s);
  write32 = λ a v s b. if a == b then v else s b;
}

read_word :
    (a : ℕ) (s : Memory)
    → IsSel a
    → (if a == scpll_status_addr then 0 else s a % 2 ^ 32) ≡ s a % 2 ^ 32
read_word a s c = rw c refl

write_word :
    (a b v : ℕ) (s : Memory)
    → v < 2 ^ 32
    → (if a == b then v else s b) % 2 ^ 32 ≡ (if a == b then v else s b % 2 ^ 32)
write_word a b v s h = ground arith

abbrev registers-Holds : Holds registers IsSel
registers-Holds = record {
  reg = λ a s. s a % 2 ^ 32;
  reg_word = λ a s. omega arith;
  read_reg = read_word;
  read_keeps = λ a b s c. refl;
  write_reg = λ a b v s c h. write_word a b v s h;
}

abbrev registers-Settled : Settled registers 0 registers-Holds
registers-Settled = record { status = λ s. refl }

abbrev at_standby : AcpuClock Memory
at_standby = record { current_speed = acpu_stby; world = λ a. 0 }

acpuclk_set_rate-Changed_example :
    Changed registers 0 registers-Holds registers-Settled 998400 at_standby
      (acpuclk_set_rate registers 1 998400000 at_standby)
acpuclk_set_rate-Changed_example =
    acpuclk_set_rate-Changed registers 0 registers-Holds registers-Settled 998400000 at_standby refl

-- The driver's table, over a modem that has taken no call.
abbrev clocks : Clocks Shared
clocks = record { lookup = fill_clocks_lookup; world = memory }

abbrev clocks-Serves : Serves shared modem fill_clocks_lookup [] clocks
clocks-Serves = record { table = λ i. refl; status = 0; data1 = 0; data2 = 0; sees = memory-Sees }

-- The clock 2 is not in the table.
abbrev requests : List Request
requests = enable 21 ∷ set_rate 21 25000000 ∷ enable 2 ∷ disable 21 ∷ []

perform_all-AllServed_example :
    AllServed shared modem
      (all_calls fill_clocks_lookup requests)
      (perform_all shared 1 requests clocks)
perform_all-AllServed_example =
    perform_all-AllServed shared modem 0 requests [] clocks (λ h c. refl) (omega arith)
      clocks-Serves

-- The machine at its start: the shared memory of a modem, the PLL of the modem on, and the selection.
abbrev at_start : ℕ → ℕ → ℕ
at_start a v =
    if a == scpll_status_addr
    then 0
    else if a == mpll_addr
    then 1
    else if a == clk_sel_addr
    then v % 2 ^ 32
    else v

mailbox_ne : (a b : ℕ) → is_mailbox a ≡ true → is_mailbox b ≡ false → (a == b) ≡ false
mailbox_ne a b k k' = ==_ne a b λ e. false≢true (sym k' ∙ ap is_mailbox (sym e) ∙ k)

mailbox_word : (a v : ℕ) → is_mailbox a ≡ true → at_start a v ≡ v
mailbox_word a v k =
    rw
      (
        mailbox_ne a scpll_status_addr k refl,
        mailbox_ne a mpll_addr k refl,
        mailbox_ne a clk_sel_addr k refl,
      )
      refl

abbrev machine : Mmio Shared
machine = record {
  read32 = λ a s. (at_start a (s.word a), s);
  write32 = λ a v s. shared.write32 a v s;
}

abbrev machine-Modem : Modem machine
machine-Modem = record {
  reg = λ a s. s.word a;
  calls = λ s. s.taken;
  answer = answers;
  read_reg = λ a s k. mailbox_word a (s.word a) k;
  read_keeps = λ a b s k. refl;
  read_calls = λ a s. refl;
  write_reg = λ a b v s ne k. kept_word a b v s ne;
  write_calls = kept_calls;
  taken = first;
  taken_lem = λ s. refl;
  raised_calls = λ s. refl;
  raised_done = λ s. refl;
  raised_status = λ s. refl;
  raised_data1 = λ s. refl;
  raised_data2 = λ s. refl;
  raised_ready = λ s. refl;
}

sel_word :
    (a b v : ℕ) (s : Shared)
    → IsSel b
    → v < 2 ^ 32
    → (machine.write32 a v s).word b % 2 ^ 32 ≡ (if a == b then v else s.word b % 2 ^ 32)
sel_word a b v s e h = rw e (elim (Bool-cases (a == msm_a2m_int6)) [
  | inl q ↦ rw ((==_iff a msm_a2m_int6).0 q) refl
  | inr q ↦ rw (kept_word a clk_sel_addr v s q) (write_word a clk_sel_addr v s.word h)
])

sel_read : (a v : ℕ) → IsSel a → at_start a v ≡ v % 2 ^ 32
sel_read a v e = rw e refl

abbrev machine-Holds : Holds machine IsSel
machine-Holds = record {
  reg = λ a s. s.word a % 2 ^ 32;
  reg_word = λ a s. omega arith;
  read_reg = λ a s e. sel_read a (s.word a) e;
  read_keeps = λ a b s e. refl;
  write_reg = sel_word;
}

abbrev machine-Settled : Settled machine 0 machine-Holds
machine-Settled = record { status = λ s. refl }

abbrev start : Shared
start = record {
  word = λ a. if a == mdm_status then 1 else if a == clk_sel_addr then 2 else 0;
  taken = [];
}

abbrev boot : Boot Shared
boot = record { acpuclk_init_done = false; current_speed = none; world = start }

abbrev start-IsReady : IsReady machine 0 machine-Holds machine-Settled machine-Modem [] start
start-IsReady = record {
  command = 0;
  status = 0;
  data1 = 0;
  data2 = 0;
  sees = record {
    calls_lem = refl;
    command_lem = refl;
    status_lem = refl;
    data1_lem = refl;
    data2_lem = refl;
    ready_lem = refl;
  };
}

abbrev at_998 : AcpuSpeed
at_998 = record {
  acpu_khz = 998400;
  clk_cfg = 0;
  clk_sel = src_scpll;
  sc_l_value = 0x1A;
  vdd = 1300;
  axiclk_khz = 128000;
}

acpuclk_init-Booted_example :
    Booted machine 0 machine-Holds machine-Settled machine-Modem at_998
      (requested machine 0 machine-Holds machine-Settled machine-Modem [])
      (acpuclk_init machine 1 17 boot)
acpuclk_init-Booted_example =
    acpuclk_init-Booted machine 0 machine-Holds machine-Settled machine-Modem 17 at_998 boot []
      (λ s. refl) refl refl refl start-IsReady
