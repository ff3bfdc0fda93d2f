-- ===== src/Clock/Driver.antt =====
-- The clocks that the modem controls: QSD8250Pkg/GPLDrivers/ClockDxe/ClockDxe.c. `none` is an access
-- outside of the table, or a wait for the modem whose fuel has run out.
use msm8909pkg.Base.{
  ℕ, suc, ◌-◌, ◌^◌, Option, none, some, and_then, List, [], ◌∷◌, length, if◌then◌else◌, ◌==◌, ltb,
}
use msm8909pkg.Mmio.{Mmio}
use msm8909pkg.Pcom.{proc_comm, word_of}

-- `NR_CLKS`, and the -1 of a clock that the modem does not know.
abbrev pub nr_clks : ℕ
nr_clks = 100

abbrev pub no_clock : ℕ
no_clock = 2 ^ 32 - 1

-- `PCOM_CLK_REGIME_SEC_ENABLE`, `PCOM_CLK_REGIME_SEC_DISABLE`, `PCOM_CLK_REGIME_SEC_SEL_SPEED` and
-- `PCOM_CLK_REGIME_SEC_MSM_GET_CLK_FREQ_KHZ`
abbrev pub sec_enable : ℕ
sec_enable = 50

abbrev pub sec_disable : ℕ
sec_disable = 51

abbrev pub sec_sel_speed : ℕ
sec_sel_speed = 58

abbrev pub sec_get_clk_freq_khz : ℕ
sec_get_clk_freq_khz = 67

-- `ClocksLookup`, and the machine.
pub record Clocks (S : Type 0) : Type 0 where
  pub lookup : ℕ → ℕ
  pub world : S

abbrev pub entry_of : List (ℕ × ℕ) → ℕ → ℕ
entry_of [] id = no_clock
entry_of ((k, v) ∷ l) id = if k == id then v else entry_of l id

-- `FillClocksLookup`
abbrev pub fill_clocks_lookup : ℕ → ℕ
fill_clocks_lookup = entry_of (
    (10, 50)
    ∷ (11, 52)
    ∷ (5, 42)
    ∷ (87, 64)
    ∷ (12, 55)
    ∷ (8, 56)
    ∷ (1, 19)
    ∷ (34, 78)
    ∷ (35, 80)
    ∷ (46, 24)
    ∷ (40, 40)
    ∷ (41, 41)
    ∷ (13, 53)
    ∷ (45, 95)
    ∷ (14, 9)
    ∷ (19, 66)
    ∷ (21, 67)
    ∷ (20, 17)
    ∷ (22, 16)
    ∷ [])

-- A ladder of tests `Rate > limit`: the first that holds gives the speed, the highest first; 1 is the
-- lowest.
unfoldable pub step_speed : List ℕ → ℕ → ℕ
step_speed [] rate = 1
step_speed (t ∷ ts) rate = if ltb t rate then suc (suc (length ts)) else step_speed ts rate

abbrev pub codec_limits : List ℕ
codec_limits = 11289600 ∷ 8192000 ∷ 6144000 ∷ 5644800 ∷ 4096000 ∷ 3072000 ∷ 2822400 ∷ 2048000 ∷ []

abbrev pub sdac_limits : List ℕ
sdac_limits = 1411200 ∷ 1024000 ∷ 768000 ∷ 705600 ∷ 512000 ∷ 384000 ∷ 352800 ∷ 256000 ∷ []

abbrev pub uart_limits : List ℕ
uart_limits =
    61440000 ∷ 58982400 ∷ 56000000 ∷ 51200000 ∷ 48000000 ∷ 40000000 ∷ 32000000 ∷ 24000000 ∷ 16000000
    ∷ 15360000 ∷ 14745600 ∷ 7680000 ∷ 7372800 ∷ 3840000 ∷ []

abbrev pub sdc_limits : List ℕ
sdc_limits =
    50000000 ∷ 49152000 ∷ 45000000 ∷ 40000000 ∷ 35000000 ∷ 30000000 ∷ 25000000 ∷ 20000000 ∷ 15000000
    ∷ 10000000 ∷ 5000000 ∷ 400000 ∷ 144000 ∷ []

-- The `switch` of `CotullaClkSetRate`: a speed, a clock that has none to set (0), or one that is not
-- known (-1).
pub data Choice : Type 0 where
  speed_no : ℕ → Choice
  as_it_is : Choice
  unknown : Choice

abbrev pub exact_speed : List (ℕ × ℕ) → ℕ → Choice
exact_speed [] rate = as_it_is
exact_speed ((r, v) ∷ l) rate = if r == rate then speed_no v else exact_speed l rate

-- The ladder of a clock, if it has one.
abbrev pub limits : ℕ → Option (List ℕ)
limits id =
    if id == 10
    then some codec_limits
    else if id == 11
    then some codec_limits
    else if id == 87
    then some sdac_limits
    else if id == 34
    then some uart_limits
    else if id == 35
    then some uart_limits
    else if id == 5
    then some (2048000 ∷ 128000 ∷ [])
    else if id == 45
    then some (15360000 ∷ 9600000 ∷ 4800000 ∷ 960000 ∷ [])
    else if id == 19
    then some sdc_limits
    else if id == 21
    then some sdc_limits
    else none

abbrev pub other_speed : ℕ → ℕ → Choice
other_speed id rate =
    if id == 40
    then exact_speed
        ((96000000, 37)
          ∷ (48000000, 32)
          ∷ (24000000, 22)
          ∷ (12000000, 14)
          ∷ (6000000, 6)
          ∷ (3000000, 1)
          ∷ [])
        rate
    else if id == 41
    then exact_speed
        ((36000000, 1) ∷ (48000000, 2) ∷ (64000000, 3) ∷ (78000000, 4) ∷ (96000000, 5) ∷ []) rate
    else if id == 20
    then as_it_is
    else if id == 22
    then as_it_is
    else unknown

abbrev pub ladder_speed : Option (List ℕ) → ℕ → ℕ → Choice
ladder_speed (some ts) id rate = speed_no (step_speed ts rate)
ladder_speed none id rate = other_speed id rate

unfoldable pub choose_speed : ℕ → ℕ → Choice
choose_speed id rate = ladder_speed (limits id) id rate

-- What the drivers ask of the clocks.
pub data Request : Type 0 where
  enable : ℕ → Request
  disable : ℕ → Request
  set_rate : ℕ → ℕ → Request
  get_rate : ℕ → Request

module _ {S : Type 0} (m : Mmio S) (fuel : ℕ) where
  -- `msm_proc_comm(cmd, &ClocksLookup[id], data2)`: the call writes its first word back to the table.
  unfoldable pub call_clock : ℕ → ℕ → Option ℕ → Clocks S → Option (Option ℕ × Clocks S)
  call_clock cmd id data2 c =
      and_then (proc_comm m fuel cmd (some (c.lookup id)) data2 c.world) λ r. some (
        r.data2,
        record c { lookup = λ i. if i == id then word_of r.data1 else c.lookup i; world = r.world },
      )

  abbrev pub in_table : ℕ → Option (ℕ × Clocks S) → Option (ℕ × Clocks S)
  in_table id o = if ltb id nr_clks then o else none

  abbrev pub chosen : Choice → ℕ → Clocks S → Option (ℕ × Clocks S)
  chosen (speed_no v) id c = and_then (call_clock sec_sel_speed id (some v) c) λ x. some (0, x.1)
  chosen as_it_is id c = some (0, c)
  chosen unknown id c = some (no_clock, c)

  -- `ClkSetRate`
  unfoldable pub clk_set_rate : ℕ → ℕ → Clocks S → Option (ℕ × Clocks S)
  clk_set_rate id freq c = chosen (choose_speed id freq) id c

  -- `ClkGetRate`
  unfoldable pub clk_get_rate : ℕ → Clocks S → Option (ℕ × Clocks S)
  clk_get_rate id c =
      let asked =
        and_then (call_clock sec_get_clk_freq_khz id (some 0) c) λ x. some (word_of x.0, x.1) in
      in_table id (
        if c.lookup id == no_clock
        then some (if id == 26 then 64000000 else no_clock, c)
        else asked)

  -- `ClkEnable`
  unfoldable pub clk_enable : ℕ → Clocks S → Option (ℕ × Clocks S)
  clk_enable id c =
      let called = and_then (call_clock sec_enable id none c) λ x. some (x.1.lookup id, x.1) in
      in_table id (if c.lookup id == no_clock then some (no_clock, c) else called)

  -- `ClkDisable`; it returns nothing, here 0.
  unfoldable pub clk_disable : ℕ → Clocks S → Option (ℕ × Clocks S)
  clk_disable id c =
      let called = and_then (call_clock sec_disable id none c) λ x. some (0, x.1) in
      in_table id (if c.lookup id == no_clock then some (0, c) else called)

  unfoldable pub perform : Request → Clocks S → Option (ℕ × Clocks S)
  perform (enable id) c = clk_enable id c
  perform (disable id) c = clk_disable id c
  perform (set_rate id rate) c = clk_set_rate id rate c
  perform (get_rate id) c = clk_get_rate id c

  unfoldable pub perform_all : List Request → Clocks S → Option (Clocks S)
  perform_all [] c = some c
  perform_all (r ∷ rs) c = and_then (perform r c) λ x. perform_all rs x.1
