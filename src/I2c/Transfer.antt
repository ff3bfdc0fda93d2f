-- ===== src/I2c/Transfer.antt =====
-- A transfer: msm_i2c_xfer, and what calls it, of QSD8250Pkg/GPLDrivers/I2CDxe/I2CDxe.c.
use msm8909pkg.Base.{
  and_then, ℕ, zero, suc, ◌-◌, ◌*◌, ◌/◌, ◌^◌, Bool, true, false, not, ◌&&◌, ◌||◌, Option, none,
  some, List, [], ◌∷◌, ◌++◌, if◌then◌else◌, ◌==◌, ltb, length, bit_and, bit_or,
}
use msm8909pkg.Base.Int.{ℤ, pos, negsuc, ltb_ℤ}
use msm8909pkg.MicroP.{I2cMsg}
use msm8909pkg.I2c.{
  i2c_write_data, i2c_clk_ctl, i2c_status, i2c_read_data, last_byte, has, wr_buffer_full,
  rd_buffer_full, bus_active, bus_master, err_not_ready, err_timed_out, Pdata, Dev, I2cPlatform,
  interrupt,
}

-- What `retries != 200`, the clock cycles of a recovery and `MSM_I2C_WRITE_RETRY_TIMES` allow.
abbrev pub notbusy_polls : ℕ
notbusy_polls = 200

abbrev pub recovery_cycles : ℕ
recovery_cycles = 9

abbrev pub i2c_tries : ℕ
i2c_tries = 17

abbrev array : List I2cMsg → List I2cMsg → Option I2cMsg → List I2cMsg
array before after none = before ++ after
array before after (some mg) = before ++ mg ∷ after

-- The array of messages, as the transfer leaves it.
abbrev pub messages : Dev → List I2cMsg
messages d = array d.past d.rest d.msg

-- `dev` at the start of a transfer and after it; `msg = NULL` forgets the array.
abbrev pub started : I2cMsg → List I2cMsg → ℕ → Dev → Dev
started mg rest num d = record d {
  past = [];
  msg = some mg;
  rest = rest;
  rem = num;
  position = negsuc 0;
  ret = pos num;
  need_flush = false;
  flush_cnt = 0;
  cnt = mg.len;
}

abbrev pub stopped : Dev → Dev
stopped d = record d {
  past = [];
  msg = none;
  rest = [];
  rem = 0;
  position = pos 0;
  ret = pos 0;
  flush_cnt = 0;
  cnt = 0;
}

abbrev pub is_timed_out : ℤ → Bool
is_timed_out (pos n) = false
is_timed_out (negsuc n) = n == 12

-- What `msm_i2c_xfer` returns, and the messages with the bytes that were read.
pub record XferResult (S : Type 0) : Type 0 where
  pub ret : ℤ
  pub msgs : List I2cMsg
  pub dev : Dev
  pub world : S

-- The messages of `msm_i2c_write` and `msm_i2c_read`.
abbrev pub i2c_write_messages : ℕ → ℕ → List ℕ → List I2cMsg
i2c_write_messages chip count buf =
    record { addr = chip; is_read = false; len = count; buf = buf } ∷ []

abbrev pub i2c_read_messages : ℕ → ℕ → ℕ → List ℕ → List I2cMsg
i2c_read_messages chip reg count buf =
    record { addr = chip; is_read = false; len = 1; buf = reg ∷ [] }
    ∷ record { addr = chip; is_read = true; len = count; buf = buf }
    ∷ []

-- The clock of `msm_i2c_probe`, in Hz, and the divider of 19.2 MHz that makes it.
abbrev pub target_clk : ℤ → ℕ
target_clk (pos hz) =
    if hz == 0 then 100000 else if ltb hz 100000 || ltb 400000 hz then 100000 else hz
target_clk (negsuc n) = 100000

abbrev pub fs_div : ℕ → ℕ
fs_div hz = 19200000 / hz / 2 - 3

abbrev pub clk_ctl : ℕ → ℕ
clk_ctl div = bit_or (bit_and 3 7 * 2 ^ 8) (bit_and div 0xff)

module _ {S : Type 0} (w : I2cPlatform S) where
  -- The handler runs `n` times.
  unfoldable pub interrupts : ℕ → Dev → S → Option (Dev × S)
  interrupts zero d s = some (d, s)
  interrupts (suc n) d s = and_then (interrupt w d s) λ x. interrupts n x.0 x.1

  -- `msm_i2c_poll_notbusy`, with `n` polls left and `arrive n` interrupts before each; the Boolean says
  -- whether the bus has become idle.
  unfoldable pub poll_notbusy : (ℕ → ℕ) → ℕ → Dev → S → Option (Bool × Dev × S)
  poll_notbusy arrive zero d s = some (false, d, s)
  poll_notbusy arrive (suc n) d s = and_then (interrupts (arrive n) d s) λ x.
      let (status, s') = w.mmio.read32 i2c_status x.1 in
      let more = poll_notbusy arrive n x.0 s' in
      if has status bus_active then more else some (true, x.0, s')

  abbrev mux : Pdata → ℕ → S → S
  mux p to_i2c s = if p.has_mux then w.set_mux_to_i2c to_i2c s else s

  -- The loop of clock cycles, `n` of them left.
  abbrev clock_cycle : Pdata → S → Bool × S
  clock_cycle p s =
      let s1 = w.input_pin p.scl_gpio (w.set_pin p.sda_gpio 0 (w.set_pin p.scl_gpio 0 s)) in
      let s2 = (w.get_pin p.scl_gpio (w.get_pin p.scl_gpio s1).1).1 in
      let (high, s3) = w.get_pin p.scl_gpio s2 in (high, w.input_pin p.sda_gpio s3)

  unfoldable pub clock_out : Pdata → ℕ → Bool → S → S
  clock_out p zero clk s = s
  clock_out p (suc n) clk s =
      let (sda, s') = w.get_pin p.sda_gpio s in
      let (high, s'') = clock_cycle p s' in
      let more = clock_out p n high s'' in if sda && clk then s' else more

  abbrev clear_buffer : ℕ → S → S
  clear_buffer status s =
      if has status rd_buffer_full
      then (w.mmio.read32 i2c_read_data (w.mmio.write32 i2c_write_data last_byte s)).1
      else if has status bus_master
      then w.mmio.write32 i2c_write_data (bit_or last_byte 0xff) s
      else s

  -- `msm_i2c_recover_bus_busy`; the Boolean says whether it returns 0, and not `ERR_NOT_READY`.
  unfoldable pub recover_bus_busy : Pdata → S → Bool × S
  recover_bus_busy p s =
      let (status, s') = w.mmio.read32 i2c_status s in
      let cleared = clear_buffer status (mux p 0 s') in
      let clocked = mux p 1 (clock_out p recovery_cycles false cleared) in
      let (again, s'') = w.mmio.read32 i2c_status clocked in
      if has status bus_active || has status wr_buffer_full
      then (not (has again bus_active), s'')
      else (true, s')

  -- The label `err`.
  abbrev pub release : Pdata → S → S
  release p s = w.clk_disable p.clk_nr (w.disable_irq p.irq_nr s)

  abbrev pub outcome : Pdata → ℤ → List I2cMsg → Dev → S → XferResult S
  outcome p r msgs d s = record { ret = r; msgs = msgs; dev = d; world = release p s }

  -- After the second wait. `idle` says that the bus is no longer busy.
  unfoldable pub conclude : Pdata → Bool → Dev → S → XferResult S
  conclude p idle d s =
      let (recovered, s1) = if idle then (true, s) else recover_bus_busy p s in
      let r = if is_timed_out d.timeout then err_timed_out else d.ret in
      let s2 = if ltb_ℤ r (pos 0) then (recover_bus_busy p s1).1 else s1 in
      if recovered
      then outcome p r (messages d) (stopped d) s2
      else outcome p d.ret (messages d) (stopped d) s1

  abbrev pub run_messages : Pdata → (ℕ → ℕ) → List I2cMsg → ℕ → Dev → S → Option (XferResult S)
  run_messages p arrive [] num d s = none
  run_messages p arrive (mg ∷ rest) num d s =
      and_then (interrupt w (started mg rest num d) s)
        λ x. and_then (poll_notbusy arrive notbusy_polls x.0 x.1) λ y. some (conclude p y.0 y.1 y.2)

  abbrev pub begin : Pdata → (ℕ → ℕ) → List I2cMsg → ℕ → Bool × Dev × S → Option (XferResult S)
  begin p arrive msgs num (idle, d, s) =
      let (recovered, s') = if idle then (true, s) else recover_bus_busy p s in
      if recovered
      then run_messages p arrive msgs num d s'
      else some (outcome p err_not_ready msgs d s')

  abbrev pub transfer :
      Option Pdata → (ℕ → ℕ) → (ℕ → ℕ) → List I2cMsg → ℕ → Dev → S → Option (XferResult S)
  transfer none arrive arrive' msgs num d s = none
  transfer (some p) arrive arrive' msgs num d s =
      let s' = w.enable_irq p.irq_nr (w.clk_enable p.clk_nr s) in
      and_then (poll_notbusy arrive notbusy_polls d s') (begin p arrive' msgs num)

  -- `msm_i2c_xfer`, with the interrupts that arrive in its two waits.
  unfoldable pub msm_i2c_xfer :
      (ℕ → ℕ) → (ℕ → ℕ) → List I2cMsg → ℕ → Dev → S → Option (XferResult S)
  msm_i2c_xfer arrive arrive' msgs num d s = transfer d.pdata arrive arrive' msgs num d s

  abbrev pub is_count : ℤ → ℕ → Bool
  is_count (pos k) n = k == n
  is_count (negsuc k) n = false

  -- The loop of `msm_i2c_write` and `msm_i2c_read`, with `n` tries left; the Boolean says whether the
  -- result is 0, and not `ERR_NOT_READY`. The interrupts that arrive depend on the try.
  unfoldable pub attempts :
      (ℕ → ℕ → ℕ) → (ℕ → ℕ → ℕ) → ℕ → List I2cMsg → Dev → S → Option (Bool × XferResult S)
  attempts arrive arrive' zero msgs d s =
      some (false, record { ret = err_not_ready; msgs = msgs; dev = d; world = s })
  attempts arrive arrive' (suc n) msgs d s =
      and_then (msm_i2c_xfer (arrive n) (arrive' n) msgs (length msgs) d s) λ o.
        let more = attempts arrive arrive' n o.msgs o.dev o.world in
        if is_count o.ret (length msgs) then some (true, o) else more

  abbrev pub installed :
      Option Pdata
      → (ℕ → ℕ → ℕ)
      → (ℕ → ℕ → ℕ)
      → List I2cMsg
      → Dev
      → S
      → Option (Bool × XferResult S)
  installed none arrive arrive' msgs d s =
      some (false, record { ret = err_not_ready; msgs = msgs; dev = d; world = s })
  installed (some p) arrive arrive' msgs d s = attempts arrive arrive' i2c_tries msgs d s

  unfoldable pub msm_i2c_write :
      (ℕ → ℕ → ℕ) → (ℕ → ℕ → ℕ) → ℕ → ℕ → List ℕ → Dev → S → Option (Bool × XferResult S)
  msm_i2c_write arrive arrive' chip count buf d s =
      installed d.pdata arrive arrive' (i2c_write_messages chip count buf) d s

  unfoldable pub msm_i2c_read :
      (ℕ → ℕ → ℕ) → (ℕ → ℕ → ℕ) → ℕ → ℕ → ℕ → List ℕ → Dev → S → Option (Bool × XferResult S)
  msm_i2c_read arrive arrive' chip reg count buf d s =
      installed d.pdata arrive arrive' (i2c_read_messages chip reg count buf) d s

  -- `msm_i2c_probe`; the Boolean says whether it returns 0, and not -1.
  abbrev probe_free : Option Pdata → Pdata → Dev → S → Bool × Dev × S
  probe_free (some q) p d s = (false, d, s)
  probe_free none p d s =
      let s1 = w.set_mux_to_i2c 0 (w.disable_irq p.irq_nr s) in
      let s2 =
        w.mmio.write32 i2c_clk_ctl (clk_ctl (fs_div (target_clk p.i2c_clock)))
          (w.clk_enable p.clk_nr s1) in
      if p.has_mux
      then (true, record d { pdata = some p }, w.register_irq p.irq_nr (w.clk_disable p.clk_nr s2))
      else (false, d, s)

  unfoldable pub msm_i2c_probe : Pdata → Dev → S → Bool × Dev × S
  msm_i2c_probe p d s = probe_free d.pdata p d s

  -- `msm_i2c_remove`
  abbrev remove_from : Option Pdata → Dev → S → Dev × S
  remove_from none d s = (d, s)
  remove_from (some p) d s = (record d { pdata = none }, w.set_mux_to_i2c 0 (release p s))

  unfoldable pub msm_i2c_remove : Dev → S → Dev × S
  msm_i2c_remove d s = remove_from d.pdata d s
