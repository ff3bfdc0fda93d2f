-- ===== src/I2c.antt =====
-- The I2C controller: QSD8250Pkg/GPLDrivers/I2CDxe/I2CDxe.c. The registers, the pins, the clock and the
-- interrupt controller are parameters; so is the number of interrupts that arrive at each poll of the
-- status. `none` is a fault: an access outside of a buffer, past the messages, or through a null pointer.
pub mod Transfer
pub mod Bounds
pub mod Ends
pub mod Frames
pub mod Sent
pub mod Order
pub mod Clocking
mod Tests
use msm8909pkg.Base.{
  and_then, ℕ, zero, suc, ◌+◌, ◌-◌, ◌*◌, ◌/◌, ◌%◌, ◌^◌, Bool, true, false, not, ◌&&◌, ◌||◌, Option,
  none, some, List, [], ◌∷◌, ◌++◌, if◌then◌else◌, ◌==◌, ltb, length, get_elem?, set, bit_and,
  bit_or,
}
use msm8909pkg.Base.Int.{ℤ, pos, negsuc}
use msm8909pkg.Mmio.{Mmio}
use msm8909pkg.MicroP.{I2cMsg}

-- `MSM_I2C_BASE` with the offsets of the registers.
abbrev pub i2c_write_data : ℕ
i2c_write_data = 0xA9900000

abbrev pub i2c_clk_ctl : ℕ
i2c_clk_ctl = 0xA9900000 + 0x04

abbrev pub i2c_status : ℕ
i2c_status = 0xA9900000 + 0x08

abbrev pub i2c_read_data : ℕ
i2c_read_data = 0xA9900000 + 0x0c

abbrev pub i2c_interface_select : ℕ
i2c_interface_select = 0xA9900000 + 0x10

-- `I2C_WRITE_DATA_ADDR_BYTE`, `I2C_WRITE_DATA_LAST_BYTE`
abbrev pub addr_byte : ℕ
addr_byte = 2 ^ 8

abbrev pub last_byte : ℕ
last_byte = 2 ^ 9

-- A bit of the status: `status & mask`.
abbrev pub has : ℕ → ℕ → Bool
has status mask = not (bit_and status mask == 0)

abbrev pub wr_buffer_full : ℕ
wr_buffer_full = 1

abbrev pub rd_buffer_full : ℕ
rd_buffer_full = 2

abbrev pub bus_active : ℕ
bus_active = 2 ^ 8

abbrev pub bus_master : ℕ
bus_master = 2 ^ 9

abbrev pub error_mask : ℕ
error_mask = 0xfc

-- `ERROR`, `ERR_NOT_READY` and `ERR_TIMED_OUT`
abbrev pub error : ℤ
error = negsuc 0

abbrev pub err_not_ready : ℤ
err_not_ready = negsuc 2

abbrev pub err_timed_out : ℤ
err_timed_out = negsuc 12

-- `struct msm_i2c_pdata`, without the base, which is fixed; `has_mux` says that `set_mux_to_i2c` is set.
pub record Pdata : Type 0 where
  pub i2c_clock : ℤ
  pub clk_nr : ℕ
  pub irq_nr : ℕ
  pub scl_gpio : ℕ
  pub sda_gpio : ℕ
  pub has_mux : Bool

-- `struct msm_i2c_dev` with the static `timeout`. The pointer `msg` into the array of messages is the
-- message that it points to, with those before and after it.
pub record Dev : Type 0 where
  pub past : List I2cMsg
  pub msg : Option I2cMsg
  pub rest : List I2cMsg
  pub pdata : Option Pdata
  pub rem : ℕ
  pub position : ℤ
  pub cnt : ℕ
  pub ret : ℤ
  pub need_flush : Bool
  pub flush_cnt : ℕ
  pub timeout : ℤ

-- What the driver calls: `gGpio`, `gClock`, `gInterrupt`, `set_mux_to_i2c`, `readl` and `writel`.
pub record I2cPlatform (S : Type 0) : Type 0 where
  pub mmio : Mmio S
  pub get_pin : ℕ → S → Bool × S
  pub set_pin : ℕ → ℕ → S → S
  pub input_pin : ℕ → S → S
  pub set_mux_to_i2c : ℕ → S → S
  pub clk_enable : ℕ → S → S
  pub clk_disable : ℕ → S → S
  pub enable_irq : ℕ → S → S
  pub disable_irq : ℕ → S → S
  pub register_irq : ℕ → S → S

-- The word with the address, and that with a byte.
abbrev pub or_if : Bool → ℕ → ℕ → ℕ
or_if true mask v = bit_or v mask
or_if false mask v = v

abbrev pub address_word : I2cMsg → Bool → ℕ
address_word mg last =
    or_if last last_byte (or_if mg.is_read 1 (bit_or addr_byte (mg.addr * 2) % 2 ^ 16))

abbrev pub data_word : ℕ → Bool → ℕ
data_word v last = or_if last last_byte v

abbrev pub store : I2cMsg → ℕ → ℕ → I2cMsg
store mg i v = record mg { buf = set mg.buf i v }

-- `dev.msg++` with the reset for the next message.
abbrev step_message : I2cMsg → List I2cMsg → Dev → Option Dev
step_message mg [] d = none
step_message mg (next ∷ rest) d = some (record d {
  past = d.past ++ mg ∷ [];
  msg = some next;
  rest = rest;
  rem = d.rem - 1;
  position = negsuc 0;
  cnt = next.len;
})

-- The end of `msm_i2c_interrupt_locked`, once the position is not negative and no byte is left.
abbrev message_done : Bool → I2cMsg → Dev → Option Dev
message_done not_done mg d =
    if ltb 1 d.rem
    then step_message mg d.rest d
    else some (if not not_done && not d.need_flush then record d { timeout = pos 0 } else d)

abbrev advance_at : ℤ → Bool → Option I2cMsg → Dev → Option Dev
advance_at (pos i) not_done (some mg) d = if d.cnt == 0 then message_done not_done mg d else some d
advance_at (pos i) not_done none d = some d
advance_at (negsuc n) not_done o d = some d

abbrev pub advance : Bool → Dev → Option Dev
advance not_done d = advance_at d.position not_done d.msg d

module _ {S : Type 0} (w : I2cPlatform S) where
  abbrev pub write_data : ℕ → S → S
  write_data v s = w.mmio.write32 i2c_write_data v s

  -- `msm_i2c_write_delay` and the write; the delay itself is left out.
  abbrev pub delayed_write : ℕ → S → S
  delayed_write v s = write_data v (w.mmio.read32 i2c_interface_select s).1

  abbrev fill_byte : ℕ → Option ℕ → Dev → S → Option (Bool × Dev × S)
  fill_byte i none d s = none
  fill_byte i (some v) d s = some (
    true,
    record d { position = pos (i + 1); cnt = d.cnt - 1 },
    delayed_write (data_word v (d.cnt == 1 && d.rem == 1)) s,
  )

  -- `msm_i2c_fill_write_buffer`, on the sign of the position.
  abbrev fill_at : ℤ → I2cMsg → Dev → S → Option (Bool × Dev × S)
  fill_at (negsuc n) mg d s = some (
    true,
    record d { position = if n == 0 then pos 0 else negsuc (n - 1) },
    delayed_write (address_word mg (d.rem == 1 && mg.len == 0)) s,
  )
  fill_at (pos i) mg d s =
      if mg.is_read || d.cnt == 0 then some (false, d, s) else fill_byte i (get_elem? mg.buf i) d s

  unfoldable pub fill_write_buffer : I2cMsg → Dev → S → Option (Bool × Dev × S)
  fill_write_buffer mg d s = fill_at d.position mg d s

  -- The first part of `msm_i2c_read_buffer`: a byte that is expected.
  unfoldable pub receive : ℕ → I2cMsg → Dev → S → Option (Dev × S)
  receive i mg d s =
      let short = d.cnt == 1 && i == 0 in
      let s' = if short || d.cnt == 2 then write_data last_byte s else s in
      let (v, s'') = w.mmio.read32 i2c_read_data s' in
      if ltb i (length mg.buf)
      then some (
        record d {
          msg = some (store mg i (v % 256));
          need_flush = short || d.need_flush;
          cnt = d.cnt - 1;
          position = pos (i + 1);
        },
        s'',
      )
      else none

  -- The second part: a byte that is not.
  unfoldable pub flush : Dev → S → Option (Dev × S)
  flush d s =
      let s' = if d.flush_cnt % 2 == 1 then write_data last_byte s else s in
      let s'' = (w.mmio.read32 i2c_read_data s').1 in
      some (
        (if d.need_flush
            then record d { need_flush = false }
            else record d { flush_cnt = d.flush_cnt + 1 }),
        s'',
      )

  -- `msm_i2c_read_buffer`
  abbrev read_at : ℤ → I2cMsg → Dev → S → Option (Dev × S)
  read_at (negsuc n) mg d s = flush d s
  read_at (pos i) mg d s = if mg.is_read && not (d.cnt == 0) then receive i mg d s else flush d s

  unfoldable pub read_buffer : I2cMsg → Dev → S → Option (Dev × S)
  read_buffer mg d s = read_at d.position mg d s

  abbrev finish_interrupt : Bool → Dev → S → Option (Dev × S)
  finish_interrupt not_done d s = and_then (advance not_done d) λ d'. some (d', s)

  -- `msm_i2c_interrupt_locked`
  unfoldable pub serve_status : ℕ → I2cMsg → Dev → S → Option (Dev × S)
  serve_status status mg d s =
      let filled =
        if has status wr_buffer_full then some (true, d, s) else fill_write_buffer mg d s in
      and_then filled λ f.
        let (not_done, d', s') = f in
        let got = if has status rd_buffer_full then read_buffer mg d' s' else some (d', s') in
        and_then got λ g. finish_interrupt not_done g.0 g.1

  abbrev interrupt_on : ℕ → Option I2cMsg → Dev → S → Option (Dev × S)
  interrupt_on status none d s = some (d, s)
  interrupt_on status (some mg) d s =
      if has status error_mask
      then some (record d { ret = error; timeout = err_timed_out }, s)
      else serve_status status mg d s

  unfoldable pub interrupt : Dev → S → Option (Dev × S)
  interrupt d s = let (status, s') = w.mmio.read32 i2c_status s in interrupt_on status d.msg d s'
