-- ===== src/MicroP.antt =====
-- The microprocessor behind the I2C bus: QSD8250Pkg/Drivers/MicroPDxe/MicroPDxe.c. The bus is a
-- parameter: a transfer of messages and a delay, over a state of the machine.
pub mod Cmd
pub mod Sent
pub mod Words
mod Tests
use msm8909pkg.MicroP.Cmd
use msm8909pkg.Base.{
  ℕ, zero, suc, ◌*◌, ◌/◌, ◌%◌, Bool, true, false, not, ◌&&◌, Option, none, some, List, [], ◌∷◌,
  length, get_or, if◌then◌else◌, ◌==◌, leb, bit_or,
}

-- `struct i2c_msg`: `flags` tells a read; a message that is written has its bytes in `buf`.
pub record I2cMsg : Type 0 where
  pub addr : ℕ
  pub is_read : Bool
  pub len : ℕ
  pub buf : List ℕ

-- `gI2C->Xfer` and `MicroSecondDelay`. A transfer gives the number of messages that went through, or
-- `none` for an error, and the bytes that a read has put in its buffer.
pub record Bus (S : Type 0) : Type 0 where
  pub xfer : List I2cMsg → S → Option ℕ × List ℕ × S
  pub micro_second_delay : ℕ → S → S

-- `pdata` with its chip, `msm_microp_i2c_status`, and the machine.
pub record MicroP (S : Type 0) : Type 0 where
  pub pdata : Option ℕ
  pub msm_microp_i2c_status : ℕ
  pub world : S

-- `MICROP_I2C_ADDR`, `MSM_I2C_READ_RETRY_TIMES`, `MSM_I2C_WRITE_RETRY_TIMES` and
-- `MICROP_I2C_WRITE_BLOCK_SIZE`
abbrev pub microp_i2c_addr : ℕ
microp_i2c_addr = 0x66

abbrev pub msm_i2c_read_retry_times : ℕ
msm_i2c_read_retry_times = 16

abbrev pub msm_i2c_write_retry_times : ℕ
msm_i2c_write_retry_times = 16

abbrev pub microp_i2c_write_block_size : ℕ
microp_i2c_write_block_size = 21

-- The first `n` bytes, as `memcpy` copies them.
abbrev pub first_bytes : ℕ → List ℕ → List ℕ
first_bytes zero xs = []
first_bytes (suc n) [] = []
first_bytes (suc n) (x ∷ xs) = x ∷ first_bytes n xs

-- `(data[0] << 8) | data[1]`, and the two bytes of a mask.
abbrev pub word : List ℕ → ℕ
word d = bit_or (get_or d 0 0 * 256) (get_or d 1 0)

abbrev pub mask_bytes : ℕ → List ℕ
mask_bytes mask = mask / 256 % 256 ∷ mask % 256 ∷ []

module _ {S : Type 0} (b : Bus S) where
  abbrev went_through : Option ℕ → ℕ → Bool
  went_through none n = false
  went_through (some k) n = k == n

  -- The loop over the tries of a transfer, `n` of them; `none` when all have failed.
  unfoldable pub retry : ℕ → List I2cMsg → S → Option (List ℕ) × S
  retry zero msgs s = (none, s)
  retry (suc n) msgs s =
      let (count, bytes, s') = b.xfer msgs s in
      let more = retry n msgs (b.micro_second_delay 5 s') in
      if went_through count (length msgs) then (some bytes, s') else more

  abbrev with_world : MicroP S → Option (List ℕ) × S → Option (List ℕ) × MicroP S
  with_world m (r, s) = (r, record m { world = s })

  abbrev read_messages : ℕ → ℕ → ℕ → List I2cMsg
  read_messages chip addr length =
      record { addr = chip; is_read = false; len = 1; buf = addr ∷ [] }
      ∷ record { addr = chip; is_read = true; len = length; buf = [] }
      ∷ []

  abbrev write_message : ℕ → ℕ → List ℕ → ℕ → I2cMsg
  write_message chip addr cmd length = record {
    addr = chip;
    is_read = false;
    len = suc length;
    buf = addr ∷ first_bytes length cmd;
  }

  abbrev read_from : Option ℕ → ℕ → ℕ → MicroP S → Option (List ℕ) × MicroP S
  read_from none addr length m = (none, m)
  read_from (some chip) addr length m =
      with_world m (retry (suc msm_i2c_read_retry_times) (read_messages chip addr length) m.world)

  -- `microp_i2c_read`; `none` is the result -1.
  unfoldable pub microp_i2c_read : ℕ → ℕ → MicroP S → Option (List ℕ) × MicroP S
  microp_i2c_read addr length m = read_from m.pdata addr length m

  abbrev write_to : Option ℕ → ℕ → List ℕ → ℕ → MicroP S → Option (List ℕ) × MicroP S
  write_to none addr cmd length m = (none, m)
  write_to (some chip) addr cmd length m =
      let tried =
        retry (suc msm_i2c_write_retry_times) (write_message chip addr cmd length ∷ []) m.world in
      if leb microp_i2c_write_block_size length then (none, m) else with_world m tried

  -- `microp_i2c_write`; `none` is the result -1.
  unfoldable pub microp_i2c_write : ℕ → List ℕ → ℕ → MicroP S → Option (List ℕ) × MicroP S
  microp_i2c_write addr cmd length m = write_to m.pdata addr cmd length m

  -- Two bytes that are read become a word.
  abbrev as_word : Option (List ℕ) × MicroP S → Option ℕ × MicroP S
  as_word (none, m) = (none, m)
  as_word (some d, m) = (some (word d), m)

  abbrev after_request : Option (List ℕ) × MicroP S → Option ℕ × MicroP S
  after_request (none, m) = (none, m)
  after_request (some d, m) = as_word (microp_i2c_read Cmd.adc_value 2 m)

  -- `microp_read_adc`: the request is the same for every channel.
  unfoldable pub microp_read_adc : ℕ → MicroP S → Option ℕ × MicroP S
  microp_read_adc channel m =
      after_request (microp_i2c_write Cmd.read_adc_value_req (0 ∷ 1 ∷ []) 2 m)

  unfoldable pub microp_read_gpi_status : MicroP S → Option ℕ × MicroP S
  microp_read_gpi_status m = as_word (microp_i2c_read Cmd.gpio_status 2 m)

  unfoldable pub microp_interrupt_get_status : MicroP S → Option ℕ × MicroP S
  microp_interrupt_get_status m = as_word (microp_i2c_read Cmd.gpi_int_status 2 m)

  unfoldable pub microp_interrupt_enable : ℕ → MicroP S → Option (List ℕ) × MicroP S
  microp_interrupt_enable mask m = microp_i2c_write Cmd.gpi_int_ctl_en (mask_bytes mask) 2 m

  unfoldable pub microp_interrupt_disable : ℕ → MicroP S → Option (List ℕ) × MicroP S
  microp_interrupt_disable mask m = microp_i2c_write Cmd.gpi_int_ctl_dis (mask_bytes mask) 2 m

  unfoldable pub microp_read_gpo_status : MicroP S → Option ℕ × MicroP S
  microp_read_gpo_status m = as_word (microp_i2c_read Cmd.gpio_status 2 m)

  unfoldable pub microp_gpo_enable : ℕ → MicroP S → Option (List ℕ) × MicroP S
  microp_gpo_enable mask m = microp_i2c_write Cmd.gpo_led_status_en (mask_bytes mask) 2 m

  unfoldable pub microp_gpo_disable : ℕ → MicroP S → Option (List ℕ) × MicroP S
  microp_gpo_disable mask m = microp_i2c_write Cmd.gpo_led_status_dis (mask_bytes mask) 2 m

  abbrev found : Option (List ℕ) × MicroP S → MicroP S
  found (none, m) = record m { msm_microp_i2c_status = 0 }
  found (some d, m) = record m { msm_microp_i2c_status = 1 }

  abbrev probe_chip : Option ℕ → Option ℕ → MicroP S → MicroP S
  probe_chip none pdata m = m
  probe_chip (some chip) (some p) m = m
  probe_chip (some chip) none m =
      found (microp_i2c_read Cmd.version 2 (record m { pdata = some chip }))

  -- `microp_i2c_probe`; the option is the pointer to the platform data.
  unfoldable pub microp_i2c_probe : Option ℕ → MicroP S → MicroP S
  microp_i2c_probe kpdata m = probe_chip kpdata m.pdata m

  -- `htcleo_led_set_mode`
  unfoldable pub htcleo_led_set_mode : ℕ → MicroP S → Option (List ℕ) × MicroP S
  htcleo_led_set_mode mode m =
      let d = if mode == 1 then 1 else if mode == 2 then 2 else 0 in
      microp_i2c_write Cmd.led_ctrl (0 ∷ d ∷ 0 ∷ 0 ∷ []) 2 m

  -- `htcbravo_led_set_mode`
  unfoldable pub htcbravo_led_set_mode : ℕ → MicroP S → Option (List ℕ) × MicroP S
  htcbravo_led_set_mode mode m =
      let d0 = if mode == 1 then 1 else 0 in
      let d1 = if mode == 1 then 0 else if mode == 2 then 4 else 0 in
      microp_i2c_write Cmd.led_ctrl (d0 ∷ d1 ∷ 0 ∷ 0xFF ∷ 0 ∷ 0 ∷ 0 ∷ []) 7 m

  -- `htcbravo_kp_led_set_brightness`
  unfoldable pub htcbravo_kp_led_set_brightness : ℕ → MicroP S → Option (List ℕ) × MicroP S
  htcbravo_kp_led_set_brightness brightness m =
      microp_i2c_write Cmd.led_pwm (5 ∷ brightness ∷ 0 ∷ 4 ∷ []) 4 m
