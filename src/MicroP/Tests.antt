-- ===== src/MicroP/Tests.antt =====
-- A bus that fails a few times, and the theorems at inputs that meet their hypotheses.
use msm8909pkg.Base.{ℕ, zero, suc, ◌≡◌, refl, Option, none, some, List, [], ◌∷◌, length, arith, leb}
use msm8909pkg.MicroP.Cmd
use msm8909pkg.MicroP.{
  I2cMsg, Bus, MicroP, mask_bytes, read_messages, write_message, microp_i2c_read, microp_i2c_write,
  retry, microp_read_gpi_status, microp_read_gpo_status,
}
use msm8909pkg.MicroP.Sent.{Listed, Tried, Handled, read_write-Handled}
use msm8909pkg.MicroP.Words.{status-word}

-- The transfers so far, and how many are still to fail.
record Machine : Type 0 where
  log : List (List I2cMsg)
  failing : ℕ

abbrev answer : ℕ → Option ℕ → Option ℕ
answer zero ok = ok
answer (suc n) ok = none

abbrev fewer : ℕ → ℕ
fewer zero = zero
fewer (suc n) = n

abbrev bus : Bus Machine
bus = record {
  xfer = λ msgs s. (
    answer s.failing (some (length msgs)),
    0x12 ∷ 0x34 ∷ [],
    record { log = msgs ∷ s.log; failing = fewer s.failing },
  );
  micro_second_delay = λ t s. s;
}

bus-Listed : Listed bus (λ s. s.log)
bus-Listed = record { after_xfer = λ msgs s. refl; after_delay = λ t s. refl }

abbrev flaky : MicroP Machine
flaky = record {
  pdata = some 0x66;
  msm_microp_i2c_status = 1;
  world = record { log = []; failing = 2 };
}

read_write-Handled_example :
    let (r, m') = microp_i2c_read bus Cmd.led_ctrl 2 flaky in
    let (r', m'') = microp_i2c_write bus Cmd.led_ctrl (0 ∷ 1 ∷ []) 2 flaky in
    Tried bus (λ s. s.log) 17 (read_messages bus 0x66 Cmd.led_ctrl 2) flaky.world r m'.world
    × Handled bus
        (λ s. s.log)
        bus-Listed
        (leb 21 2)
        (write_message bus 0x66 Cmd.led_ctrl (0 ∷ 1 ∷ []) 2 ∷ [])
        flaky.world
        r'
        m''.world
read_write-Handled_example =
    read_write-Handled bus (λ s. s.log) bus-Listed 0x66 Cmd.led_ctrl (0 ∷ 1 ∷ []) 2 flaky refl

abbrev steady : MicroP Machine
steady = record {
  pdata = some 0x66;
  msm_microp_i2c_status = 1;
  world = record { log = read_messages bus 0x66 Cmd.gpio_status 2 ∷ []; failing = 0 };
}

steady-answers :
    microp_i2c_read bus Cmd.gpio_status 2
      (record steady { world = record { log = []; failing = 0 } })
    ≡ (some (mask_bytes 0x1234), steady)
unfolding microp_i2c_read retry
steady-answers = refl

status-word_example :
    let m = record steady { world = record { log = []; failing = 0 } } in
    (microp_read_gpi_status bus m ≡ (some 0x1234, steady))
    × (microp_read_gpo_status bus m ≡ (some 0x1234, steady))
status-word_example =
    status-word bus (record steady { world = record { log = []; failing = 0 } }) steady 0x1234
      (omega arith) steady-answers
