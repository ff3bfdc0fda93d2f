-- ===== src/I2c/Tests.antt =====
-- Transfers on a controller that is always ready.
use msm8909pkg.Base.{
  ◌≤◌, ℕ, ◌≡◌, refl, true, false, none, some, List, [], ◌∷◌, ◌++◌, if◌then◌else◌, ◌==◌,
}
use msm8909pkg.Base.Int.{pos}
use msm8909pkg.MicroP.{I2cMsg}
use msm8909pkg.I2c.{
  i2c_write_data, i2c_read_data, Pdata, Dev, I2cPlatform, interrupt, serve_status,
  fill_write_buffer,
}
use msm8909pkg.I2c.Transfer.{target_clk, fs_div, clk_ctl, msm_i2c_read, i2c_read_messages, started}
use msm8909pkg.I2c.Frames.{Wire, frame, remaining}
use msm8909pkg.I2c.Clocking.{bus_rate, aimed, bus_rate_bounds}
use msm8909pkg.I2c.Ends.{Tried, read-Ends}
use msm8909pkg.I2c.Order.{Served, begins, interrupted, words_in_order}

-- The state is the list of the words written; a read gives 7, and the status is 0.
abbrev ready : I2cPlatform (List ℕ)
ready = record {
  mmio = record {
    read32 = λ a s. (if a == i2c_read_data then 7 else 0, s);
    write32 = λ a v s. if a == i2c_write_data then s ++ v ∷ [] else s;
  };
  get_pin = λ n s. (true, s);
  set_pin = λ n v s. s;
  input_pin = λ n s. s;
  set_mux_to_i2c = λ n s. s;
  clk_enable = λ n s. s;
  clk_disable = λ n s. s;
  enable_irq = λ n s. s;
  disable_irq = λ n s. s;
  register_irq = λ n s. s;
}

abbrev ready_wire : Wire ready
ready_wire = record { sent = λ s. s; write_sent = λ v s. refl; read_sent = λ a s. refl }

abbrev i2c_pdata : Pdata
i2c_pdata = record {
  i2c_clock = pos 400000;
  clk_nr = 3;
  irq_nr = 34;
  scl_gpio = 95;
  sda_gpio = 96;
  has_mux = true;
}

abbrev dev : Dev
dev = record {
  past = [];
  msg = none;
  rest = [];
  pdata = some i2c_pdata;
  rem = 0;
  position = pos 0;
  cnt = 0;
  ret = pos 0;
  need_flush = false;
  flush_cnt = 0;
  timeout = pos 0;
}

read-Ends_example :
    Tried ready
      (i2c_read_messages 0x66 9 2 (0 ∷ 0 ∷ []))
      (some i2c_pdata)
      (msm_i2c_read ready (λ t n. 1) (λ t n. 2) 0x66 9 2 (0 ∷ 0 ∷ []) dev [])
read-Ends_example =
    read-Ends ready (λ t n. 1) (λ t n. 2) 0x66 9 2 (0 ∷ 0 ∷ []) i2c_pdata dev [] refl refl refl

abbrev message : I2cMsg
message = record { addr = 0x66; is_read = false; len = 2; buf = 5 ∷ 6 ∷ [] }

-- Two interrupts: the address has gone out, and the first byte.
abbrev after_two : Dev
after_two = record (started message [] 1 dev) { position = pos 1; cnt = 1 }

two_interrupts : Served ready ready_wire (started message [] 1 dev) [] after_two (0x1cc ∷ 5 ∷ [])
unfolding interrupt serve_status fill_write_buffer
two_interrupts =
    interrupted message (interrupted message begins refl (refl, λ q. cc) refl) refl (refl, λ q. cc)
      refl

words_in_order_example :
    (mg : I2cMsg) × (after_two.msg ≡ some mg)
    × ((0x1cc ∷ 5 ∷ []) ++ remaining mg after_two ≡ frame (message ∷ []))
words_in_order_example = words_in_order ready ready_wire message [] dev [] (refl, tt) two_interrupts

bus_rate_bounds_example :
    (target_clk (pos 390000) ≤ bus_rate (clk_ctl (fs_div (target_clk (pos 390000)))))
    × (bus_rate (clk_ctl (fs_div (target_clk (pos 390000)))) ≤ 400000)
    × (target_clk (pos 390000) ≡ aimed (pos 390000))
bus_rate_bounds_example = bus_rate_bounds (pos 390000)
