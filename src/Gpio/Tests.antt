-- ===== src/Gpio/Tests.antt =====
-- The pins on registers that are plain memory.
use msm8909pkg.Base.{ℕ, ◌%◌, ◌^◌, ◌<◌, ◌≡◌, refl, if◌then◌else◌, ◌==◌, arith}
use msm8909pkg.Mmio.{Mmio, Holds}
use msm8909pkg.Gpio.{gpio_set}
use msm8909pkg.Gpio.Banks.{IsControl}
use msm8909pkg.Gpio.Pins.{driven, enabled, gpio_set_lem}

abbrev Memory : Type 0
Memory = ℕ → ℕ

abbrev memory : Mmio Memory
memory = record {
  read32 = λ a s. (s a % 2 ^ 32, s);
  write32 = λ a v s b. if a == b then v else s b;
}

memory_write :
    (a b v : ℕ) (s : Memory)
    → IsControl b
    → v < 2 ^ 32
    → (if a == b then v else s b) % 2 ^ 32 ≡ (if a == b then v else s b % 2 ^ 32)
memory_write a b v s c h = ground arith

abbrev memory-Holds : Holds memory IsControl
memory-Holds = record {
  reg = λ a s. s a % 2 ^ 32;
  reg_word = λ a s. omega arith;
  read_reg = λ a s c. refl;
  read_keeps = λ a b s c. refl;
  write_reg = memory_write;
}

-- Pins 42 and 43 lie in different banks; 41 shares the bank of 42.
gpio_set_lem_example :
    (driven memory memory-Holds 41 (gpio_set memory 42 1 (λ a. 0))
      ≡ driven memory memory-Holds 41 (λ a. 0))
    × (enabled memory memory-Holds 41 (gpio_set memory 42 1 (λ a. 0))
        ≡ enabled memory memory-Holds 41 (λ a. 0))
gpio_set_lem_example = gpio_set_lem memory memory-Holds 42 41 1 (λ a. 0) (omega arith) (omega arith)
