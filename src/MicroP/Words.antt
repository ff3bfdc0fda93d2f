-- ===== src/MicroP/Words.antt =====
-- Words on the bus: the masks that are sent, and the words that are read.
use msm8909pkg.Base.{ℕ, ◌/◌, ◌%◌, ◌<◌, ◌≡◌, ap, ◌∙◌, some, arith}
use msm8909pkg.Base.Bits.{bit_or-bytes}
use msm8909pkg.MicroP.Cmd
use msm8909pkg.MicroP.{
  MicroP, Bus, word, mask_bytes, as_word, microp_i2c_read, microp_read_gpi_status,
  microp_read_gpo_status,
}

word-mask_bytes : (v : ℕ) → v < 65536 → word (mask_bytes v) ≡ v
word-mask_bytes v h = bit_or-bytes (v / 256 % 256) (v % 256) (omega arith) ∙ omega arith

-- When the status register answers with the two bytes of a word, in the order in which the masks are
-- sent, the driver gives this word back: as the status of the inputs, and as that of the outputs too,
-- which are read from the same register.
pub status-word :
    {S : Type 0} (b : Bus S) (m m' : MicroP S) (v : ℕ)
    → v < 65536
    → microp_i2c_read b Cmd.gpio_status 2 m ≡ (some (mask_bytes v), m')
    → (microp_read_gpi_status b m ≡ (some v, m')) × (microp_read_gpo_status b m ≡ (some v, m'))
unfolding microp_read_gpi_status microp_read_gpo_status
status-word b m m' v small answer =
    let given : as_word b (microp_i2c_read b Cmd.gpio_status 2 m) ≡ (some v, m') =
      ap (as_word b) answer ∙ ap (λ w. (some w, m')) (word-mask_bytes v small) in
    (given, given)
