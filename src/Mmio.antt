-- ===== src/Mmio.antt =====
-- Memory-mapped registers, as `readl`, `writel`, `MmioRead32` and `MmioWrite32` reach them. The
-- hardware is no part of the repository: it is a parameter, and a read may change its state too.
use msm8909pkg.Base.{ℕ, ◌^◌, ◌<◌, ◌≡◌, if◌then◌else◌, ◌==◌}

pub record Mmio (S : Type 0) : Type 0 where
  pub read32 : ℕ → S → ℕ × S
  pub write32 : ℕ → ℕ → S → S

-- What the documentation says of control registers, those that `IsControl` names: each holds the
-- word that was last written to it, and a read returns that and changes none of them.
pub record Holds {S : Type 0} (m : Mmio S) (IsControl : ℕ → Type 0) : Type 0 where
  pub reg : ℕ → S → ℕ
  pub reg_word : (a : ℕ) (s : S) → reg a s < 2 ^ 32
  pub read_reg : (a : ℕ) (s : S) → IsControl a → (m.read32 a s).0 ≡ reg a s
  pub read_keeps : (a b : ℕ) (s : S) → IsControl b → reg b (m.read32 a s).1 ≡ reg b s
  pub write_reg :
      (a b v : ℕ) (s : S)
      → IsControl b
      → v < 2 ^ 32
      → reg b (m.write32 a v s) ≡ (if a == b then v else reg b s)
