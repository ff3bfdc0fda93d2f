-- ===== src/Clock/Untouched.antt =====
-- What the set-up of the PLL leaves as it is.
use msm8909pkg.Base.{
  and_then, Ensures, ℕ, suc, ◌%◌, ◌^◌, ◌≡◌, refl, ◌∙◌, true, false, Option, none, some, ◌==◌,
  bit_and, if_both,
}
use msm8909pkg.Base.Bits.{zero-bit_and}
use msm8909pkg.Mmio.{Mmio}
use msm8909pkg.Pcom.{msm_a2m_int6}
use msm8909pkg.Clock.{
  clk_sel_addr, scpll_ctl_addr, scpll_status_addr, scpll_fsm_ctl_ext_addr, wait_clear, update,
  scpll_power_down, scpll_start, scpll_hop, clamp, scpll_set_freq,
}

-- What is seen of the machine is no part of the PLL: reads leave it as it is, and so do writes but those
-- of the selection register and of the modem's interrupt.
pub record Apart {S A : Type 0} (m : Mmio S) (f : S → A) : Type 0 where
  pub read_f : (a : ℕ) (s : S) → f (m.read32 a s).1 ≡ f s
  pub write_f :
      (a v : ℕ) (s : S)
      → (a == clk_sel_addr) ≡ false
      → (a == msm_a2m_int6) ≡ false
      → f (m.write32 a (v % 2 ^ 32) s) ≡ f s

module _ {S A : Type 0} (m : Mmio S) (n : ℕ) (f : S → A) where
  -- It is as it was, and the fuel is enough.
  abbrev pub Keeps : S → Option S → Type 0
  Keeps s o = Ensures (λ s'. f s' ≡ f s) o

  Keeps-trans : (s t : S) (o : Option S) → f t ≡ f s → Keeps t o → Keeps s o
  Keeps-trans s t none e k = k
  Keeps-trans s t (some s') e k = k ∙ e

  pub and_then-Keeps :
      (s : S) (o : Option S) (g : S → Option S)
      → Keeps s o
      → ((t : S) → Keeps t (g t))
      → Keeps s (and_then o g)
  and_then-Keeps s none g k h = k
  and_then-Keeps s (some t) g k h = Keeps-trans s t (g t) k (h t)

  module _ (apart : Apart m f) (settled : (s : S) → (m.read32 scpll_status_addr s).0 ≡ 0) where
    pub update-keeps :
        (a : ℕ) (g : ℕ → ℕ) (s : S)
        → (a == clk_sel_addr) ≡ false
        → (a == msm_a2m_int6) ≡ false
        → f (update m (suc n) a g s) ≡ f s
    unfolding update
    update-keeps a g s ne ne' = apart.write_f a _ _ ne ne' ∙ apart.read_f a s

    wait_clear-Keeps : (mask : ℕ) (s : S) → Keeps s (wait_clear m (suc n) (suc n) mask s)
    unfolding wait_clear
    wait_clear-Keeps mask s =
        let done : (bit_and (m.read32 scpll_status_addr s).0 mask == 0) ≡ true =
          rw (settled s, zero-bit_and mask) refl in
        rw done (apart.read_f scpll_status_addr s)

    pub power_down-Keeps : (s : S) → Keeps s (scpll_power_down m (suc n) s)
    unfolding scpll_power_down
    power_down-Keeps s =
        and_then-Keeps s (wait_clear m (suc n) (suc n) 1 s) _ (wait_clear-Keeps 1 s) λ t.
          apart.write_f scpll_ctl_addr _ _ refl refl
          ∙ apart.write_f scpll_ctl_addr _ _ refl refl
          ∙ apart.read_f scpll_ctl_addr t

    hop-Keeps : (lval : ℕ) (s : S) → Keeps s (scpll_hop m (suc n) lval s)
    unfolding scpll_hop
    hop-Keeps lval s =
        Keeps-trans s _ _
          (update-keeps scpll_ctl_addr _ _ refl refl
            ∙ update-keeps scpll_fsm_ctl_ext_addr _ s refl refl)
          (wait_clear-Keeps 1 _)

    start-Keeps : (ctl : ℕ) (s : S) → Keeps s (scpll_start m (suc n) ctl s)
    unfolding scpll_start
    start-Keeps ctl s =
        Keeps-trans s _ _
          (update-keeps scpll_ctl_addr _ _ refl refl
            ∙ update-keeps scpll_fsm_ctl_ext_addr _ _ refl refl
            ∙ apart.write_f scpll_ctl_addr _ s refl refl)
          (wait_clear-Keeps 1 _)

    pub set_freq-Keeps : (lval : ℕ) (s : S) → Keeps s (scpll_set_freq m (suc n) lval s)
    unfolding scpll_set_freq
    set_freq-Keeps lval s =
        and_then-Keeps s (wait_clear m (suc n) (suc n) 3 s) _ (wait_clear-Keeps 3 s) λ t.
          let (ctl, t') = m.read32 scpll_ctl_addr t in
          Keeps-trans t t' _ (apart.read_f scpll_ctl_addr t) (
            and_then-Keeps t' _ _
              (if_both (Keeps t') (bit_and ctl 7 == 7) refl (start-Keeps ctl t'))
              (hop-Keeps (clamp m (suc n) lval)))
