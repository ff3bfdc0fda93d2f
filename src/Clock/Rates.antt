-- ===== src/Clock/Rates.antt =====
-- What a change of the processor's rate leaves.
use msm8909pkg.Base.{
  and_then, ℕ, suc, ◌/◌, ◌<◌, ◌≡◌, refl, ◌⊎◌, inl, inr, ap, sym, ◌∙◌, Bool, true, false, ◌||◌, ◌&&◌,
  ltb, Option, none, some, List, [], ◌∷◌, ◌==◌, arith, if_both, if_split, Every,
}
use msm8909pkg.Mmio.{Mmio, Holds}
use msm8909pkg.Clock.{
  AcpuSpeed, AcpuClock, acpu_freq_tbl, src_scpll, select_clock, scpll_set_freq, scpll_power_down,
  find_rate, switch_up, switch_speed, switched, set_found, acpuclk_set_rate,
}
use msm8909pkg.Clock.Source.{
  source, IsSel, sel, Settled, Kept, power_down-Kept, set_freq-Kept, select_clock-source,
}

-- An entry of the table has one of the two sources.
abbrev HasSource : AcpuSpeed → Type 0
HasSource e = e.clk_sel < 2

-- An entry of another rate.
abbrev pub IsNot : ℕ → AcpuSpeed → Type 0
IsNot khz e = ¬ (e.acpu_khz ≡ khz)

-- The table, as one test.
has_sources : List AcpuSpeed → Bool
has_sources [] = true
has_sources (e ∷ es) = ltb e.clk_sel 2 && has_sources es

has_sources-Every : (es : List AcpuSpeed) → has_sources es ≡ true → Every HasSource es
unfolding has_sources
has_sources-Every [] h = tt
has_sources-Every (e ∷ es) h = (ground arith, has_sources-Every es (ground arith))

table-HasSource : Every HasSource acpu_freq_tbl
unfolding has_sources
table-HasSource = has_sources-Every acpu_freq_tbl refl

is_scpll : (k : ℕ) → (k == src_scpll) ≡ true → k ≡ src_scpll
is_scpll k e = ground arith

is_other : (k khz : ℕ) → (k == khz) ≡ false → ¬ (k ≡ khz)
is_other k khz e = ground arith

same_or_zero : (khz k : ℕ) → (khz == k || khz == 0) ≡ true → (k ≡ khz) ⊎ (khz ≡ 0)
same_or_zero khz k e = ground arith

is_rate : (k khz : ℕ) → (k == khz) ≡ true → k ≡ khz
is_rate k khz e = ground arith

module _ {S : Type 0} (m : Mmio S) (n : ℕ) (holds : Holds m IsSel)
    (settled : Settled m n holds) where
  -- The processor's clock comes from the source of the entry that is noted.
  abbrev pub Agrees : AcpuClock S → Type 0
  Agrees c = source (sel m n holds c.world) ≡ c.current_speed.clk_sel

  -- The switch ends, with the source `src`.
  abbrev Takes : ℕ → Option S → Type 0
  Takes src none = ⊥
  Takes src (some s) = source (sel m n holds s) ≡ src

  after-Takes :
      (s : S) (o : Option S) (src config : ℕ)
      → src < 2
      → Kept m n holds s o
      → Takes src (and_then o (λ t. some (select_clock m (suc n) src config t)))
  after-Takes s none src config small k = k
  after-Takes s (some t) src config small k = select_clock-source m n holds src config t small

  Takes-and_then :
      (src : ℕ) (s : S) (o : Option S)
      → source (sel m n holds s) ≡ src
      → Kept m n holds s o
      → Takes src o
  Takes-and_then src s none e k = k
  Takes-and_then src s (some t) e k = ap source k ∙ e

  Takes-as : (src src' : ℕ) (o : Option S) → src' ≡ src → Takes src o → Takes src' o
  Takes-as src src' none e t = t
  Takes-as src src' (some s) e t = t ∙ sym e

  switch_up-Takes :
      (cur next : AcpuSpeed) (s : S) → Takes src_scpll (switch_up m (suc n) cur next s)
  unfolding switch_up
  switch_up-Takes cur next s =
      after-Takes _ (scpll_set_freq m (suc n) next.sc_l_value _) src_scpll 0 (omega arith)
        (set_freq-Kept m n holds settled next.sc_l_value _)

  switch_speed-Takes :
      (cur next : AcpuSpeed) (s : S)
      → HasSource next
      → Takes next.clk_sel (switch_speed m (suc n) cur next s)
  unfolding switch_speed
  switch_speed-Takes cur next s small =
      if_split (Takes next.clk_sel) (next.clk_sel == src_scpll)
        (λ e.
          Takes-as src_scpll next.clk_sel _ (is_scpll next.clk_sel e) (switch_up-Takes cur next s))
        (λ e.
          if_both (Takes next.clk_sel) (cur.clk_sel == src_scpll)
            (Takes-and_then next.clk_sel _ (scpll_power_down m (suc n) _)
              (select_clock-source m n holds next.clk_sel next.clk_cfg _ small)
              (power_down-Kept m n holds settled _))
            (select_clock-source m n holds next.clk_sel next.clk_cfg s small))

  -- The search ends with an entry of the rate, or there is none.
  abbrev Found : ℕ → List AcpuSpeed → Option AcpuSpeed → Type 0
  Found khz es none = Every (IsNot khz) es
  Found khz es (some e) = (e.acpu_khz ≡ khz) × HasSource e

  later-Found :
      (khz : ℕ) (e : AcpuSpeed) (es : List AcpuSpeed) (o : Option AcpuSpeed)
      → IsNot khz e
      → Found khz es o
      → Found khz (e ∷ es) o
  later-Found khz e es none ne f = (ne, f)
  later-Found khz e es (some x) ne f = f

  find_rate-Found :
      (khz : ℕ) (es : List AcpuSpeed)
      → Every HasSource es
      → Found khz es (find_rate m (suc n) khz es)
  unfolding find_rate
  find_rate-Found khz [] f = tt
  find_rate-Found khz (e ∷ es) (h, f) =
      if_split (Found khz (e ∷ es)) (e.acpu_khz == khz) (λ q. (is_rate e.acpu_khz khz q, h))
        (λ q. later-Found khz e es _ (is_other e.acpu_khz khz q) (find_rate-Found khz es f))

  -- The outcomes that are right: -1, nothing having changed, where the table has no entry of
  -- the rate; or 0, the entry noted and the hardware in agreement, and the entry has the rate asked
  -- for, unless that is 0, where nothing has changed.
  abbrev pub Changed : ℕ → AcpuClock S → Option (Bool × AcpuClock S) → Type 0
  Changed khz c none = ⊥
  Changed khz c (some (false, c')) = (c' ≡ c) × Every (IsNot khz) acpu_freq_tbl
  Changed khz c (some (true, c')) =
      Agrees c' × ((c'.current_speed.acpu_khz ≡ khz) ⊎ ((khz ≡ 0) × (c' ≡ c)))

  kept-Changed :
      (khz : ℕ) (c : AcpuClock S)
      → Agrees c
      → (c.current_speed.acpu_khz ≡ khz) ⊎ (khz ≡ 0)
      → Changed khz c (some (true, c))
  kept-Changed khz c a (inl e) = (a, inl e)
  kept-Changed khz c a (inr e) = (a, inr (e, refl))

  switched-Changed :
      (khz : ℕ) (c : AcpuClock S) (next : AcpuSpeed) (o : Option S)
      → next.acpu_khz ≡ khz
      → Takes next.clk_sel o
      → Changed khz c (switched m (suc n) next o)
  switched-Changed khz c next none e t = t
  switched-Changed khz c next (some s) e t = (t, inl e)

  set_found-Changed :
      (khz : ℕ) (c : AcpuClock S) (o : Option AcpuSpeed)
      → Found khz acpu_freq_tbl o
      → Changed khz c (set_found m (suc n) o c)
  set_found-Changed khz c none f = (refl, f)
  set_found-Changed khz c (some next) (e, small) =
      switched-Changed khz c next _ e (switch_speed-Takes c.current_speed next c.world small)

  -- If no switch of the PLL is in progress, the selection register holds what is written to it, and it
  -- selects the source of the entry that is noted, then `acpuclk_set_rate` ends. It returns -1 only
  -- where the table has no entry of the rate, and then nothing has changed. Where it returns 0, the
  -- register selects the source of the entry that is then noted, which has the rate asked for, or the
  -- rate is 0 and nothing has changed.
  pub acpuclk_set_rate-Changed :
      (rate : ℕ) (c : AcpuClock S)
      → Agrees c
      → Changed (rate / 1000) c (acpuclk_set_rate m (suc n) rate c)
  unfolding acpuclk_set_rate
  acpuclk_set_rate-Changed rate c agrees =
      let khz = rate / 1000 in
      if_split (Changed khz c) (khz == c.current_speed.acpu_khz || khz == 0)
        (λ q. kept-Changed khz c agrees (same_or_zero khz c.current_speed.acpu_khz q))
        (λ q. set_found-Changed khz c _ (find_rate-Found khz acpu_freq_tbl table-HasSource))
