-- ===== src/I2c/Order.antt =====
-- The words of a whole transfer, whatever the order of its interrupts.
use msm8909pkg.Base.{
  Ensures, suc, ◌≡◌, ◌∙◌, subst, ap, refl, false, some, List, ◌∷◌, ◌++◌, ◌==◌, length, arith, Every,
}
use msm8909pkg.MicroP.{I2cMsg}
use msm8909pkg.I2c.{i2c_status, has, error_mask, Dev, I2cPlatform, interrupt}
use msm8909pkg.I2c.Bounds.{IsWhole}
use msm8909pkg.I2c.Transfer.{started}
use msm8909pkg.I2c.Ends.{started-On}
use msm8909pkg.I2c.Frames.{Wire, frame, remaining}
use msm8909pkg.I2c.Sent.{Expected, Carries, Carried, interrupt-Carried}

-- Interrupts of a transfer, from the state `d₀` and `s₀` on: each finds no error, and a byte only where
-- the driver waits for one. Between them the hardware does what it likes, but sends no word.
abbrev pub Finds : {S : Type 0} → I2cPlatform S → I2cMsg → Dev → S → Type 0
Finds w mg d s =
    (has (w.mmio.read32 i2c_status s).0 error_mask ≡ false)
    × Expected (w.mmio.read32 i2c_status s).0 mg d

pub data Served {S : Type 0} (w : I2cPlatform S) (wire : Wire w) (d₀ : Dev) (s₀ : S)
    : Dev → S → Type 0 where
  begins : Served w wire d₀ s₀ d₀ s₀
  interrupted :
      {d d' : Dev} {s s' : S} (mg : I2cMsg)
      → Served w wire d₀ s₀ d s
      → d.msg ≡ some mg
      → Finds w mg d s
      → interrupt w d s ≡ some (d', s')
      → Served w wire d₀ s₀ d' s'
  elapsed :
      {d : Dev} {s s' : S}
      → Served w wire d₀ s₀ d s
      → wire.sent s' ≡ wire.sent s
      → Served w wire d₀ s₀ d s'

Served-Carried :
    {S : Type 0} (w : I2cPlatform S) (wire : Wire w) (mg₀ : I2cMsg) (rest : List I2cMsg) (d₀ : Dev)
    (s₀ : S) {d : Dev} {s : S}
    → Every IsWhole (mg₀ ∷ rest)
    → Served w wire (started mg₀ rest (length (mg₀ ∷ rest)) d₀) s₀ d s
    → Carried w wire (wire.sent s₀ ++ frame (mg₀ ∷ rest)) (mg₀ ∷ rest) d₀.pdata (d, s)
Served-Carried w wire mg₀ rest d₀ s₀ v begins =
    let last : (suc (length rest) == 1) ≡ (length rest == 0) = ground arith in
    (mg₀, (started-On w mg₀ rest d₀ v, (refl, rw last refl)))
Served-Carried w wire mg₀ rest d₀ s₀ v
      (interrupted {d} {d'} {s} {s'} mg r here (clean, expected) e) =
    let total = wire.sent s₀ ++ frame (mg₀ ∷ rest) in
    let (mg', c) = Served-Carried w wire mg₀ rest d₀ s₀ v r in
    let same : mg' ≡ mg = cc (here, c.0.here) in
    subst (Ensures (Carried w wire total (mg₀ ∷ rest) d₀.pdata)) e (
      interrupt-Carried w wire total (mg₀ ∷ rest) d₀.pdata mg d s clean expected
        (subst (λ k. Carries w wire total (mg₀ ∷ rest) d₀.pdata k d s) same c))
Served-Carried w wire mg₀ rest d₀ s₀ v (elapsed {d} r e) =
    let (mg', (on, g)) = Served-Carried w wire mg₀ rest d₀ s₀ v r in
    (mg', (on, (g.0, ap (λ l. l ++ remaining mg' d) e ∙ g.1)))

-- In a transfer of messages whose buffers have their lengths, however the interrupts come, if each
-- finds no error and a byte only where the driver waits for one, and the hardware sends no words of
-- its own: the words that were written since the start, followed by those that remain for the message
-- at hand and the ones after it, are at each moment the address and the bytes of each message, in their
-- order, with the mark on the last, and one request for the end of each read.
pub words_in_order :
    {S : Type 0} (w : I2cPlatform S) (wire : Wire w) (mg₀ : I2cMsg) (rest : List I2cMsg) (d₀ : Dev)
    (s₀ : S) {d : Dev} {s : S}
    → Every IsWhole (mg₀ ∷ rest)
    → Served w wire (started mg₀ rest (length (mg₀ ∷ rest)) d₀) s₀ d s
    → (mg : I2cMsg) × (d.msg ≡ some mg)
      × (wire.sent s ++ remaining mg d ≡ wire.sent s₀ ++ frame (mg₀ ∷ rest))
words_in_order w wire mg₀ rest d₀ s₀ v r =
    let (mg, c) = Served-Carried w wire mg₀ rest d₀ s₀ v r in (mg, c.0.here, c.1.1)
