-- ===== src/SdCard/Mbr.antt =====
-- The search for the master boot record when the SD card is set up.
use msm8909pkg.Base.{
  Bool, true, false, ℕ, zero, suc, ◌+◌, ◌<◌, ◌≤◌, ◌≡◌, ◌∙◌, sym, Option, none, some, ◌&&◌, ◌==◌,
  arith, if_split, Bool-cases, inl, inr, ◌⊎◌,
}
use mathlib.Core.Bool.{false≢true}
use msm8909pkg.SdCard.{Card, each_block, mmc_bread, find_mbr, is_signed}
use msm8909pkg.SdCard.Blocks.{Stores}

at_or_after : (i a : ℕ) → i ≤ a → (a ≡ i) ⊎ (suc i ≤ a)
at_or_after i a h = ground arith

both_signs : (x y : ℕ) → (x == 0x55 && y == 0xAA) ≡ true → (x ≡ 0x55) × (y ≡ 0xAA)
both_signs x y h = ground arith

signs_both : (x y : ℕ) → (x == 0x55 && y == 0xAA) ≡ false → ¬ ((x ≡ 0x55) × (y ≡ 0xAA))
signs_both x y h = ground arith

module _ {S : Type 0} (c : Card S) (stores : Stores c) (readable : ℕ → Bool) where
  open stores use {block}

  -- The block `b` can be read, and ends as a master boot record does.
  abbrev pub IsMbr : ℕ → S → Type 0
  IsMbr b s = (readable b ≡ true) × (block b 510 s ≡ 0x55) × (block b 511 s ≡ 0xAA)

  -- The first such block of the `n` from `i` on, if there is one.
  abbrev pub Found : ℕ → ℕ → S → Option ℕ → Type 0
  Found n i s none = (b : ℕ) → i ≤ b → b < i + n → ¬ IsMbr b s
  Found n i s (some b) = (i ≤ b) × (b < i + n) × IsMbr b s × ((a : ℕ) → i ≤ a → a < b → ¬ IsMbr a s)

  IsMbr-same : (s t : S) (b : ℕ) → ((a k : ℕ) → block a k t ≡ block a k s) → IsMbr b s → IsMbr b t
  IsMbr-same s t b same (r, x, y) = (r, same b 510 ∙ x, same b 511 ∙ y)

  not_before :
      (s t : S) (i a : ℕ)
      → ((b k : ℕ) → block b k t ≡ block b k s)
      → ¬ IsMbr i s
      → i ≤ a
      → (suc i ≤ a → ¬ IsMbr a t)
      → ¬ IsMbr a s
  not_before s t i a same differs h later = elim (at_or_after i a h) [
    | inl e ↦ rw e differs
    | inr h' ↦ λ hit. later h' (IsMbr-same s t a same hit)
  ]

  later-Found :
      (n i : ℕ) (s t : S) (o : Option ℕ)
      → ((b k : ℕ) → block b k t ≡ block b k s)
      → ¬ IsMbr i s
      → Found n (suc i) t o
      → Found (suc n) i s o
  later-Found n i s t none same differs f =
      λ b h lt. not_before s t i b same differs h λ h'. f b h' (omega arith)
  later-Found n i s t (some b) same differs (h, lt, hit, first) = (
    omega arith,
    omega arith,
    IsMbr-same t s b (λ a k. sym (same a k)) hit,
    λ a h' lt'. not_before s t i a same differs h' λ h''. first a h'' lt',
  )

  -- Where each block can either always or never be read, the search of `SdCardInitialize` finds the
  -- first block, of those that it looks at, that can be read and ends in 0x55 and 0xAA; it finds
  -- none only if there is no such block among them.
  pub find_mbr-Found :
      (n i dump : ℕ) (s : S)
      → ((nr dst : ℕ) (t : S) → (c.read_a_block nr dst t).0 ≡ readable nr)
      → Found n i s (find_mbr c n i dump s).0
  unfolding find_mbr mmc_bread each_block
  find_mbr-Found zero i dump s reads = λ b h lt. omega arith
  find_mbr-Found (suc n) i dump s reads =
      let t = (c.read_a_block i dump s).1 in
      let same = λ (b k : ℕ). stores.read_card i dump b k s in
      let rest = find_mbr-Found n (suc i) dump t reads in
      elim (Bool-cases (readable i)) [
        | inl q ↦
            let ok = reads i dump s ∙ q in
            let x = stores.read_ok i dump 510 s ok (omega arith) in
            let y = stores.read_ok i dump 511 s ok (omega arith) in
            rw ok (
              if_split (λ (z : Option ℕ × S). Found (suc n) i s z.0) (is_signed c dump t)
                (λ e.
                  let (e1, e2) = both_signs _ _ e in
                  (omega arith, omega arith, (q, sym x ∙ e1, sym y ∙ e2), λ a h lt. omega arith))
                (λ e.
                  later-Found n i s t _ same (λ hit. signs_both _ _ e (x ∙ hit.1, y ∙ hit.2)) rest))
        | inr q ↦
            rw (reads i dump s ∙ q)
              (later-Found n i s t _ same (λ hit. false≢true (sym q ∙ hit.0)) rest)
      ]
