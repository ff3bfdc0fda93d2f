-- ===== src/I2c/Frames.antt =====
-- The words that a transfer writes to the controller.
use msm8909pkg.Base.{
  Ensures, ℕ, zero, suc, ◌+◌, ◌-◌, ◌%◌, ◌<◌, ◌≡◌, ◌∙◌, sym, ap, refl, Bool, true, false, ◌&&◌, ◌||◌,
  some, List, [], ◌∷◌, ◌++◌, if◌then◌else◌, ◌==◌, ltb, length, get_or, get_elem?, get_elem?-in,
  arith, if_both₂, if_split,
}
use mathlib.Core.List.{append_assoc, append-nil}
use msm8909pkg.Base.Int.{ℤ, pos, negsuc}
use msm8909pkg.MicroP.{I2cMsg}
use msm8909pkg.I2c.{
  i2c_write_data, last_byte, address_word, data_word, Dev, I2cPlatform, fill_write_buffer, fill_at,
  delayed_write, write_data, i2c_read_data, receive, flush, store,
}
use msm8909pkg.I2c.Bounds.{IsWhole, Left}

-- The words of a message: its address, then its bytes, or for a read one word that asks for the end.
-- `last` says that it is the last message.
abbrev pub data_from : List ℕ → ℕ → ℕ → Bool → List ℕ
data_from buf i zero last = []
data_from buf i (suc n) last =
    data_word (get_or buf i 0) (suc n == 1 && last) ∷ data_from buf (i + 1) n last

abbrev pub end_of_read : ℕ → List ℕ
end_of_read n = if n == 0 then [] else last_byte ∷ []

abbrev pub body : I2cMsg → Bool → List ℕ
body mg last = if mg.is_read then end_of_read mg.len else data_from mg.buf 0 mg.len last

abbrev pub words : I2cMsg → Bool → List ℕ
words mg last = address_word mg (last && mg.len == 0) ∷ body mg last

abbrev pub frame : List I2cMsg → List ℕ
frame [] = []
frame (mg ∷ rest) = words mg (length rest == 0) ++ frame rest

-- What is left to write of the message at hand, at a position.
abbrev pub left_at : ℤ → I2cMsg → ℕ → Bool → List ℕ
left_at (negsuc n) mg cnt last = words mg last
left_at (pos i) mg cnt last =
    if mg.is_read
    then if cnt == 1 && i == 0 || ltb 1 cnt then last_byte ∷ [] else []
    else data_from mg.buf i cnt last

abbrev pub remaining : I2cMsg → Dev → List ℕ
remaining mg d = left_at d.position mg d.cnt (d.rem == 1) ++ frame d.rest

-- What the registers do: a word that is written is sent after those before it; a read sends none.
pub record Wire {S : Type 0} (w : I2cPlatform S) : Type 0 where
  pub sent : S → List ℕ
  pub write_sent : (v : ℕ) (s : S) → sent (w.mmio.write32 i2c_write_data v s) ≡ sent s ++ v ∷ []
  pub read_sent : (a : ℕ) (s : S) → sent (w.mmio.read32 a s).1 ≡ sent s

abbrev pub NotNegative : ℤ → Type 0
NotNegative (pos i) = Unit
NotNegative (negsuc n) = ⊥

body-left :
    (mg : I2cMsg) (cnt : ℕ) (last : Bool)
    → cnt ≡ mg.len
    → body mg last ≡ left_at (pos 0) mg cnt last
body-left mg cnt last e = rw e (if_both₂ ◌≡◌ mg.is_read (ground arith) refl)

get_or_of : (xs : List ℕ) (i v : ℕ) → get_elem? xs i ≡ some v → get_or xs i 0 ≡ v
get_or_of [] i v e = cc
get_or_of (x ∷ xs) zero v e = cc
get_or_of (x ∷ xs) (suc i) v e = get_or_of xs i v e

data-left :
    (i cnt b : ℕ) (mg : I2cMsg) (last : Bool)
    → mg.is_read ≡ false
    → (cnt == 0) ≡ false
    → get_elem? mg.buf i ≡ some b
    → left_at (pos i) mg cnt last
      ≡ data_word b (cnt == 1 && last) ∷ left_at (pos (i + 1)) mg (cnt - 1) last
data-left i zero b mg last r ne g = cc
data-left i (suc c) b mg last r ne g =
    let minus : suc c - 1 ≡ c = omega arith in simp (r, get_or_of mg.buf i b g, minus)

ends-left :
    (i cnt : ℕ)
    → (cnt == 0) ≡ false
    → (if cnt == 1 && i == 0 || ltb 1 cnt then last_byte ∷ [] else [])
      ≡ (if cnt == 1 && i == 0 || cnt == 2 then last_byte ∷ [] else [])
        ++ (if cnt - 1 == 1 && i + 1 == 0 || ltb 1 (cnt - 1) then last_byte ∷ [] else [])
ends-left i cnt ne = ground arith

read-left :
    (i cnt v : ℕ) (mg : I2cMsg) (last : Bool)
    → mg.is_read ≡ true
    → (cnt == 0) ≡ false
    → left_at (pos i) mg cnt last
      ≡ (if cnt == 1 && i == 0 || cnt == 2 then last_byte ∷ [] else [])
        ++ left_at (pos (i + 1)) (store mg i v) (cnt - 1) last
read-left i cnt v mg last r ne = simp (r) (ends-left i cnt ne)

module _ {S : Type 0} (w : I2cPlatform S) (wire : Wire w) where
  -- A step from `(d, s)` sends words off the front of what remains.
  abbrev pub Sends : List ℕ → I2cMsg → Dev → S → Type 0
  Sends total mg d s = wire.sent s ++ remaining mg d ≡ total

  delayed-sent : (v : ℕ) (s : S) → wire.sent (delayed_write w v s) ≡ wire.sent s ++ v ∷ []
  delayed-sent v s = wire.write_sent v _ ∙ ap (λ l. l ++ v ∷ []) (wire.read_sent _ s)

  -- Words are sent from the front of what remains.
  sent_front :
      (xs : List ℕ) (s s' : S) (before after later total : List ℕ)
      → wire.sent s' ≡ wire.sent s ++ xs
      → before ≡ xs ++ after
      → wire.sent s ++ (before ++ later) ≡ total
      → wire.sent s' ++ (after ++ later) ≡ total
  sent_front xs s s' before after later total e front h =
      ap (λ l. l ++ (after ++ later)) e
      ∙ append_assoc (wire.sent s) xs (after ++ later)
      ∙ ap (λ l. wire.sent s ++ l) (sym (append_assoc xs after later))
      ∙ ap (λ l. wire.sent s ++ (l ++ later)) (sym front)
      ∙ h

  fill_at-Sends :
      (p : ℤ) (mg : I2cMsg) (d : Dev) (s : S) (total : List ℕ)
      → Left p mg d.cnt
      → IsWhole mg
      → wire.sent s ++ (left_at p mg d.cnt (d.rem == 1) ++ frame d.rest) ≡ total
      → Sends total mg d s
      → Ensures (λ f. Sends total mg f.1 f.2) (fill_at w p mg d s)
  fill_at-Sends (negsuc n) mg d s total (e, l) v h h' = rw e (
      sent_front (_ ∷ []) s _ (words mg (d.rem == 1)) (left_at (pos 0) mg d.cnt (d.rem == 1))
        (frame d.rest) total (delayed-sent _ s)
        (ap (λ t. address_word mg (d.rem == 1 && mg.len == 0) ∷ t)
          (body-left mg d.cnt (d.rem == 1) l))
        h)
  fill_at-Sends (pos i) mg d s total l v h h' =
      if_split (Ensures (λ f. Sends total mg f.1 f.2)) (mg.is_read || d.cnt == 0) (λ q. h')
        λ q.
          let (b, e) = get_elem?-in mg.buf i (ground (arith, v)) in
          rw e (
            sent_front (_ ∷ []) s _ (left_at (pos i) mg d.cnt (d.rem == 1))
              (left_at (pos (i + 1)) mg (d.cnt - 1) (d.rem == 1)) (frame d.rest) total
              (delayed-sent _ s)
              (data-left i d.cnt b mg (d.rem == 1) (ground arith) (ground arith)
                (ground (arith, e)))
              h)

  pub fill-Sends :
      (mg : I2cMsg) (d : Dev) (s : S) (total : List ℕ)
      → Left d.position mg d.cnt
      → IsWhole mg
      → Sends total mg d s
      → Ensures (λ f. Sends total mg f.1 f.2) (fill_write_buffer w mg d s)
  unfolding fill_write_buffer
  fill-Sends mg d s total l v h = fill_at-Sends d.position mg d s total l v h h

  pub flush-Sends :
      (mg : I2cMsg) (d : Dev) (s : S) (total : List ℕ)
      → d.flush_cnt ≡ 0
      → d.need_flush ≡ true
      → Sends total mg d s
      → Ensures
          (λ g. (g.0.flush_cnt ≡ 0) × (g.0.msg ≡ d.msg) × Sends total mg g.0 g.1)
          (flush w d s)
  unfolding flush
  flush-Sends mg d s total z nf h =
      let even : (d.flush_cnt % 2 == 1) ≡ false = rw z refl in
      let h' = ap (λ l. l ++ remaining mg d) (wire.read_sent i2c_read_data s) ∙ h in
      rw even (
        if_split
          (λ d'.
            (d'.flush_cnt ≡ 0)
            × (d'.msg ≡ d.msg)
            × Sends total mg d' (w.mmio.read32 i2c_read_data s).1)
          d.need_flush (λ q. (z, refl, h')) (λ q. cc))

  asked :
      (b : Bool) (s : S)
      → wire.sent (w.mmio.read32 i2c_read_data (if b then write_data w last_byte s else s)).1
        ≡ wire.sent s ++ (if b then last_byte ∷ [] else [])
  asked true s = wire.read_sent i2c_read_data _ ∙ wire.write_sent last_byte s
  asked false s = wire.read_sent i2c_read_data s ∙ sym (append-nil (wire.sent s))

  pub receive-Sends :
      (i : ℕ) (mg : I2cMsg) (d : Dev) (s : S) (total : List ℕ)
      → i < length mg.buf
      → mg.is_read ≡ true
      → (d.cnt == 0) ≡ false
      → d.flush_cnt ≡ 0
      → wire.sent s ++ (left_at (pos i) mg d.cnt (d.rem == 1) ++ frame d.rest) ≡ total
      → Ensures
          (λ g.
            (mg' : I2cMsg) × (g.0.msg ≡ some mg') × (g.0.flush_cnt ≡ 0) × Sends total mg' g.0 g.1)
          (receive w i mg d s)
  unfolding receive
  receive-Sends i mg d s total inside r ne z h =
      let e : ltb i (length mg.buf) ≡ true = ground arith in
      let asks = d.cnt == 1 && i == 0 || d.cnt == 2 in
      let v = (w.mmio.read32 i2c_read_data (if asks then write_data w last_byte s else s)).0 in
      let mg' = store mg i (v % 256) in
      rw e (
        mg',
        refl,
        z,
        sent_front (if asks then last_byte ∷ [] else []) s _ (left_at (pos i) mg d.cnt (d.rem == 1))
            (left_at (pos (i + 1)) mg' (d.cnt - 1) (d.rem == 1)) (frame d.rest) total (asked asks s)
            (read-left i d.cnt (v % 256) mg (d.rem == 1) r ne) h,
      )
