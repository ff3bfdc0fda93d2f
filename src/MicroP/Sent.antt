-- ===== src/MicroP/Sent.antt =====
-- What the driver of the microprocessor puts on the bus, and how often.
use msm8909pkg.Base.{
  ℕ, zero, suc, ◌<◌, ◌≡◌, refl, ap, ◌∙◌, Bool, true, false, Option, none, some, List, [], ◌∷◌,
  length, leb, arith, if_split, Bool-cases, inl, inr,
}
use msm8909pkg.MicroP.{
  I2cMsg, Bus, MicroP, went_through, retry, read_messages, write_message, microp_i2c_read,
  microp_i2c_write, read_from, write_to,
}

module _ {S : Type 0} (b : Bus S) (sent : S → List (List I2cMsg)) where
  -- The transfers of a machine are listed, the last one first.
  pub record Listed : Type 0 where
    pub after_xfer : (msgs : List I2cMsg) (s : S) → sent (b.xfer msgs s).2 ≡ msgs ∷ sent s
    pub after_delay : (t : ℕ) (s : S) → sent (b.micro_second_delay t s) ≡ sent s

  -- The list after `k` more transfers of the same messages.
  abbrev pub tries : ℕ → List I2cMsg → List (List I2cMsg) → List (List I2cMsg)
  tries zero msgs l = l
  tries (suc k) msgs l = tries k msgs (msgs ∷ l)

  -- All of `n` transfers were made and failed; or the last of at most `n` went through and gave the
  -- bytes of the result.
  abbrev pub Tried : ℕ → List I2cMsg → S → Option (List ℕ) → S → Type 0
  Tried n msgs s none s' = sent s' ≡ tries n msgs (sent s)
  Tried n msgs s (some d) s' =
      (k : ℕ) × (t : S) × (k < n)
      × (sent s' ≡ tries (suc k) msgs (sent s))
      × (b.xfer msgs t ≡ (some (length msgs), d, s'))

  module _ (listed : Listed) where
    more-Tried :
        (n : ℕ) (msgs : List I2cMsg) (s t : S) (r : Option (List ℕ)) (s' : S)
        → sent t ≡ msgs ∷ sent s
        → Tried n msgs t r s'
        → Tried (suc n) msgs s r s'
    more-Tried n msgs s t none s' e h = h ∙ ap (tries n msgs) e
    more-Tried n msgs s t (some d) s' e (k, u, few, list, last) =
        (suc k, u, omega arith, list ∙ ap (tries (suc k) msgs) e, last)

    went_through-lem : (count : Option ℕ) (n : ℕ) → went_through b count n ≡ true → count ≡ some n
    went_through-lem none n h = absurd (ground arith)
    went_through-lem (some k) n h = ap some (ground arith)

    retry-Tried :
        (n : ℕ) (msgs : List I2cMsg) (s : S)
        → Tried n msgs s (retry b n msgs s).0 (retry b n msgs s).1
    unfolding retry
    retry-Tried zero msgs s = refl
    retry-Tried (suc n) msgs s =
        let (count, d, s') = b.xfer msgs s in
        let t = b.micro_second_delay 5 s' in
        if_split {A = Option (List ℕ) × S} (λ o. Tried (suc n) msgs s o.0 o.1)
          (went_through b count (length msgs))
          (λ e. (
            0,
            s,
            omega arith,
            listed.after_xfer msgs s,
            ap (λ c. (c, d, s')) (went_through-lem count (length msgs) e),
          ))
          λ e.
            more-Tried n msgs s t (retry b n msgs t).0 (retry b n msgs t).1
              (listed.after_delay 5 s' ∙ listed.after_xfer msgs s) (retry-Tried n msgs t)

    -- A write that does not fit the block buffer is refused, and nothing is sent; else it is tried.
    abbrev pub Handled : Bool → List I2cMsg → S → Option (List ℕ) → S → Type 0
    Handled true msgs s r s' = (r ≡ none) × (sent s' ≡ sent s)
    Handled false msgs s r s' = Tried 17 msgs s r s'

    write_to-Handled :
        (chip addr : ℕ) (cmd : List ℕ) (n : ℕ) (m : MicroP S)
        → let (r, m') = write_to b (some chip) addr cmd n m in
          Handled (leb 21 n) (write_message b chip addr cmd n ∷ []) m.world r m'.world
    write_to-Handled chip addr cmd n m = elim (Bool-cases (leb 21 n)) [
      | inl e ↦ rw e (refl, refl)
      | inr e ↦ rw e (retry-Tried 17 (write_message b chip addr cmd n ∷ []) m.world)
    ]

    known_chip :
        (p : Option ℕ) (chip addr : ℕ) (cmd : List ℕ) (n : ℕ) (m : MicroP S)
        → p ≡ some chip
        → let (r, m') = read_from b p addr n m in
          let (r', m'') = write_to b p addr cmd n m in
          Tried 17 (read_messages b chip addr n) m.world r m'.world
          × Handled (leb 21 n) (write_message b chip addr cmd n ∷ []) m.world r' m''.world
    known_chip p chip addr cmd n m e =
        rw e
          (retry-Tried 17 (read_messages b chip addr n) m.world, write_to-Handled chip addr cmd n m)

    -- Once a chip is known: a read makes at most 17 transfers of its two messages, and a write of at
    -- most 20 bytes at most 17 of its one message; each gives the bytes of its last transfer, which
    -- went through, or fails after all 17. A longer write is refused without a transfer.
    pub read_write-Handled :
        (chip addr : ℕ) (cmd : List ℕ) (n : ℕ) (m : MicroP S)
        → m.pdata ≡ some chip
        → let (r, m') = microp_i2c_read b addr n m in
          let (r', m'') = microp_i2c_write b addr cmd n m in
          Tried 17 (read_messages b chip addr n) m.world r m'.world
          × Handled (leb 21 n) (write_message b chip addr cmd n ∷ []) m.world r' m''.world
    unfolding microp_i2c_read microp_i2c_write
    read_write-Handled chip addr cmd n m e = known_chip m.pdata chip addr cmd n m e
