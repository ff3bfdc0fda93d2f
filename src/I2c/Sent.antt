-- ===== src/I2c/Sent.antt =====
-- What the interrupts of a transfer write to the controller, all together.
use msm8909pkg.Base.{
  Ensures, Ensures-mono, Ensures-both, and_then-Ensures, ℕ, zero, suc, ◌-◌, ◌≡◌, ◌⊎◌, inl, inr, ◌∙◌,
  subst, sym, ap, refl, Bool, true, false, not, ◌&&◌, ◌||◌, Option, some, List, [], ◌∷◌, ◌++◌, ◌==◌,
  ltb, length, get_elem?-in, arith, if_both, if_split,
}
use msm8909pkg.Base.Int.{ℤ, pos, negsuc}
use msm8909pkg.MicroP.{I2cMsg}
use msm8909pkg.I2c.{
  i2c_status, has, wr_buffer_full, rd_buffer_full, error_mask, Pdata, Dev, I2cPlatform, interrupt,
  interrupt_on, serve_status, fill_write_buffer, fill_at, read_buffer, read_at, receive, flush,
  advance, advance_at, step_message, finish_interrupt,
}
use msm8909pkg.I2c.Bounds.{IsWhole, On, Fits, Left, fill-On, read-On, advance_at-On}
use msm8909pkg.I2c.Frames.{
  Wire, Sends, NotNegative, left_at, frame, remaining, fill-Sends, flush-Sends, receive-Sends,
}

-- A byte comes in only where the driver waits for one: of a read, or one to flush.
abbrev pub Awaits : I2cMsg → Dev → Type 0
Awaits mg d =
    (NotNegative d.position × (mg.is_read ≡ true) × ((d.cnt == 0) ≡ false)) ⊎ (d.need_flush ≡ true)

abbrev pub Expected : ℕ → I2cMsg → Dev → Type 0
Expected status mg d = has status rd_buffer_full ≡ true → Awaits mg d

nothing_left :
    (i cnt : ℕ) (mg : I2cMsg) (last : Bool) → (cnt == 0) ≡ true → left_at (pos i) mg cnt last ≡ []
nothing_left i zero mg last q = if_both (λ l. l ≡ []) mg.is_read (ground arith) refl
nothing_left i (suc n) mg last q = absurd (ground arith)

module _ {S : Type 0} (w : I2cPlatform S) (wire : Wire w) (total : List ℕ) where
  -- What filling the write buffer leaves alone.
  abbrev Leaves : ℤ → I2cMsg → Dev → Option (Bool × Dev × S) → Type 0
  Leaves p mg d o =
      Ensures
        (λ f.
          (f.1.flush_cnt ≡ d.flush_cnt)
          × (f.1.need_flush ≡ d.need_flush)
          × (mg.is_read ≡ true → NotNegative p → f.1 ≡ d))
        o

  fill_at-Leaves :
      (p : ℤ) (mg : I2cMsg) (d : Dev) (s : S)
      → Left p mg d.cnt
      → IsWhole mg
      → Leaves p mg d (fill_at w p mg d s)
  fill_at-Leaves (negsuc n) mg d s l v = (refl, refl, λ r k. absurd k)
  fill_at-Leaves (pos i) mg d s l v =
      if_split (Leaves (pos i) mg d) (mg.is_read || d.cnt == 0) (λ q. (refl, refl, λ r k. refl))
        λ q.
          let (b, e) = get_elem?-in mg.buf i (ground (arith, v)) in
          rw e (refl, refl, λ r k. ground arith)

  fill-Leaves :
      (mg : I2cMsg) (d : Dev) (s : S)
      → Left d.position mg d.cnt
      → IsWhole mg
      → Leaves d.position mg d (fill_write_buffer w mg d s)
  unfolding fill_write_buffer
  fill-Leaves mg d s l v = fill_at-Leaves d.position mg d s l v

  -- The words are in order, on the message `mg`.
  abbrev Goes : I2cMsg → Dev → S → Type 0
  Goes mg d s = (d.flush_cnt ≡ 0) × Sends w wire total mg d s

  abbrev GoesOn : Dev → S → Type 0
  GoesOn d s = (mg : I2cMsg) × (d.msg ≡ some mg) × Goes mg d s

  flush-GoesOn :
      (mg : I2cMsg) (d : Dev) (s : S)
      → d.msg ≡ some mg
      → d.need_flush ≡ true
      → Goes mg d s
      → Ensures (λ x. GoesOn x.0 x.1) (flush w d s)
  flush-GoesOn mg d s here nf g =
      Ensures-mono (λ x. (x.0.flush_cnt ≡ 0) × (x.0.msg ≡ d.msg) × Sends w wire total mg x.0 x.1)
        (λ x. GoesOn x.0 x.1) (flush w d s) (λ x k. (mg, k.1 ∙ here, (k.0, k.2)))
        (flush-Sends w wire mg d s total g.0 nf g.1)

  only_flush :
      {A : Type 0} (mg : I2cMsg) (d : Dev)
      → (mg.is_read && not (d.cnt == 0)) ≡ false
      → (A × (mg.is_read ≡ true) × ((d.cnt == 0) ≡ false)) ⊎ (d.need_flush ≡ true)
      → d.need_flush ≡ true
  only_flush mg d q (inl (k, r, ne)) = ground arith
  only_flush mg d q (inr nf) = nf

  read_at-GoesOn :
      (p : ℤ) (mg : I2cMsg) (d : Dev) (s : S)
      → Left p mg d.cnt
      → IsWhole mg
      → d.msg ≡ some mg
      → (NotNegative p × (mg.is_read ≡ true) × ((d.cnt == 0) ≡ false)) ⊎ (d.need_flush ≡ true)
      → wire.sent s ++ (left_at p mg d.cnt (d.rem == 1) ++ frame d.rest) ≡ total
      → Goes mg d s
      → Ensures (λ g. GoesOn g.0 g.1) (read_at w p mg d s)
  read_at-GoesOn (negsuc n) mg d s l v here (inl (k, r, ne)) h g = absurd k
  read_at-GoesOn (negsuc n) mg d s l v here (inr nf) h g = flush-GoesOn mg d s here nf g
  read_at-GoesOn (pos i) mg d s l v here a h g =
      if_split (Ensures (λ x. GoesOn x.0 x.1)) (mg.is_read && not (d.cnt == 0))
        (λ q.
          Ensures-mono _ (λ x. GoesOn x.0 x.1) (receive w i mg d s) (λ x k. (k.0, k.1, (k.2, k.3)))
            (receive-Sends w wire i mg d s total (ground (arith, v)) (ground arith) (ground arith)
              g.0 h))
        (λ q. flush-GoesOn mg d s here (only_flush mg d q a) g)

  step-GoesOn :
      (i : ℕ) (mg : I2cMsg) (rest : List I2cMsg) (d : Dev) (s : S)
      → d.rest ≡ rest
      → ltb 1 d.rem ≡ true
      → d.rem ≡ suc (length d.rest)
      → (d.cnt == 0) ≡ true
      → wire.sent s ++ (left_at (pos i) mg d.cnt (d.rem == 1) ++ frame d.rest) ≡ total
      → Goes mg d s
      → Ensures (λ d'. GoesOn d' s) (step_message mg rest d)
  step-GoesOn i mg [] d s e more count q h g = absurd (ground arith)
  step-GoesOn i mg (next ∷ rest) d s e more count q h g =
      let last : (d.rem - 1 == 1) ≡ (length rest == 0) = ground (arith, ap length e) in
      let none_left : left_at (pos i) mg d.cnt (d.rem == 1) ≡ [] = nothing_left i d.cnt mg _ q in
      (
        next,
        refl,
        (
          g.0,
          rw last (
              ap (λ r. wire.sent s ++ frame r) (sym e)
              ∙ ap (λ l. wire.sent s ++ (l ++ frame d.rest)) (sym none_left)
              ∙ h),
        ),
      )

  -- The end of the handler.
  advance_at-GoesOn :
      (p : ℤ) (b : Bool) (o : Option I2cMsg) (mg : I2cMsg) (d : Dev) (s : S)
      → o ≡ some mg
      → d.msg ≡ some mg
      → d.rem ≡ suc (length d.rest)
      → wire.sent s ++ (left_at p mg d.cnt (d.rem == 1) ++ frame d.rest) ≡ total
      → Goes mg d s
      → Ensures (λ d'. GoesOn d' s) (advance_at p b o d)
  advance_at-GoesOn (negsuc n) b o mg d s e here count h g = (mg, here, g)
  advance_at-GoesOn (pos i) b o mg d s e here count h g = rw e (
      if_split (Ensures (λ d'. GoesOn d' s)) (d.cnt == 0)
        (λ q.
          if_split (Ensures (λ d'. GoesOn d' s)) (ltb 1 d.rem)
            (λ more. step-GoesOn i mg d.rest d s refl more count q h g)
            (λ more.
              if_both (λ d'. GoesOn d' s) (not b && not d.need_flush) (mg, here, g) (mg, here, g)))
        (λ q. (mg, here, g)))

  -- The transfer goes on in bounds, and in order.
  module _ (original : List I2cMsg) (installed : Option Pdata) where
    abbrev pub Carries : I2cMsg → Dev → S → Type 0
    Carries mg d s = On original installed mg d × Goes mg d s

    abbrev pub Carried : Dev × S → Type 0
    Carried x = (mg : I2cMsg) × Carries mg x.0 x.1

    together : (x : Dev × S) → Fits original installed x.0 × GoesOn x.0 x.1 → Carried x
    together x ((mg, on), (mg', here, g)) =
        let same : mg' ≡ mg = cc (here, on.here) in (mg, (on, subst (λ k. Goes k x.0 x.1) same g))

    abbrev Filled : I2cMsg → Dev → Bool × Dev × S → Type 0
    Filled mg d f =
        (On original installed mg f.1 × Sends w wire total mg f.1 f.2)
        × ((f.1.flush_cnt ≡ d.flush_cnt)
            × (f.1.need_flush ≡ d.need_flush)
            × (mg.is_read ≡ true → NotNegative d.position → f.1 ≡ d))

    fill-Filled :
        (mg : I2cMsg) (d : Dev) (s : S)
        → Carries mg d s
        → Ensures (Filled mg d) (fill_write_buffer w mg d s)
    fill-Filled mg d s (on, g) =
        let o = fill_write_buffer w mg d s in
        Ensures-both (λ f. On original installed mg f.1 × Sends w wire total mg f.1 f.2) _ o
          (Ensures-both (λ f. On original installed mg f.1) (λ f. Sends w wire total mg f.1 f.2) o
            (fill-On original installed w mg d s on)
            (fill-Sends w wire mg d s total on.left on.whole g.1))
          (fill-Leaves mg d s on.left on.whole)

    awaits :
        (mg : I2cMsg) (d d' : Dev)
        → d'.need_flush ≡ d.need_flush
        → (mg.is_read ≡ true → NotNegative d.position → d' ≡ d)
        → Awaits mg d
        → Awaits mg d'
    awaits mg d d' nf same (inl (k, r, ne)) = subst (Awaits mg) (sym (same r k)) (inl (k, r, ne))
    awaits mg d d' nf same (inr f) = inr (nf ∙ f)

    read-Carried :
        (mg : I2cMsg) (d : Dev) (s : S)
        → Carries mg d s
        → Awaits mg d
        → Ensures Carried (read_buffer w mg d s)
    unfolding read_buffer
    read-Carried mg d s (on, g) a =
        let o = read_at w d.position mg d s in
        Ensures-mono (λ x. Fits original installed x.0 × GoesOn x.0 x.1) Carried o together
          (Ensures-both (λ x. Fits original installed x.0) (λ x. GoesOn x.0 x.1) o
            (read-On original installed w mg d s on)
            (read_at-GoesOn d.position mg d s on.left on.whole on.here a g.1 g))

    finish-Carried :
        (b : Bool) (d : Dev) (s : S) → Carried (d, s) → Ensures Carried (finish_interrupt w b d s)
    finish-Carried b d s (mg, (on, g)) =
        and_then-Ensures (λ d'. Fits original installed d' × GoesOn d' s) Carried (advance b d) _
          (Ensures-both (λ d'. Fits original installed d') (λ d'. GoesOn d' s) (advance b d)
            (advance_at-On original installed d.position b d.msg mg d on.here on)
            (advance_at-GoesOn d.position b d.msg mg d s on.here on.here on.count g.1 g))
          (λ d' k. together (d', s) k)

    serve-Carried :
        (status : ℕ) (mg : I2cMsg) (d : Dev) (s : S)
        → Expected status mg d
        → Carries mg d s
        → Ensures Carried (serve_status w status mg d s)
    unfolding serve_status
    serve-Carried status mg d s expected c =
        and_then-Ensures (Filled mg d) Carried _ _
          (if_both (Ensures (Filled mg d)) (has status wr_buffer_full)
            ((c.0, c.1.1), (refl, refl, λ r k. refl)) (fill-Filled mg d s c))
          λ f k.
            let c' : Carries mg f.1 f.2 = (k.0.0, (k.1.0 ∙ c.1.0, k.0.1)) in
            and_then-Ensures Carried Carried _ _
              (if_split (Ensures Carried) (has status rd_buffer_full)
                (λ q. read-Carried mg f.1 f.2 c' (awaits mg d f.1 k.1.1 k.1.2 (expected q)))
                (λ q. (mg, c')))
              (λ x k'. finish-Carried f.0 x.0 x.1 k')

    pub interrupt-Carried :
        (mg : I2cMsg) (d : Dev) (s : S)
        → has (w.mmio.read32 i2c_status s).0 error_mask ≡ false
        → Expected (w.mmio.read32 i2c_status s).0 mg d
        → Carries mg d s
        → Ensures Carried (interrupt w d s)
    unfolding interrupt
    interrupt-Carried mg d s clean expected (on, g) =
        let (status, s') = w.mmio.read32 i2c_status s in
        let g' = ap (λ l. l ++ remaining mg d) (wire.read_sent i2c_status s) ∙ g.1 in
        subst (λ o. Ensures Carried (interrupt_on w status o d s')) (sym on.here)
          (rw clean (serve-Carried status mg d s' expected (on, (g.0, g'))))
