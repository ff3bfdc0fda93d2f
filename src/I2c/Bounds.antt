-- ===== src/I2c/Bounds.antt =====
-- Where the handler reads and writes: inside of the buffers, and on the messages of the transfer.
use msm8909pkg.Base.{
  Ensures, and_then-Ensures, ℕ, suc, ◌+◌, ◌≡◌, ◌∙◌, subst, ap, refl, Bool, true, false, not, ◌&&◌,
  ◌||◌, Option, none, some, List, [], ◌∷◌, ◌++◌, if◌then◌else◌, ◌==◌, ltb, length, get_elem?-in,
  length-set, Every-append, map, arith, if_both, if_split, Every,
}
use mathlib.Core.List.{append_assoc}
use msm8909pkg.Base.Int.{ℤ, pos, negsuc}
use msm8909pkg.MicroP.{I2cMsg}
use msm8909pkg.I2c.{
  has, wr_buffer_full, rd_buffer_full, error_mask, Pdata, Dev, I2cPlatform, store, message_done,
  step_message, advance, advance_at, fill_at, fill_write_buffer, fill_byte, receive, flush, read_at,
  read_buffer, finish_interrupt, serve_status, interrupt, interrupt_on,
}

-- The buffer of a message has the bytes that its length says.
abbrev pub IsWhole : I2cMsg → Type 0
IsWhole mg = length mg.buf ≡ mg.len

-- The bytes that are left to a message whose position is `p`.
abbrev pub Left : ℤ → I2cMsg → ℕ → Type 0
Left (negsuc n) mg k = (n ≡ 0) × (k ≡ mg.len)
Left (pos i) mg k = i + k ≡ mg.len

-- What a transfer keeps of a message: all but the bytes that a read fills in.
abbrev pub kept : I2cMsg → ℕ × Bool × ℕ × List ℕ
kept mg = (mg.addr, mg.is_read, mg.len, if mg.is_read then [] else mg.buf)

store-kept : (mg : I2cMsg) (i v : ℕ) → mg.is_read ≡ true → kept (store mg i v) ≡ kept mg
store-kept mg i v r = ground arith

replaced :
    (mg mg' : I2cMsg) (xs ys : List I2cMsg)
    → kept mg' ≡ kept mg
    → map kept (xs ++ mg' ∷ ys) ≡ map kept (xs ++ mg ∷ ys)
replaced mg mg' [] ys e = ap (λ h. h ∷ map kept ys) e
replaced mg mg' (x ∷ xs) ys e = ap (λ t. kept x ∷ t) (replaced mg mg' xs ys e)

-- The transfer is one of the messages `original`, by the installed driver.
module _ (original : List I2cMsg) (installed : Option Pdata) where
  -- The handler is on the message `mg` of a transfer.
  pub record On (mg : I2cMsg) (d : Dev) : Type 0 where
    pub here : d.msg ≡ some mg
    pub whole : IsWhole mg
    pub left : Left d.position mg d.cnt
    pub count : d.rem ≡ suc (length d.rest)
    pub ahead : Every IsWhole d.rest
    pub behind : Every IsWhole d.past
    pub same : map kept (d.past ++ mg ∷ d.rest) ≡ map kept original
    pub driver : d.pdata ≡ installed

  -- A transfer is under way.
  abbrev pub Fits : Dev → Type 0
  Fits d = (mg : I2cMsg) × On mg d

  -- What a step on a message leaves.
  move-On :
      (mg mg' : I2cMsg) (d d' : Dev)
      → On mg d
      → d'.msg ≡ some mg'
      → IsWhole mg'
      → kept mg' ≡ kept mg
      → Left d'.position mg' d'.cnt
      → d'.rem ≡ d.rem
      → d'.rest ≡ d.rest
      → d'.past ≡ d.past
      → d'.pdata ≡ d.pdata
      → On mg' d'
  move-On mg mg' d d' on here whole k left rem rest past pdata = record {
    here = here;
    whole = whole;
    left = left;
    count = rw (rem, rest) on.count;
    ahead = rw rest on.ahead;
    behind = rw past on.behind;
    same = rw (rest, past) (replaced mg mg' d.past d.rest k ∙ on.same);
    driver = pdata ∙ on.driver;
  }

  module _ {S : Type 0} (w : I2cPlatform S) where
    abbrev pub AfterFill : I2cMsg → Option (Bool × Dev × S) → Type 0
    AfterFill mg o = Ensures (λ f. On mg f.1) o

    put_byte-On :
        (i : ℕ) (mg : I2cMsg) (d : Dev) (s : S) (o : Option ℕ) (v : ℕ)
        → o ≡ some v
        → Left (pos i) mg d.cnt
        → (d.cnt == 0) ≡ false
        → On mg d
        → AfterFill mg (fill_byte w i o d s)
    put_byte-On i mg d s o v e l ne on =
        rw e (move-On mg mg d _ on on.here on.whole refl (ground arith) refl refl refl refl)

    fill_at-On :
        (p : ℤ) (mg : I2cMsg) (d : Dev) (s : S)
        → Left p mg d.cnt
        → On mg d
        → AfterFill mg (fill_at w p mg d s)
    fill_at-On (negsuc n) mg d s (e, l) on =
        rw e (move-On mg mg d _ on on.here on.whole refl (omega arith) refl refl refl refl)
    fill_at-On (pos i) mg d s l on =
        if_split (AfterFill mg) (mg.is_read || d.cnt == 0) (λ q. on)
          λ q.
            let ne : (d.cnt == 0) ≡ false = ground arith in
            let (v, e) = get_elem?-in mg.buf i (ground (arith, on.whole)) in
            put_byte-On i mg d s _ v e l ne on

    pub fill-On :
        (mg : I2cMsg) (d : Dev) (s : S) → On mg d → AfterFill mg (fill_write_buffer w mg d s)
    unfolding fill_write_buffer
    fill-On mg d s on = fill_at-On d.position mg d s on.left on

    abbrev pub AfterRead : Option (Dev × S) → Type 0
    AfterRead o = Ensures (λ g. (mg : I2cMsg) × On mg g.0) o

    flush-On : (mg : I2cMsg) (d : Dev) (s : S) → On mg d → AfterRead (flush w d s)
    unfolding flush
    flush-On mg d s on = (
      mg,
      if_both (On mg) d.need_flush
          (move-On mg mg d _ on on.here on.whole refl on.left refl refl refl refl)
          (move-On mg mg d _ on on.here on.whole refl on.left refl refl refl refl),
    )

    receive-On :
        (i : ℕ) (mg : I2cMsg) (d : Dev) (s : S)
        → Left (pos i) mg d.cnt
        → (d.cnt == 0) ≡ false
        → mg.is_read ≡ true
        → On mg d
        → AfterRead (receive w i mg d s)
    unfolding receive
    receive-On i mg d s l ne r on =
        let inside : ltb i (length mg.buf) ≡ true = ground (arith, on.whole) in
        rw inside (
          store mg i _,
          move-On mg (store mg i _) d _ on refl (length-set mg.buf i _ ∙ on.whole)
              (store-kept mg i _ r) (ground arith) refl refl refl refl,
        )

    read_at-On :
        (p : ℤ) (mg : I2cMsg) (d : Dev) (s : S)
        → Left p mg d.cnt
        → On mg d
        → AfterRead (read_at w p mg d s)
    read_at-On (negsuc n) mg d s l on = flush-On mg d s on
    read_at-On (pos i) mg d s l on =
        if_split AfterRead (mg.is_read && not (d.cnt == 0))
          (λ q. receive-On i mg d s l (ground arith) (ground arith) on) (λ q. flush-On mg d s on)

    pub read-On : (mg : I2cMsg) (d : Dev) (s : S) → On mg d → AfterRead (read_buffer w mg d s)
    unfolding read_buffer
    read-On mg d s on = read_at-On d.position mg d s on.left on

  abbrev pub Advanced : Option Dev → Type 0
  Advanced o = Ensures (λ d. (mg : I2cMsg) × On mg d) o

  step_message-On :
      (mg : I2cMsg) (rest : List I2cMsg) (d : Dev)
      → d.rest ≡ rest
      → ltb 1 d.rem ≡ true
      → On mg d
      → Advanced (step_message mg rest d)
  step_message-On mg [] d e more on = absurd (ground (arith, on.count))
  step_message-On mg (next ∷ rest) d e more on =
      let ahead : Every IsWhole (next ∷ rest) = subst (Every IsWhole) e on.ahead in
      (
        next,
        record {
          here = refl;
          whole = ahead.0;
          left = (refl, refl);
          count = ground (arith, on.count);
          ahead = ahead.1;
          behind = Every-append IsWhole d.past (mg ∷ []) on.behind (on.whole, tt);
          same =
              ap (map kept) (append_assoc d.past (mg ∷ []) (next ∷ rest))
              ∙ subst (λ r. map kept (d.past ++ mg ∷ r) ≡ map kept original) e on.same;
          driver = on.driver;
        },
      )

  message_done-On : (b : Bool) (mg : I2cMsg) (d : Dev) → On mg d → Advanced (message_done b mg d)
  message_done-On b mg d on =
      if_split Advanced (ltb 1 d.rem) (λ q. step_message-On mg d.rest d refl q on)
        λ q. (
          mg,
          if_both (On mg) (not b && not d.need_flush)
              (move-On mg mg d _ on on.here on.whole refl on.left refl refl refl refl) on,
        )

  pub advance_at-On :
      (p : ℤ) (b : Bool) (o : Option I2cMsg) (mg : I2cMsg) (d : Dev)
      → o ≡ some mg
      → On mg d
      → Advanced (advance_at p b o d)
  advance_at-On (negsuc n) b o mg d e on = (mg, on)
  advance_at-On (pos i) b o mg d e on =
      rw e (if_both Advanced (d.cnt == 0) (message_done-On b mg d on) (mg, on))

  -- The handler ends without a fault.
  abbrev pub Safe : {S : Type 0} → Option (Dev × S) → Type 0
  Safe o = Ensures (λ x. Fits x.0) o

  module _ {S : Type 0} (w : I2cPlatform S) where
    finish-Safe :
        (b : Bool) (mg : I2cMsg) (d : Dev) (s : S) → On mg d → Safe (finish_interrupt w b d s)
    finish-Safe b mg d s on =
        and_then-Ensures (λ d'. (mg' : I2cMsg) × On mg' d') (λ x. Fits x.0) (advance b d) _
          (advance_at-On d.position b d.msg mg d on.here on) (λ d' k. k)

    serve-Safe :
        (status : ℕ) (mg : I2cMsg) (d : Dev) (s : S) → On mg d → Safe (serve_status w status mg d s)
    unfolding serve_status
    serve-Safe status mg d s on =
        and_then-Ensures (λ f. On mg f.1) (λ x. Fits x.0) _ _
          (if_both (AfterFill w mg) (has status wr_buffer_full) on (fill-On w mg d s on))
          λ f on'.
            and_then-Ensures (λ g. (mg' : I2cMsg) × On mg' g.0) (λ x. Fits x.0) _ _
              (if_both (AfterRead w) (has status rd_buffer_full) (read-On w mg f.1 f.2 on')
                (mg, on'))
              (λ g k. finish-Safe f.0 k.0 g.0 g.1 k.1)

    interrupt_on-Safe :
        (status : ℕ) (o : Option I2cMsg) (d : Dev) (s : S)
        → d.msg ≡ o
        → Fits d
        → Safe (interrupt_on w status o d s)
    interrupt_on-Safe status none d s e (mg, on) = cc (on.here, e)
    interrupt_on-Safe status (some mg) d s e (mg', on) =
        let same : On mg d = subst (λ k. On k d) (cc (on.here, e)) on in
        if_both Safe (has status error_mask)
          (mg, move-On mg mg d _ same same.here same.whole refl same.left refl refl refl refl)
          (serve-Safe status mg d s same)

    pub interrupt-Safe : (d : Dev) (s : S) → Fits d → Safe (interrupt w d s)
    unfolding interrupt
    interrupt-Safe d s f = interrupt_on-Safe _ d.msg d _ refl f
