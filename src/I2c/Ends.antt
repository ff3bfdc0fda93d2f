-- ===== src/I2c/Ends.antt =====
-- A transfer ends: its waits are bounded, and its handler makes no fault.
use msm8909pkg.Base.{
  Ensures, and_then-Ensures, ℕ, zero, suc, ◌≡◌, ◌≢◌, ◌∙◌, subst, refl, Bool, true, Option, none,
  some, List, [], ◌∷◌, ◌++◌, if◌then◌else◌, length, arith, if_both, Every, Every-append, map, ap,
  sym,
}
use msm8909pkg.Base.Int.{ℤ}
use msm8909pkg.MicroP.{I2cMsg}
use msm8909pkg.I2c.{has, bus_active, Pdata, Dev, I2cPlatform, interrupt, i2c_status}
use msm8909pkg.I2c.Bounds.{IsWhole, On, Fits, kept, interrupt-Safe}
use msm8909pkg.I2c.Transfer.{
  notbusy_polls, messages, started, stopped, XferResult, interrupts, poll_notbusy, recover_bus_busy,
  conclude, run_messages, begin, transfer, msm_i2c_xfer, outcome, attempts, is_count, msm_i2c_read,
  msm_i2c_write, i2c_write_messages, installed, i2c_read_messages, i2c_tries,
}

module _ {S : Type 0} (w : I2cPlatform S) where
  -- What every interrupt keeps, a wait keeps.
  module _ (P : Dev → Type 0)
      (keeps : (d : Dev) (s : S) → P d → Ensures (λ x. P x.0) (interrupt w d s)) where
    interrupts-keep : (n : ℕ) (d : Dev) (s : S) → P d → Ensures (λ x. P x.0) (interrupts w n d s)
    unfolding interrupts
    interrupts-keep zero d s p = p
    interrupts-keep (suc n) d s p =
        and_then-Ensures (λ x. P x.0) (λ x. P x.0) (interrupt w d s) _ (keeps d s p)
          (λ x k. interrupts-keep n x.0 x.1 k)

    abbrev pub Polled : Option (Bool × Dev × S) → Type 0
    Polled o = Ensures (λ y. P y.1) o

    poll-keep :
        (arrive : ℕ → ℕ) (n : ℕ) (d : Dev) (s : S) → P d → Polled (poll_notbusy w arrive n d s)
    unfolding poll_notbusy
    poll-keep arrive zero d s p = p
    poll-keep arrive (suc n) d s p =
        and_then-Ensures (λ x. P x.0) (λ y. P y.1) (interrupts w (arrive n) d s) _
          (interrupts-keep (arrive n) d s p)
          λ x k.
            let (status, s') = w.mmio.read32 i2c_status x.1 in
            if_both Polled (has status bus_active) {x = poll_notbusy w arrive n x.0 s'}
              {y = some (true, x.0, s')} (poll-keep arrive n x.0 s' k) k

  idle-keep :
      (d₀ d : Dev) (s : S) → d₀.msg ≡ none → d ≡ d₀ → Ensures (λ x. x.0 ≡ d₀) (interrupt w d s)
  unfolding interrupt
  idle-keep d₀ d s e same = rw (same, e) refl

  -- A transfer has ended: there is none any more, the driver is the one that was installed, and the
  -- messages are those of before but for the bytes that were read.
  pub record Ended (original : List I2cMsg) (installed : Option Pdata) (o : XferResult S)
      : Type 0 where
    pub idle : o.dev.msg ≡ none
    pub driver : o.dev.pdata ≡ installed
    pub whole : Every IsWhole o.msgs
    pub same : map kept o.msgs ≡ map kept original

  pub started-On :
      (mg : I2cMsg) (rest : List I2cMsg) (d : Dev)
      → Every IsWhole (mg ∷ rest)
      → On (mg ∷ rest) d.pdata mg (started mg rest (length (mg ∷ rest)) d)
  started-On mg rest d v = record {
    here = refl;
    whole = v.0;
    left = (refl, refl);
    count = omega arith;
    ahead = v.1;
    behind = tt;
    same = refl;
    driver = refl;
  }

  IsWhole-around :
      (xs ys : List I2cMsg) (mg : I2cMsg)
      → Every IsWhole xs
      → IsWhole mg
      → Every IsWhole ys
      → Every IsWhole (xs ++ mg ∷ ys)
  IsWhole-around xs ys mg f w g = Every-append IsWhole xs (mg ∷ ys) f (w, g)

  outcome-Ended :
      (original : List I2cMsg) (installed : Option Pdata) (p : Pdata) (r : ℤ) (d : Dev) (s : S)
      → Fits original installed d
      → Ended original installed (outcome w p r (messages d) (stopped d) s)
  outcome-Ended original installed p r d s (mg, on) =
      let array : messages d ≡ d.past ++ mg ∷ d.rest = rw on.here refl in
      record {
        idle = refl;
        driver = on.driver;
        whole =
            subst (Every IsWhole) (sym array)
              (IsWhole-around d.past d.rest mg on.behind on.whole on.ahead);
        same = ap (map kept) array ∙ on.same;
      }

  conclude-Ended :
      (original : List I2cMsg) (installed : Option Pdata) (p : Pdata) (idle : Bool) (d : Dev)
      (s : S)
      → Fits original installed d
      → Ended original installed (conclude w p idle d s)
  unfolding conclude
  conclude-Ended original installed p idle d s f =
      let (recovered, s1) = if idle then (true, s) else recover_bus_busy w p s in
      if_both (Ended original installed) recovered (outcome-Ended original installed p _ d _ f)
        (outcome-Ended original installed p d.ret d s1 f)

  abbrev Ends : List I2cMsg → Option Pdata → Option (XferResult S) → Type 0
  Ends original installed o = Ensures (Ended original installed) o

  run-Ends :
      (p : Pdata) (arrive : ℕ → ℕ) (mg : I2cMsg) (rest : List I2cMsg) (d : Dev) (s : S)
      → Every IsWhole (mg ∷ rest)
      → Ends (mg ∷ rest) d.pdata (run_messages w p arrive (mg ∷ rest) (length (mg ∷ rest)) d s)
  run-Ends p arrive mg rest d s v =
      let d' = started mg rest (length (mg ∷ rest)) d in
      let P : Dev → Type 0 = Fits (mg ∷ rest) d.pdata in
      and_then-Ensures (λ x. P x.0) (Ended (mg ∷ rest) d.pdata) (interrupt w d' s) _
        (interrupt-Safe (mg ∷ rest) d.pdata w d' s (mg, started-On mg rest d v))
        λ x k.
          and_then-Ensures (λ y. P y.1) (Ended (mg ∷ rest) d.pdata)
            (poll_notbusy w arrive notbusy_polls x.0 x.1) _
            (poll-keep P (λ e t. interrupt-Safe (mg ∷ rest) d.pdata w e t) arrive notbusy_polls x.0
              x.1 k)
            (λ y k'. conclude-Ended (mg ∷ rest) d.pdata p y.0 y.1 y.2 k')

  begin-Ends :
      (p : Pdata) (arrive : ℕ → ℕ) (mg : I2cMsg) (rest : List I2cMsg) (idle : Bool) (d : Dev)
      (s : S)
      → d.msg ≡ none
      → Every IsWhole (mg ∷ rest)
      → Ends (mg ∷ rest) d.pdata (begin w p arrive (mg ∷ rest) (length (mg ∷ rest)) (idle, d, s))
  begin-Ends p arrive mg rest idle d s e v =
      let (recovered, s') = if idle then (true, s) else recover_bus_busy w p s in
      if_both (Ends (mg ∷ rest) d.pdata) recovered (run-Ends p arrive mg rest d s' v)
        (record { idle = e; driver = refl; whole = v; same = refl })

  transfer-Ends :
      (o : Option Pdata) (p : Pdata) (arrive arrive' : ℕ → ℕ) (mg : I2cMsg) (rest : List I2cMsg)
      (d : Dev) (s : S)
      → o ≡ some p
      → d.msg ≡ none
      → Every IsWhole (mg ∷ rest)
      → Ends (mg ∷ rest) d.pdata (transfer w o arrive arrive' (mg ∷ rest) (length (mg ∷ rest)) d s)
  transfer-Ends o p arrive arrive' mg rest d s q e v = rw q (
      and_then-Ensures (λ y. y.1 ≡ d) (Ended (mg ∷ rest) d.pdata)
        (poll_notbusy w arrive notbusy_polls d _) _
        (poll-keep (λ d'. d' ≡ d) (λ d' t k. idle-keep d d' t e k) arrive notbusy_polls d _ refl)
        λ y k.
          subst
            (λ d'.
              Ends (mg ∷ rest) d.pdata
                (begin w p arrive' (mg ∷ rest) (length (mg ∷ rest)) (y.0, d', y.2)))
            (sym k) (begin-Ends p arrive' mg rest y.0 d y.2 e v))

  -- The loop of tries. The messages of a try are those that the one before it has left.
  abbrev pub Tried : List I2cMsg → Option Pdata → Option (Bool × XferResult S) → Type 0
  Tried original installed o = Ensures (λ x. Ended original installed x.1) o

  attempts-Tried :
      (arrive arrive' : ℕ → ℕ → ℕ) (n : ℕ) (p : Pdata) (original msgs : List I2cMsg) (d : Dev)
      (s : S)
      → d.pdata ≡ some p
      → d.msg ≡ none
      → original ≢ []
      → map kept msgs ≡ map kept original
      → Every IsWhole msgs
      → Tried original (some p) (attempts w arrive arrive' n msgs d s)
  unfolding attempts msm_i2c_xfer
  attempts-Tried arrive arrive' zero p original msgs d s q e some_msg same v = record {
    idle = e;
    driver = q;
    whole = v;
    same = same;
  }
  attempts-Tried arrive arrive' (suc n) p [] msgs d s q e some_msg same v = absurd (some_msg refl)
  attempts-Tried arrive arrive' (suc n) p (x ∷ xs) [] d s q e some_msg same v = cc
  attempts-Tried arrive arrive' (suc n) p (x ∷ xs) (mg ∷ rest) d s q e some_msg same v =
      and_then-Ensures (Ended (mg ∷ rest) d.pdata) (λ t. Ended (x ∷ xs) (some p) t.1)
        (msm_i2c_xfer w (arrive n) (arrive' n) (mg ∷ rest) (length (mg ∷ rest)) d s) _
        (transfer-Ends d.pdata p (arrive n) (arrive' n) mg rest d s q e v)
        λ o k.
          let same' = k.same ∙ same in
          if_both (Tried (x ∷ xs) (some p)) (is_count w o.ret (length (mg ∷ rest)))
            (record { idle = k.idle; driver = k.driver ∙ q; whole = k.whole; same = same' })
            (attempts-Tried arrive arrive' n p (x ∷ xs) o.msgs o.dev o.world (k.driver ∙ q) k.idle
              some_msg same' k.whole)

  installed-Tried :
      (o : Option Pdata) (arrive arrive' : ℕ → ℕ → ℕ) (p : Pdata) (msgs : List I2cMsg) (d : Dev)
      (s : S)
      → o ≡ some p
      → d.pdata ≡ some p
      → d.msg ≡ none
      → msgs ≢ []
      → Every IsWhole msgs
      → Tried msgs (some p) (installed w o arrive arrive' msgs d s)
  installed-Tried o arrive arrive' p msgs d s q q' e ne v =
      rw q (attempts-Tried arrive arrive' i2c_tries p msgs msgs d s q' e ne refl v)

  pub write-Ends :
      (arrive arrive' : ℕ → ℕ → ℕ) (chip count : ℕ) (buf : List ℕ) (p : Pdata) (d : Dev) (s : S)
      → d.pdata ≡ some p
      → d.msg ≡ none
      → length buf ≡ count
      → Tried
          (i2c_write_messages chip count buf)
          (some p)
          (msm_i2c_write w arrive arrive' chip count buf d s)
  unfolding msm_i2c_write
  write-Ends arrive arrive' chip count buf p d s q e h =
      installed-Tried d.pdata arrive arrive' p (i2c_write_messages chip count buf) d s q q e (cc)
        (h, tt)

  -- Whatever the hardware answers, and however many interrupts arrive at each poll of the status, a
  -- read by the installed driver ends without a fault. After it no transfer is under way, the driver is
  -- still installed, the two messages have buffers of their lengths, and all of them but the bytes
  -- of the second is as it was.
  pub read-Ends :
      (arrive arrive' : ℕ → ℕ → ℕ) (chip reg count : ℕ) (buf : List ℕ) (p : Pdata) (d : Dev) (s : S)
      → d.pdata ≡ some p
      → d.msg ≡ none
      → length buf ≡ count
      → Tried
          (i2c_read_messages chip reg count buf)
          (some p)
          (msm_i2c_read w arrive arrive' chip reg count buf d s)
  unfolding msm_i2c_read
  read-Ends arrive arrive' chip reg count buf p d s q e h =
      installed-Tried d.pdata arrive arrive' p (i2c_read_messages chip reg count buf) d s q q e (cc)
        (refl, (h, tt))
