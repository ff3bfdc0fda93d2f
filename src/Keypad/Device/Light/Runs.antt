-- ===== src/Keypad/Device/Light/Runs.antt =====
-- Runs of the keypad device: its polls, and the expiry of the timer that it arms.
use mathlib.Core.Bool.{false≢true}
use mathlib.Core.Option.{some-injective, some-ne-none}
use msm8909pkg.Base.{
  ◌||◌, ap, ℕ, ◌≡◌, refl, ◌∙◌, Bool, true, false, not, ◌&&◌, Option, none, some, ◌==◌, sym, Every,
}
use msm8909pkg.Keypad.Bitmap.{no_keys}
use msm8909pkg.Keypad.Device.Wiring.{DeviceType, construct, static_keys}
use msm8909pkg.Keypad.Device.Poll.{Board, Device, disable_key_pad_led, get_keys}
use msm8909pkg.Keypad.Device.Led.{View, Seen, Same, Laws, IsTimed, IsDue, IsSole, and_both, or_true}
use msm8909pkg.Keypad.Device.Light.{
  LeavesLed, led_off-lem, moved-IsTimed, poll_keys-Holds, construct-LeavesLed,
}

still_due : (x y z : Bool) → (x || y) ≡ true → ((x && not z) || (y || z)) ≡ true
still_due true y true h = or_true y
still_due true y false h = refl
still_due false true z h = refl
still_due false false z h = absurd (false≢true h)

or_false : (x : Bool) → (x || false) ≡ x
or_false true = refl
or_false false = refl

or_assoc : (x y z : Bool) → ((x || y) || z) ≡ (x || (y || z))
or_assoc true y z = refl
or_assoc false y z = refl

none-some : {t : ℕ} → ¬ (none ≡ some t)
none-some {t} e = some-ne-none t (sym e)

-- The device after its constructor.
abbrev pub start : {S : Type 0} → DeviceType → S → Device S
start t w = record {
  keys = construct t static_keys;
  shared = record { bitmaps = no_keys; timer_running = false; callback_timer = none; world = w };
}

module _ {S : Type 0} (v : View S) (b : Board S) where
  -- Whether the callback timer is armed.
  abbrev pub is_armed : Option ℕ → S → Bool
  is_armed none s = false
  is_armed (some t) s = v.armed s t

  -- A poll, once the machine has changed in what is not the LED or a timer; the expiry of an armed
  -- timer, which queues the call of `DisableKeyPadLed`; and that call, at a later time. The call is
  -- late where a poll has armed the callback timer again since.
  pub data Step : Bool → Device S → Device S → Type 0 where
    poll :
        (d : Device S) (w : S) (delta : ℕ)
        → Same v d.shared.world w
        → Step false d (get_keys b (record d { shared = record d.shared { world = w } }) delta).0
    expire :
        (d : Device S) (w : S) (e : ℕ)
        → v.armed d.shared.world e ≡ true
        → Seen v w
            (λ i. v.armed d.shared.world i && not (i == e))
            (λ i. v.queued d.shared.world i || (i == e))
            (v.lit d.shared.world)
        → Step false d (record d { shared = record d.shared { world = w } })
    notify :
        (d : Device S) (w : S) (e : ℕ)
        → v.queued d.shared.world e ≡ true
        → Seen v w
            (v.armed d.shared.world)
            (λ i. v.queued d.shared.world i && not (i == e))
            (v.lit d.shared.world)
        → Step
            (is_armed d.shared.callback_timer d.shared.world)
            d
            (record d { shared = disable_key_pad_led b (record d.shared { world = w }) })

  -- A run, and whether a call in it was late.
  pub data Steps : Bool → Device S → Device S → Type 0 where
    stay : (d : Device S) → Steps false d d
    step : (x y : Bool) (d d' d'' : Device S) → Step x d d' → Steps y d' d'' → Steps (x || y) d d''

  -- A timer that expires stays due; the others stay as they are.
  expired-IsDue :
      (running : Bool) (timer : Option ℕ) (s w : S) (e : ℕ) (led : Bool)
      → Seen v w (λ i. v.armed s i && not (i == e)) (λ i. v.queued s i || (i == e)) led
      → IsDue v running timer s
      → IsDue v running timer w
  expired-IsDue false timer s w e led seen d = tt
  expired-IsDue true none s w e led seen d = d
  expired-IsDue true (some t) s w e led (f, q, l) d =
      rw (f t, q t) (still_due (v.armed s t) (v.queued s t) (t == e) d)

  expired-IsSole :
      (late running : Bool) (timer : Option ℕ) (s w : S) (e : ℕ)
      → ((i : ℕ) → v.armed w i ≡ (v.armed s i && not (i == e)))
      → IsSole v late running timer s
      → IsSole v late running timer w
  expired-IsSole true running timer s w e f h = tt
  expired-IsSole false running timer s w e f h =
      λ i on. h i (and_both (v.armed s i) (i == e) (sym (f i) ∙ on)).0

  -- After the call: it was late, or no timer is armed.
  notified-IsSole :
      (late running : Bool) (timer : Option ℕ) (s w : S)
      → ((i : ℕ) → v.armed w i ≡ v.armed s i)
      → IsSole v late running timer s
      → IsSole v (late || is_armed timer s) false timer w
  notified-IsSole true running timer s w f h = tt
  notified-IsSole false running none s w f h = λ i on. absurd (none-some (h i (sym (f i) ∙ on)).1)
  notified-IsSole false running (some t) s w f h = when (v.armed s t) λ idle i on.
      let was = sym (f i) ∙ on in
      let same : some t ≡ some i = (h i was).1 in
      absurd (false≢true (sym idle ∙ ap (v.armed s) (some-injective t i same) ∙ was))
    where
      when :
          (x : Bool) → (x ≡ false → IsSole v false false (some t) w) → IsSole v x false (some t) w
      when true k = tt
      when false k = k refl

  module _ (laws : Laws v b) where
    action-IsTimed :
        (late x : Bool) (d d' : Device S)
        → Step x d d'
        → Every (LeavesLed v) d.keys
        → IsTimed v late d.shared
        → Every (LeavesLed v) d'.keys × IsTimed v (late || x) d'.shared
    unfolding get_keys disable_key_pad_led
    action-IsTimed late x d d' (poll _ w delta same) free t = rw (or_false late) (
        poll_keys-Holds v b laws late d.keys delta (record d.shared { world = w }) free
          (moved-IsTimed v b laws late d.shared w t same))
    action-IsTimed late x d d' (expire _ w e on seen) free (led, due, sole) =
        let g = d.shared in
        (
          free,
          (
            seen.2 ∙ led,
            expired-IsDue g.timer_running g.callback_timer g.world w e _ seen due,
            rw (or_false late)
                (expired-IsSole late g.timer_running g.callback_timer g.world w e seen.0 sole),
          ),
        )
    action-IsTimed late x d d' (notify _ w e on seen) free (led, due, sole) =
        let g = d.shared in
        let (off, _, dark) = led_off-lem v b laws w in
        (
          free,
          (
            dark,
            tt,
            notified-IsSole late g.timer_running g.callback_timer g.world _ (λ i. off i ∙ seen.0 i)
                sole,
          ),
        )

    run-IsTimed :
        (late y : Bool) (d d' : Device S)
        → Steps y d d'
        → Every (LeavesLed v) d.keys
        → IsTimed v late d.shared
        → IsTimed v (late || y) d'.shared
    run-IsTimed late y d _ (stay _) free t = rw (or_false late) t
    run-IsTimed late y d d'' (step x z _ d' _ s run) free t =
        let (free', t') = action-IsTimed late x d d' s free t in
        rw (← or_assoc late x z) (run-IsTimed (late || x) z d' d'' run free' t')

    -- From the constructor on, with no timer armed, no call queued and the LED off, through any run of
    -- polls, of expiries between them, which queue the call of `DisableKeyPadLed`, and of these calls:
    -- the LED is lit exactly while `timerRunning`, and then the callback timer is armed or has expired
    -- with its call queued. As long as no call was late, after a poll that armed the callback timer
    -- again, no other timer is armed, and that one only while `timerRunning`.
    pub start-IsTimed :
        (t : DeviceType) (w : S) (late : Bool) (d : Device S)
        → Seen v w (λ e. false) (λ e. false) false
        → Steps late (start t w) d
        → IsTimed v late d.shared
    start-IsTimed t w late d (idle, calm, off) run =
        run-IsTimed false late (start t w) d run (construct-LeavesLed v t)
          (off, tt, λ i on. absurd (false≢true (sym (idle i) ∙ on)))
