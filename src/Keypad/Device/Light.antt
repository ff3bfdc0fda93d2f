-- ===== src/Keypad/Device/Light.antt =====
-- The LED of the keypad and the timer that turns it off.
pub mod Runs
use mathlib.Core.Bool.{false≢true}
use mathlib.Core.Option.{some-injective}
use msm8909pkg.Base.{
  ◌⊎◌, ==_iff, ==_self, ℕ, ◌≡◌, ◌≢◌, refl, ◌∙◌, sym, Bool, true, false, not, ◌&&◌, ◌||◌, ap, arith,
  Option, none, some, List, [], ◌∷◌, ◌==◌, ◌*◌, Every, Bool-cases, inl, inr, if_both, if◌then◌else◌,
}
use msm8909pkg.Keypad.Data.{KeyData}
use msm8909pkg.Keypad.Device.Led.{
  View, Seen, Same, Laws, IsTimed, IsDue, IsSole, Same-trans, Same-IsDue, Same-IsSole, and_both,
  or_either, or_true,
}
use msm8909pkg.Keypad.Device.Wiring.{
  KeyDeviceType, KeyContextPrivate, DeviceType, construct, static_keys, switch_device, common_keys,
  write_key, key_code_to_key_context, initialize_key_context_private, leo, schubert, bravo, passion,
  legacy, keymatrix, unknown, tlmm, pm8x41, pm8x41_pon,
}
use msm8909pkg.Keypad.Device.Poll.{
  is_pressed, Board, Shared, Device, gpio_kp_led, led_on, led_off, disable_key_pad_led,
  enable_keypad_led_with_timer, cancel_running, read_status, update_key, poll_key, poll_keys,
  get_keys,
}

module _ {S : Type 0} (v : View S) where
  -- A key does not drive the pin of the LED.
  abbrev pub LeavesLed : KeyContextPrivate → Type 0
  LeavesLed k = k.gpio_out ≢ gpio_kp_led

  pub construct-LeavesLed : (d : DeviceType) → Every LeavesLed (construct d static_keys)
  unfolding construct switch_device common_keys write_key key_code_to_key_context
      initialize_key_context_private
  construct-LeavesLed d = elim d [
    | leo ↦ ground arith
    | schubert ↦ ground arith
    | bravo ↦ ground arith
    | passion ↦ ground arith
  ]

  module _ (b : Board S) (laws : Laws v b) where
    led_on-lem : (s : S) → Seen v (led_on b s) (v.armed s) (v.queued s) true
    unfolding led_on
    led_on-lem s = elim (Bool-cases (b.led_method == 2)) [
      | inl e ↦ rw e (laws.brightness 255 s e)
      | inr e ↦ rw e (laws.set_led 1 s e)
    ]

    pub led_off-lem : (s : S) → Seen v (led_off b s) (v.armed s) (v.queued s) false
    unfolding led_off
    led_off-lem s = elim (Bool-cases (b.led_method == 2)) [
      | inl e ↦ rw e (laws.brightness 0 s e)
      | inr e ↦ rw e (laws.set_led 0 s e)
    ]

    -- After the running timer is cancelled no timer is armed.
    idle-lem :
        (running : Bool) (timer : Option ℕ) (s : S)
        → IsDue v running timer s
        → IsSole v false running timer s
        → (i : ℕ) → ¬ (v.armed (if running then cancel_running b timer s else s) i ≡ true)
    idle-lem false timer s d h i on = false≢true (h i on).0
    idle-lem true none s d h i on = d
    idle-lem true (some t) s d h i on =
        let both : (v.armed s i && not (i == t)) ≡ true = sym ((laws.cancel t s).0 i) ∙ on in
        let (was, other) = and_both (v.armed s i) (i == t) both in
        let same : some t ≡ some i = (h i was).1 in
        false≢true (sym other ∙ (==_iff i t).1 (sym (some-injective t i same)))

    started-IsSole :
        (late running : Bool) (timer : Option ℕ) (s : S) (e : ℕ) (s' : S)
        → IsDue v running timer s
        → IsSole v late running timer s
        → ((i : ℕ)
            → v.armed s' i
              ≡ (v.armed (if running then cancel_running b timer s else s) i || (i == e)))
        → IsSole v late true (some e) s'
    started-IsSole true running timer s e s' d h f = tt
    started-IsSole false running timer s e s' d h f = λ i on.
        let was = v.armed (if running then cancel_running b timer s else s) i in
        elim (or_either was (i == e) (sym (f i) ∙ on)) [
          | inl x ↦ absurd (idle-lem running timer s d h i x)
          | inr y ↦ (refl, ap some (sym ((==_iff i e).0 y)))
        ]

    module _ (late : Bool) where
      -- A press of a key that lights the LED.
      enable-IsTimed :
          (g : Shared S) → IsTimed v late g → IsTimed v late (enable_keypad_led_with_timer b g)
      unfolding enable_keypad_led_with_timer
      enable-IsTimed g (led, due, sole) =
          let s = if g.timer_running then cancel_running b g.callback_timer g.world else g.world in
          let (on, _, lit) = led_on-lem s in
          let (kept, _, lit') = laws.create_keeps (led_on b s) in
          let (e, s') = b.create_event (led_on b s) in
          let (started, _, lit'') = laws.start e (5000 * 10000) s' in
          let own : (v.armed (b.start_timer e (5000 * 10000) s') e) ≡ true =
            started e ∙ rw (==_self e) (or_true (v.armed s' e)) in
          (
            lit'' ∙ lit' ∙ lit,
            rw own refl,
            started-IsSole late g.timer_running g.callback_timer g.world e _ due sole
                (λ i. started i ∙ ap (λ x. x || (i == e)) (kept i ∙ on i)),
          )

      -- The state of the machine after the status is read.
      abbrev Read : S → Option (ℕ × S) → Type 0
      Read s none = Unit
      Read s (some (status, s')) = Same v s s'

      read_status-Same :
          (t : KeyDeviceType) (k : KeyContextPrivate) (s : S)
          → LeavesLed k
          → Read s (read_status b t k s)
      unfolding read_status
      read_status-Same legacy k s free = laws.get_keeps k.gpio s
      read_status-Same keymatrix k s free =
          let low = b.set_gpio k.gpio_out 0 s in
          Same-trans v (laws.set_keeps k.gpio_out 0 s free) (
            Same-trans v (laws.get_keeps k.gpio_in low)
              (laws.set_keeps k.gpio_out 1 (b.get k.gpio_in low).1 free))
      read_status-Same unknown k s free = tt
      read_status-Same tlmm k s free = tt
      read_status-Same pm8x41 k s free = tt
      read_status-Same pm8x41_pon k s free = tt

      pub moved-IsTimed :
          (g : Shared S) (s : S)
          → IsTimed v late g
          → Same v g.world s
          → IsTimed v late (record g { world = s })
      moved-IsTimed g s (led, due, sole) same = (
        same.2 ∙ led,
        Same-IsDue v g.timer_running g.callback_timer g.world s same due,
        Same-IsSole v late g.timer_running g.callback_timer g.world s same sole,
      )

      update_key-IsTimed :
          (k : KeyContextPrivate) (delta : ℕ) (g : Shared S) (read : Option (ℕ × S))
          → IsTimed v late g
          → Read g.world read
          → IsTimed v late (update_key b k delta g read).1
      unfolding update_key
      update_key-IsTimed k delta g none t keeps = t
      update_key-IsTimed k delta g (some (status, s)) t keeps =
          let t' = moved-IsTimed g s t keeps in
          if_both (IsTimed v late) (is_pressed status k.active_low && k.enable_key_pad_led)
            (enable-IsTimed (record g { world = s }) t') t'

      poll_key-IsTimed :
          (k : KeyContextPrivate) (delta : ℕ) (g : Shared S)
          → LeavesLed k
          → IsTimed v late g
          → IsTimed v late (poll_key b k delta g).1
      unfolding poll_key
      poll_key-IsTimed k delta g free t =
          if_both {A = KeyContextPrivate × Shared S × List KeyData} (λ r. IsTimed v late r.1)
            (not k.is_valid) t
            (update_key-IsTimed k delta g _ t (read_status-Same k.device_type k g.world free))

      update_key-LeavesLed :
          (k : KeyContextPrivate) (delta : ℕ) (g : Shared S) (read : Option (ℕ × S))
          → (update_key b k delta g read).0.gpio_out ≡ k.gpio_out
      unfolding update_key
      update_key-LeavesLed k delta g none = refl
      update_key-LeavesLed k delta g (some (status, s)) = refl

      poll_key-LeavesLed :
          (k : KeyContextPrivate) (delta : ℕ) (g : Shared S)
          → LeavesLed k
          → LeavesLed (poll_key b k delta g).0
      unfolding poll_key
      poll_key-LeavesLed k delta g free =
          if_both {A = KeyContextPrivate × Shared S × List KeyData} (λ r. LeavesLed r.0)
            (not k.is_valid) free (rw (update_key-LeavesLed k delta g _) free)

      pub poll_keys-Holds :
          (ks : List KeyContextPrivate) (delta : ℕ) (g : Shared S)
          → Every LeavesLed ks
          → IsTimed v late g
          → let (ks', g', out) = poll_keys b ks delta g in Every LeavesLed ks' × IsTimed v late g'
      unfolding poll_keys
      poll_keys-Holds [] delta g free t = (tt, t)
      poll_keys-Holds (k ∷ ks) delta g (f, free) t =
          let g' = (poll_key b k delta g).1 in
          let (free', t') = poll_keys-Holds ks delta g' free (poll_key-IsTimed k delta g f t) in
          ((poll_key-LeavesLed k delta g f, free'), t')
