-- ===== src/Keypad/Device/Led.antt =====
-- The LED of the keypad as it can be seen, and what ties it to the timer that turns it off.
use mathlib.Core.Bool.{false≢true}
use msm8909pkg.Base.{
  ◌⊎◌, ℕ, ◌≡◌, ◌≢◌, refl, ◌∙◌, sym, Bool, true, false, not, ◌&&◌, ◌||◌, Option, none, some, ◌==◌,
  inl, inr,
}
use msm8909pkg.Keypad.Device.Poll.{Board, Shared, gpio_kp_led}

pub and_both : (x y : Bool) → (x && not y) ≡ true → (x ≡ true) × (y ≡ false)
and_both true false h = (refl, refl)
and_both true true h = absurd (false≢true h)
and_both false y h = absurd (false≢true h)

pub or_either : (x y : Bool) → (x || y) ≡ true → (x ≡ true) ⊎ (y ≡ true)
or_either true y h = inl refl
or_either false y h = inr h

pub or_true : (x : Bool) → (x || true) ≡ true
or_true true = refl
or_true false = refl

-- What can be seen of the machine: which timers are armed, which timers have expired with the call of
-- their function still queued, and whether the LED is lit.
pub record View (S : Type 0) : Type 0 where
  pub armed : S → ℕ → Bool
  pub queued : S → ℕ → Bool
  pub lit : S → Bool

module _ {S : Type 0} (v : View S) where
  -- The armed timers of the state, its queued calls, and its LED.
  abbrev pub Seen : S → (ℕ → Bool) → (ℕ → Bool) → Bool → Type 0
  Seen s timers calls led =
      ((e : ℕ) → v.armed s e ≡ timers e) × ((e : ℕ) → v.queued s e ≡ calls e) × (v.lit s ≡ led)

  abbrev pub Same : S → S → Type 0
  Same s s' = Seen s' (v.armed s) (v.queued s) (v.lit s)

  -- What the device relies on: pins other than the LED's and timers leave the LED alone, a new event
  -- arms nothing, and `SetTimer` arms and cancels the timer that it is given. A call that is queued
  -- stays queued.
  pub record Laws (b : Board S) : Type 0 where
    pub get_keeps : (pin : ℕ) (s : S) → Same s (b.get pin s).1
    pub set_keeps : (pin value : ℕ) (s : S) → pin ≢ gpio_kp_led → Same s (b.set_gpio pin value s)
    pub set_led :
        (value : ℕ) (s : S)
        → (b.led_method == 2) ≡ false
        → Seen (b.set_gpio gpio_kp_led value s) (v.armed s) (v.queued s) (not (value == 0))
    pub brightness :
        (value : ℕ) (s : S)
        → (b.led_method == 2) ≡ true
        → Seen (b.kp_led_set_brightness value s) (v.armed s) (v.queued s) (not (value == 0))
    pub create_keeps : (s : S) → Same s (b.create_event s).1
    pub cancel :
        (e : ℕ) (s : S)
        → Seen (b.cancel_timer e s) (λ i. v.armed s i && not (i == e)) (v.queued s) (v.lit s)
    pub start :
        (e t : ℕ) (s : S)
        → Seen (b.start_timer e t s) (λ i. v.armed s i || (i == e)) (v.queued s) (v.lit s)

  -- While `timerRunning` the callback timer is armed, or has expired with its call queued.
  abbrev pub IsDue : Bool → Option ℕ → S → Type 0
  IsDue false timer s = Unit
  IsDue true none s = ⊥
  IsDue true (some t) s = (v.armed s t || v.queued s t) ≡ true

  -- Unless `late`, no timer is armed but the callback timer, and that one only while `timerRunning`.
  abbrev pub IsSole : Bool → Bool → Option ℕ → S → Type 0
  IsSole true running timer s = Unit
  IsSole false running timer s = (i : ℕ) → v.armed s i ≡ true → (running ≡ true) × (timer ≡ some i)

  -- The LED is lit exactly while `timerRunning`, and then it is going to be turned off.
  abbrev pub IsTimed : Bool → Shared S → Type 0
  IsTimed late g =
      (v.lit g.world ≡ g.timer_running)
      × IsDue g.timer_running g.callback_timer g.world
      × IsSole late g.timer_running g.callback_timer g.world

  pub Same-trans : {s s' s'' : S} → Same s s' → Same s' s'' → Same s s''
  Same-trans (f, q, l) (f', q', l') = ((λ e. f' e ∙ f e), (λ e. q' e ∙ q e), l' ∙ l)

  pub Same-IsDue :
      (running : Bool) (timer : Option ℕ) (s s' : S)
      → Same s s'
      → IsDue running timer s
      → IsDue running timer s'
  Same-IsDue false timer s s' same d = tt
  Same-IsDue true none s s' same d = d
  Same-IsDue true (some t) s s' (f, q, l) d = rw (f t, q t) d

  pub Same-IsSole :
      (late running : Bool) (timer : Option ℕ) (s s' : S)
      → Same s s'
      → IsSole late running timer s
      → IsSole late running timer s'
  Same-IsSole true running timer s s' same h = tt
  Same-IsSole false running timer s s' (f, q, l) h = λ i on. h i (sym (f i) ∙ on)
