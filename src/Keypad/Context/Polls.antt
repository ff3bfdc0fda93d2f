-- ===== src/Keypad/Context/Polls.antt =====
-- A key over many polls of `KeypadDeviceImplGetKeys`: what one call of `LibKeyUpdateKeyStatus` does
-- in each situation that the longer runs go through.
use msm8909pkg.Base.{
  ℕ, ◌+◌, ◌%◌, ◌^◌, ◌≤◌, ◌<◌, ◌≡◌, ◌≢◌, ap, Bool, true, false, List, [], ◌∷◌, ◌++◌, arith,
}
use msm8909pkg.Keypad.Data.{KeyData}
use msm8909pkg.Keypad.Bitmap.{Bitmaps, key_set_state, key_get_state}
use msm8909pkg.Keypad.Context.{
  KeyContext, released, pressed, longpress_release, ms2ns, rest, char_carriage_return,
  update_key_status,
}

-- One poll: whether the key is down, and the time since the last poll.
abbrev pub Poll : Type 0
Poll = Bool × ℕ

-- The polls in turn, with all that they push.
unfoldable pub polls : Bitmaps → KeyContext → List Poll → Bitmaps × KeyContext × List KeyData
polls b c [] = (b, c, [])
polls b c ((is_pressed, delta) ∷ ps) =
    let (b', c', out) = update_key_status b c is_pressed delta in
    let (b'', c'', out') = polls b' c' ps in (b'', c'', out ++ out')

-- The key stays down for polls at these distances.
abbrev pub hold : List ℕ → List Poll
hold [] = []
hold (d ∷ ds) = (true, d) ∷ hold ds

abbrev pub total : List ℕ → ℕ
total [] = 0
total (d ∷ ds) = d + total ds

abbrev pub IsFresh : KeyContext → Type 0
IsFresh c = (c.state ≡ released) × (c.repeat ≡ false) × (c.longpress ≡ false)

abbrev pub tracked : Bitmaps → KeyContext → Bool → Bitmaps
tracked b c is_pressed = key_set_state b c.key_data.scan_code c.key_data.unicode_char is_pressed

module _ (b : Bitmaps) (c : KeyContext) (d : ℕ) where
  pub update_press :
      c.state ≡ released
      → update_key_status b c true d
        ≡ (tracked b c true, record c { time = 0; state = pressed }, [])
  unfolding update_key_status
  update_press e = rw e

  pub update_wait :
      c.state ≡ pressed
      → c.repeat ≡ false
      → c.longpress ≡ false
      → c.time + d < ms2ns 500
      → update_key_status b c true d ≡ (tracked b c true, record c { time = c.time + d }, [])
  unfolding update_key_status
  update_wait e r l h = ground arith

  pub update_let_go :
      c.state ≡ pressed
      → c.longpress ≡ false
      → update_key_status b c false d ≡ (
        tracked b c false,
        record c { time = (c.time + d) % 2 ^ 64; state = longpress_release },
        c.key_data ∷ [],
      )
  unfolding update_key_status
  update_let_go e l = ground arith

  pub update_rest :
      (is_pressed : Bool)
      → c.state ≡ longpress_release
      → update_key_status b c is_pressed d ≡ (tracked b c is_pressed, rest c, [])
  unfolding update_key_status
  update_rest true e = rw e
  update_rest false e = rw e

-- The first poll, then the others.
pub polls-cons :
    (b : Bitmaps) (c : KeyContext) (p : Bool) (d : ℕ) (ps : List Poll) {b' : Bitmaps}
    {c' : KeyContext} {out : List KeyData}
    → update_key_status b c p d ≡ (b', c', out)
    → ((polls b c ((p, d) ∷ ps)).1 ≡ (polls b' c' ps).1)
      × ((polls b c ((p, d) ∷ ps)).2 ≡ out ++ (polls b' c' ps).2)
unfolding polls
polls-cons b c p d ps e =
    (ap (λ r. (polls r.0 r.1 ps).1) e, ap (λ r. r.2 ++ (polls r.0 r.1 ps).2) e)

-- A long press that has been reported and does not repeat.
abbrev pub IsSilent : KeyContext → Type 0
IsSilent c = (c.state ≡ pressed) × (c.repeat ≡ false) × (c.longpress ≡ true)

module _ (b : Bitmaps) (c : KeyContext) (d : ℕ) where
  pub update_silent :
      IsSilent c
      → update_key_status b c true d
        ≡ (tracked b c true, record c { time = (c.time + d) % 2 ^ 64 }, [])
  unfolding update_key_status
  update_silent h = ground arith

  pub update_let_go_long :
      c.state ≡ pressed → c.longpress ≡ true → (update_key_status b c false d).2 ≡ []
  unfolding update_key_status
  update_let_go_long s l = ground arith

  -- A character key that is no carriage return: the report of the long press is left out.
  pub update_dead :
      c.state ≡ pressed
      → c.repeat ≡ false
      → c.longpress ≡ false
      → c.key_data.unicode_char ≢ char_carriage_return
      → key_get_state (tracked b c true) 0 char_carriage_return ≡ true
      → c.time + d < 2 ^ 64
      → ms2ns 500 ≤ c.time + d
      → update_key_status b c true d
        ≡ (tracked b c true, record c { time = c.time + d; longpress = true }, [])
  unfolding update_key_status
  update_dead s r l ne k h g = ground arith
