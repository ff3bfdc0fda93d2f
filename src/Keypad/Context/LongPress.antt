-- ===== src/Keypad/Context/LongPress.antt =====
-- Keys that stay down: the rate of the repetition, and the long press of a character key.
use msm8909pkg.Base.{
  ℕ, ◌+◌, ◌*◌, ◌%◌, ◌^◌, ◌≤◌, ◌<◌, ◌≡◌, ◌≢◌, refl, ap₂, ◌∙◌, ◌⊎◌, inl, inr, Bool, true, false, List,
  [], ◌∷◌, ◌++◌, length, length-append, arith,
}
use native.Mathlib.Decide.{dec_le}
use msm8909pkg.Keypad.Data.{KeyData}
use msm8909pkg.Keypad.Bitmap.{
  Bitmaps, max_unicode_char, char_bits_shared, length-key_set_state, key_get_state,
}
use msm8909pkg.Keypad.Context.{
  KeyContext, pressed, ms2ns, held, update_key_status, char_carriage_return,
}
use msm8909pkg.Keypad.Context.Polls.{
  Poll, polls, hold, total, IsFresh, IsSilent, tracked, update_press, update_wait, update_silent,
  update_let_go_long, update_dead, polls-cons,
}

-- What a run pushes.
abbrev pub reports : Bitmaps → KeyContext → List Poll → List KeyData
reports b c ps = (polls b c ps).2

reports-cons :
    (b : Bitmaps) (c : KeyContext) (p : Bool) (d : ℕ) (ps : List Poll) {b' : Bitmaps}
    {c' : KeyContext} {out : List KeyData}
    → update_key_status b c p d ≡ (b', c', out)
    → reports b c ((p, d) ∷ ps) ≡ out ++ reports b' c' ps
reports-cons b c p d ps e = (polls-cons b c p d ps e).1

reports-nil : (b : Bitmaps) (c : KeyContext) → reports b c [] ≡ []
unfolding polls
reports-nil b c = refl

reports-silent :
    (b : Bitmaps) (c : KeyContext) (ds : List ℕ) → IsSilent c → reports b c (hold ds) ≡ []
reports-silent b c [] h = reports-nil b c
reports-silent b c (d ∷ ds) (s, r, l) =
    reports-cons b c true d (hold ds) (update_silent b c d (s, r, l))
    ∙ reports-silent (tracked b c true) (record c { time = (c.time + d) % 2 ^ 64 }) ds (s, r, l)

-- One poll of a key that stays down: either it waits or repeats, and the time pays for what it
-- pushes; or it pushes once after 500 ms, and falls silent.
abbrev Paid : KeyContext → ℕ → KeyContext → List KeyData → Type 0
Paid c d c' out = (c'.state ≡ pressed) × (length out * ms2ns 200 + c'.time ≤ c.time + d)

abbrev Silenced : KeyContext → ℕ → KeyContext → List KeyData → Type 0
Silenced c d c' out = IsSilent c' × (length out * ms2ns 200 ≤ c.time + d)

held_step :
    (b : Bitmaps) (c : KeyContext)
    → c.state ≡ pressed
    → (Paid c 0 (held b c).0 (held b c).1) ⊎ (Silenced c 0 (held b c).0 (held b c).1)
unfolding held
held_step b c s = ground arith

update-held :
    (b : Bitmaps) (c : KeyContext) (d : ℕ)
    → c.state ≡ pressed
    → c.time + d < 2 ^ 64
    → update_key_status b c true d ≡ (
      tracked b c true,
      (held (tracked b c true) (record c { time = c.time + d })).0,
      (held (tracked b c true) (record c { time = c.time + d })).1,
    )
unfolding update_key_status
update-held b c d s h = let e : (c.time + d) % 2 ^ 64 ≡ c.time + d = omega arith in rw (s, e)

-- A key that stays down pushes at most once in 200 ms: for a key in the pressed state, the pushes of
-- any run of polls with the key down, counted 200 ms each, fit into the time since the key's clock
-- was last reset. The clock must not wrap.
pub hold_rate :
    (b : Bitmaps) (c : KeyContext) (ds : List ℕ)
    → c.state ≡ pressed
    → c.time + total ds < 2 ^ 64
    → length (reports b c (hold ds)) * ms2ns 200 ≤ c.time + total ds
hold_rate b c [] s h = rw (reports-nil b c) (omega arith)
hold_rate b c (d ∷ ds) s h =
    let b' = tracked b c true in
    let c1 = record c { time = c.time + d } in
    let c' = (held b' c1).0 in
    let out = (held b' c1).1 in
    let e : reports b c (hold (d ∷ ds)) ≡ out ++ reports b' c' (hold ds) =
      reports-cons b c true d (hold ds) (update-held b c d s (omega arith)) in
    rw (e, length-append out (reports b' c' (hold ds)))
      (elim (held_step b' c1 s) [
        | inl (s', paid) ↦ omega (arith, paid, hold_rate b' c' ds s' (omega (arith, paid)))
        | inr (silent, paid) ↦ rw (reports-silent b' c' ds silent) (omega (arith, paid))
      ])

-- A key that reports a character and no scan code.
pub record IsCharKey (k : KeyData) : Type 0 where
  pub no_scan : k.scan_code ≡ 0
  pub is_char : 0 < k.unicode_char
  pub in_bitmap : k.unicode_char < max_unicode_char

let_go_silent :
    (b : Bitmaps) (c : KeyContext) (ds : List ℕ) (u : ℕ)
    → IsSilent c
    → reports b c (hold ds ++ ((false, u) ∷ [])) ≡ []
let_go_silent b c [] u (s, r, l) =
    reports-cons b c false u [] refl ∙ ap₂ ◌++◌ (update_let_go_long b c u s l) (reports-nil _ _)
let_go_silent b c (d ∷ ds) u (s, r, l) =
    reports-cons b c true d _ (update_silent b c d (s, r, l))
    ∙ let_go_silent (tracked b c true) (record c { time = (c.time + d) % 2 ^ 64 }) ds u (s, r, l)

-- The words of the character bitmap are there: there is at least one.
abbrev pub HasWords : Bitmaps → Type 0
HasWords b = 0 < length b.unicode_chars

HasWords-tracked : (b : Bitmaps) (c : KeyContext) (p : Bool) → HasWords b → HasWords (tracked b c p)
HasWords-tracked b c p h =
    omega (arith, length-key_set_state b c.key_data.scan_code c.key_data.unicode_char p)

tracked_return :
    (b : Bitmaps) (c : KeyContext)
    → IsCharKey c.key_data
    → HasWords b
    → key_get_state (tracked b c true) 0 char_carriage_return ≡ true
tracked_return b c ck w =
    rw ck.no_scan (char_bits_shared b c.key_data.unicode_char w ck.is_char ck.in_bitmap)

dead_hold :
    (b : Bitmaps) (c : KeyContext) (ds : List ℕ) (u : ℕ)
    → IsCharKey c.key_data
    → c.key_data.unicode_char ≢ char_carriage_return
    → HasWords b
    → c.state ≡ pressed
    → c.repeat ≡ false
    → c.longpress ≡ false
    → c.time + total ds < 2 ^ 64
    → ms2ns 500 ≤ c.time + total ds
    → c.time < ms2ns 500
    → reports b c (hold ds ++ ((false, u) ∷ [])) ≡ []
dead_hold b c [] u ck ne w s r l h g lt = absurd (omega arith)
dead_hold b c (d ∷ ds) u ck ne w s r l h g lt = elim (dec_le (ms2ns 500) (c.time + d)) [
  | yes late ↦
      reports-cons b c true d _
        (update_dead b c d s r l ne (tracked_return b c ck w) (omega arith) late)
      ∙ let_go_silent (tracked b c true) (record c { time = c.time + d; longpress = true }) ds u
          (s, r, refl)
  | no early ↦
      reports-cons b c true d _ (update_wait b c d s r l (omega arith))
      ∙ dead_hold (tracked b c true) (record c { time = c.time + d }) ds u ck ne
          (HasWords-tracked b c true w) s r l (omega arith) (omega arith) (omega arith)
]

-- A character key without a scan code that is no carriage return, and that stays down for 500 ms or
-- more before it is let go, is never pushed: not while it is down, and not when it comes up.
pub long_char_press_lost :
    (b : Bitmaps) (c : KeyContext) (d : ℕ) (ds : List ℕ) (u : ℕ)
    → IsCharKey c.key_data
    → c.key_data.unicode_char ≢ char_carriage_return
    → HasWords b
    → IsFresh c
    → ms2ns 500 ≤ total ds
    → total ds < 2 ^ 64
    → reports b c ((true, d) ∷ hold ds ++ ((false, u) ∷ [])) ≡ []
long_char_press_lost b c d ds u ck ne w (s, r, l) g h =
    reports-cons b c true d _ (update_press b c d s)
    ∙ dead_hold (tracked b c true) (record c { time = 0; state = pressed }) ds u ck ne
        (HasWords-tracked b c true w) refl r l (omega arith) (omega arith) (omega arith)
