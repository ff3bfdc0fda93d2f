-- ===== src/Keypad/Context/Press.antt =====
-- Whole presses of a key: a tap and a rate limit of the repetition.
use msm8909pkg.Base.{ℕ, ◌+◌, ◌<◌, ◌≡◌, refl, ap, ◌∙◌, Bool, true, false, List, [], ◌∷◌, ◌++◌, arith}
use msm8909pkg.Keypad.Data.{KeyData}
use msm8909pkg.Keypad.Bitmap.{Bitmaps}
use msm8909pkg.Keypad.Context.{KeyContext, pressed, ms2ns, rest, update_key_status}
use msm8909pkg.Keypad.Context.Polls.{
  Poll, hold, total, IsFresh, tracked, update_press, update_wait, update_let_go, update_rest,
}

-- The polls in turn: what they leave of the key, and what each of them pushes.
unfoldable pub each_poll : Bitmaps → KeyContext → List Poll → KeyContext × List (List KeyData)
each_poll b c [] = (c, [])
each_poll b c ((is_pressed, delta) ∷ ps) =
    let (b', c', out) = update_key_status b c is_pressed delta in
    let (c'', outs) = each_poll b' c' ps in (c'', out ∷ outs)

abbrev pub Ends : Bitmaps → KeyContext → List Poll → KeyContext → List (List KeyData) → Type 0
Ends b c ps c' outs = ((each_poll b c ps).0 ≡ c') × ((each_poll b c ps).1 ≡ outs)

-- Polls that push nothing.
abbrev pub quiet : List ℕ → List (List KeyData)
quiet [] = []
quiet (d ∷ ds) = [] ∷ quiet ds

Ends-nil : (b : Bitmaps) (c : KeyContext) → Ends b c [] c []
unfolding each_poll
Ends-nil b c = (refl, refl)

Ends-cons :
    (b : Bitmaps) (c : KeyContext) (p : Bool) (d : ℕ) (ps : List Poll) {b' : Bitmaps}
    {c' c'' : KeyContext} {out : List KeyData} {outs : List (List KeyData)}
    → update_key_status b c p d ≡ (b', c', out)
    → Ends b' c' ps c'' outs
    → Ends b c ((p, d) ∷ ps) c'' (out ∷ outs)
unfolding each_poll
Ends-cons b c p d ps {out = out} e (h, k) = (
  ap (λ r. (each_poll r.0 r.1 ps).0) e ∙ h,
  ap (λ r. r.2 ∷ (each_poll r.0 r.1 ps).1) e ∙ ap (λ l. out ∷ l) k,
)

-- The end of a tap: the key is let go, and there is one more poll.
tap_end :
    (b : Bitmaps) (c : KeyContext) (u e : ℕ) (again : Bool)
    → c.state ≡ pressed
    → c.longpress ≡ false
    → Ends b c ((false, u) ∷ (again, e) ∷ []) (rest c) ((c.key_data ∷ []) ∷ [] ∷ [])
tap_end b c u e again s l =
    Ends-cons b c false u ((again, e) ∷ []) (update_let_go b c u s l)
      (Ends-cons _ _ again e [] (update_rest _ _ e again refl) (Ends-nil _ _))

-- What follows the press of a tap: the key stays down, is let go, and there is one more poll.
tap_tail :
    (b : Bitmaps) (c : KeyContext) (ds : List ℕ) (u e : ℕ) (again : Bool)
    → c.state ≡ pressed
    → c.repeat ≡ false
    → c.longpress ≡ false
    → c.time + total ds < ms2ns 500
    → Ends b c
        (hold ds ++ ((false, u) ∷ (again, e) ∷ []))
        (rest c)
        (quiet ds ++ ((c.key_data ∷ []) ∷ [] ∷ []))
tap_tail b c [] u e again s r l h = tap_end b c u e again s l
tap_tail b c (d ∷ ds) u e again s r l h =
    Ends-cons b c true d _ (update_wait b c d s r l (omega arith)) (
      tap_tail (tracked b c true) (record c { time = c.time + d }) ds u e again s r l (omega arith))

-- A key at rest that is down for less than 500 ms, over any number of polls, and is then let go: the
-- polls that find it down push nothing, the poll that finds it up pushes it, and the next one
-- pushes nothing and leaves it at rest, whether or not it is down at that poll.
pub tap_lem :
    (b : Bitmaps) (c : KeyContext) (d : ℕ) (ds : List ℕ) (u e : ℕ) (again : Bool)
    → IsFresh c
    → total ds < ms2ns 500
    → Ends b c
        (((true, d) ∷ hold ds) ++ ((false, u) ∷ (again, e) ∷ []))
        (rest c)
        (quiet (d ∷ ds) ++ ((c.key_data ∷ []) ∷ [] ∷ []))
tap_lem b c d ds u e again (s, r, l) h = Ends-cons b c true d _ (update_press b c d s) (
    tap_tail (tracked b c true) (record c { time = 0; state = pressed }) ds u e again refl r l
      (omega arith))
