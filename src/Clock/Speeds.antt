-- ===== src/Clock/Speeds.antt =====
-- The speeds of the clocks that the modem controls.
use msm8909pkg.Base.{
  ℕ, suc, ◌+◌, ◌<◌, ◌≡◌, ◌∙◌, sym, ap, refl, true, false, Option, none, some, List, [], ◌∷◌, length,
  if◌then◌else◌, ◌==◌, ltb, arith, if_both, Every, Bool-cases, ==_ne, inl, inr,
}
use mathlib.Core.Bool.{false≢true}
use msm8909pkg.Clock.Driver.{
  no_clock, fill_clocks_lookup, step_speed, limits, other_speed, ladder_speed, codec_limits,
  uart_limits, sdc_limits, choose_speed, Choice, speed_no, as_it_is, unknown,
}

-- How many limits lie below a rate.
abbrev pub limits_below : ℕ → List ℕ → ℕ
limits_below rate [] = 0
limits_below rate (t ∷ ts) = (if ltb t rate then 1 else 0) + limits_below rate ts

-- The limits fall.
abbrev Falls : List ℕ → Type 0
Falls [] = Unit
Falls (t ∷ ts) = Every (λ u. u < t) ts × Falls ts

all_below :
    (rate t : ℕ) (ts : List ℕ) → t < rate → Every (λ u. u < t) ts → limits_below rate ts ≡ length ts
all_below rate t [] h v = refl
all_below rate t (u ∷ us) h (lt, v) =
    let below : ltb u rate ≡ true = ground arith in
    rw (below, all_below rate t us h v) (omega arith)

-- A ladder of tests counts the limits that are below the rate.
step_speed-limits_below :
    (rate : ℕ) (ts : List ℕ) → Falls ts → step_speed ts rate ≡ suc (limits_below rate ts)
unfolding step_speed
step_speed-limits_below rate [] v = refl
step_speed-limits_below rate (t ∷ ts) (v, f) = elim (Bool-cases (ltb t rate)) [
  | inl e ↦ rw (e, all_below rate t ts (ground arith) v) (omega arith)
  | inr e ↦ rw (e, step_speed-limits_below rate ts f) (omega arith)
]

abbrev AllFall : Option (List ℕ) → Type 0
AllFall none = Unit
AllFall (some ts) = Falls ts

limits-Falls : (id : ℕ) → AllFall (limits id)
limits-Falls id =
    let codec : Falls codec_limits = omega arith in
    let uart : Falls uart_limits = omega arith in
    let sdc : Falls sdc_limits = omega arith in
    if_both AllFall (id == 10) codec (
      if_both AllFall (id == 11) codec (
        if_both AllFall (id == 87) (omega arith) (
          if_both AllFall (id == 34) uart (
            if_both AllFall (id == 35) uart (
              if_both AllFall (id == 5) (omega arith) (
                if_both AllFall (id == 45) (omega arith)
                  (if_both AllFall (id == 19) sdc (if_both AllFall (id == 21) sdc tt))))))))

-- The speeds of the clocks that have a speed for some rates only.
abbrev exact_speeds : ℕ → List (ℕ × ℕ)
exact_speeds id =
    if id == 40
    then (3000000, 1)
      ∷ (6000000, 6)
      ∷ (12000000, 14)
      ∷ (24000000, 22)
      ∷ (48000000, 32)
      ∷ (96000000, 37)
      ∷ []
    else if id == 41
    then (96000000, 5) ∷ (78000000, 4) ∷ (64000000, 3) ∷ (48000000, 2) ∷ (36000000, 1) ∷ []
    else []

abbrev speed_at : ℕ → List (ℕ × ℕ) → Option ℕ
speed_at rate [] = none
speed_at rate ((r, v) ∷ l) = if rate == r then some v else speed_at rate l

-- The speed that a rate stands for: on a clock with limits one more than those below the rate, on the
-- others the one that is listed, if any.
abbrev wanted_of : Option (List ℕ) → ℕ → ℕ → Option ℕ
wanted_of (some ts) id rate = some (suc (limits_below rate ts))
wanted_of none id rate = speed_at rate (exact_speeds id)

abbrev pub wanted : ℕ → ℕ → Option ℕ
wanted id rate = wanted_of (limits id) id rate

abbrev pub speed_of : Choice → Option ℕ
speed_of (speed_no v) = some v
speed_of as_it_is = none
speed_of unknown = none

other_speed-speed_at :
    (id rate : ℕ) → speed_of (other_speed id rate) ≡ speed_at rate (exact_speeds id)
other_speed-speed_at id rate = elim (Bool-cases (id == 40)) [
  | inl e ↦ rw e (ground arith)
  | inr e ↦ rw e (elim (Bool-cases (id == 41)) [
    | inl e' ↦ rw e' (ground arith)
    | inr e' ↦ rw e' (
        if_both (λ c. speed_of c ≡ none) (id == 20) refl
          (if_both (λ c. speed_of c ≡ none) (id == 22) refl refl))
  ])
]

ladder_speed-wanted_of :
    (o : Option (List ℕ)) (id rate : ℕ)
    → AllFall o
    → speed_of (ladder_speed o id rate) ≡ wanted_of o id rate
ladder_speed-wanted_of none id rate f = other_speed-speed_at id rate
ladder_speed-wanted_of (some ts) id rate f = ap some (step_speed-limits_below rate ts f)

pub choose_speed-wanted : (id rate : ℕ) → speed_of (choose_speed id rate) ≡ wanted id rate
unfolding choose_speed
choose_speed-wanted id rate = ladder_speed-wanted_of (limits id) id rate (limits-Falls id)

-- A clock that the modem does not know is none of those in the table.
unlisted :
    (id k : ℕ)
    → (fill_clocks_lookup id == no_clock) ≡ true
    → (fill_clocks_lookup k == no_clock) ≡ false
    → (id == k) ≡ false
unlisted id k e e' =
    ==_ne id k λ q. false≢true (sym e' ∙ ap (λ i. fill_clocks_lookup i == no_clock) (sym q) ∙ e)

-- A clock that the modem does not know has no speeds.
pub no_speed : (id rate : ℕ) → (fill_clocks_lookup id == no_clock) ≡ true → wanted id rate ≡ none
no_speed id rate e =
    rw
      (
        unlisted id 10 e refl,
        unlisted id 11 e refl,
        unlisted id 87 e refl,
        unlisted id 34 e refl,
        unlisted id 35 e refl,
        unlisted id 5 e refl,
        unlisted id 45 e refl,
        unlisted id 19 e refl,
        unlisted id 21 e refl,
        unlisted id 40 e refl,
        unlisted id 41 e refl,
      )
      refl
