-- ===== src/Menu/HexInput/Enter.antt =====
-- Every number of eight digits can be entered.
use msm8909pkg.Base.{
  ℕ, zero, suc, ◌+◌, ◌%◌, ◌<◌, ◌≡◌, refl, ap, ◌∙◌, sym, Option, some, List, [], ◌∷◌, ◌++◌,
  replicate, set, get_or, if◌then◌else◌, ltb, arith, length, length-set, length-append,
  get_or-set_self, Every,
}
use mathlib.Core.Option
use mathlib.Core.List.{append_assoc}
use msm8909pkg.Menu.HexInput.{InputKey, scan_esc, char_carriage_return, char_tab, get_hex_input}
use msm8909pkg.Menu.HexInput.Spec
use msm8909pkg.Menu.HexInput.Spec.{Number, text}
use msm8909pkg.Menu.HexInput.Refine.{set-get_or, get_hex_input_refines}

-- The power key, the windows key and the dial.
abbrev pub power : InputKey
power = (scan_esc, 0)

abbrev pub windows : InputKey
windows = (0, char_tab)

abbrev pub dial : InputKey
dial = (0, char_carriage_return)

-- For each digit the windows key that many times, then the power key; the dial at the end.
abbrev pub presses_of : ℕ → List (Option InputKey) → List (Option InputKey)
presses_of zero rest = some power ∷ rest
presses_of (suc d) rest = some windows ∷ presses_of d rest

abbrev pub keys_of : List ℕ → List (Option InputKey)
keys_of [] = some dial ∷ []
keys_of (d ∷ ds) = presses_of d (keys_of ds)

set-set : (xs : List ℕ) (i v w : ℕ) → set (set xs i v) i w ≡ set xs i w
set-set [] i v w = refl
set-set (x ∷ xs) zero v w = refl
set-set (x ∷ xs) (suc i) v w = ap (λ l. x ∷ l) (set-set xs i v w)

-- The digit at the cursor counts up.
presses_lem :
    (d : ℕ) (key : InputKey) (rest : List (Option InputKey)) (digits : List ℕ) (cursor v : ℕ)
    → v ≡ get_or digits cursor 0 + d
    → v < 16
    → cursor < length digits
    → Spec.enter key (presses_of d rest) (digits, cursor)
      ≡ Spec.enter power rest (set digits cursor v, if ltb cursor 7 then cursor + 1 else cursor)
unfolding Spec.enter Spec.edit
presses_lem zero key rest digits cursor v sum small inside =
    let same : set digits cursor v ≡ digits =
      ap (set digits cursor) (omega (arith, sum)) ∙ set-get_or digits cursor in
    rw same refl
presses_lem (suc d) key rest digits cursor v sum small inside =
    let u = (get_or digits cursor 0 + 1) % 16 in
    presses_lem d windows rest (set digits cursor u) cursor v
      (rw (get_or-set_self digits cursor u 0 inside) (omega arith)) small
      (rw (length-set digits cursor u) inside)
    ∙ rw (set-set digits cursor u v) refl

-- The cursor is past the digits that are entered, while there are more.
abbrev At : ℕ → List ℕ → List ℕ → Type 0
At cursor done [] = Unit
At cursor done (d ∷ ds) = cursor ≡ length done

set-here :
    (done : List ℕ) (x v : ℕ) (ys : List ℕ)
    → set (done ++ (x ∷ ys)) (length done) v ≡ (done ++ (v ∷ [])) ++ ys
set-here [] x v ys = refl
set-here (d ∷ done) x v ys = ap (λ l. d ∷ l) (set-here done x v ys)

get_or-here : (done : List ℕ) (x : ℕ) (ys : List ℕ) → get_or (done ++ (x ∷ ys)) (length done) 0 ≡ x
get_or-here [] x ys = refl
get_or-here (d ∷ done) x ys = get_or-here done x ys

abbrev next : ℕ → ℕ
next cursor = if ltb cursor 7 then cursor + 1 else cursor

next_place :
    (ds done : List ℕ) (d : ℕ)
    → length done + suc (length ds) ≡ 8
    → At (next (length done)) (done ++ (d ∷ [])) ds
next_place [] done d size = tt
next_place (e ∷ ds) done d size = ground (arith, length-append done (d ∷ []))

enter-keys_of :
    (ds done : List ℕ) (key : InputKey) (cursor : ℕ)
    → Every (λ d. d < 16) ds
    → length done + length ds ≡ 8
    → At cursor done ds
    → Spec.enter key (keys_of ds) (done ++ replicate (length ds) 0, cursor) ≡ some (done ++ ds)
unfolding Spec.enter Spec.edit
enter-keys_of [] done key cursor small size at = refl
enter-keys_of (d ∷ ds) done key cursor (lt, small) size at =
    let zeros : List ℕ = replicate (length ds) 0 in
    let inside : cursor < length (done ++ (0 ∷ zeros)) =
      rw (at, length-append done (0 ∷ zeros)) (omega arith) in
    presses_lem d key (keys_of ds) (done ++ (0 ∷ zeros)) cursor d
      (rw (at, get_or-here done 0 zeros) (omega arith)) lt inside
    ∙ rw (at, set-here done 0 d zeros) refl
    ∙ enter-keys_of ds (done ++ (d ∷ [])) power (next (length done)) small
        (omega (arith, size, length-append done (d ∷ []))) (next_place ds done d size)
    ∙ ap some (append_assoc done (d ∷ []) ds)

first_place : (ds : List ℕ) → At 0 [] ds
first_place [] = tt
first_place (d ∷ ds) = refl

-- Every number of eight hexadecimal digits can be entered with three keys: for each digit the
-- windows key as many times as it says, then the power key, and at the end the dial.
pub get_hex_input-keys_of :
    (key : InputKey) (ds : List ℕ)
    → length ds ≡ 8
    → Every (λ d. d < 16) ds
    → get_hex_input key (keys_of ds) ≡ some (text ds)
get_hex_input-keys_of key ds size small =
    let sum : 0 + length ds ≡ 8 = omega (arith, size) in
    let zeros : replicate 8 0 ≡ replicate (length ds) 0 = ap (λ n. replicate n 0) (sym size) in
    get_hex_input_refines key (keys_of ds)
    ∙ ap (Option.map text) (
        ap (λ l. Spec.enter key (keys_of ds) (l, 0)) zeros
        ∙ enter-keys_of ds [] key 0 small sum (first_place ds))
