-- ===== src/Menu/Pages/Waits.antt =====
-- The wait before the menu, with the keys of the keypad device.
use msm8909pkg.Base.{
  ℕ, zero, suc, ◌+◌, ◌≡◌, refl, ap, ◌∙◌, Option, none, some, List, [], ◌∷◌, map, get_or,
  if◌then◌else◌, ◌==◌, arith,
}
use mathlib.Core.Option
use msm8909pkg.Keypad.Context.{initialize_key_context}
use msm8909pkg.Keypad.Device.Wiring.{reset_keys, static_keys}
use msm8909pkg.Menu.Pages.{InputKey, Start, menu, boot_esp, wait_key, wait_loop}

-- What the seven keys report after a reset, in the order of `KeyList`.
abbrev pub key_of : ℕ → InputKey
key_of i =
    get_or
      (map (λ k. (k.efi_key_context.key_data.scan_code, k.efi_key_context.key_data.unicode_char))
        (reset_keys static_keys))
      i (0, 0)

-- The keys by their places: the home key has the place 5, the power key the place 0.
abbrev home : ℕ
home = 5

abbrev power : ℕ
power = 0

-- The wait as the keys of this keypad make it: only the home key ends it.
abbrev pub waited : ℕ → List (Option ℕ) → Start × ℕ × ℕ
waited zero is = (boot_esp, 0, 0)
waited (suc n) [] = (boot_esp, 0, 0)
waited (suc n) (none ∷ is) = waited n is
waited (suc n) (some i ∷ is) =
    let (start, left, shells) = waited n is in
    if i == home then (menu, suc n, 0) else (start, left, if i == power then shells + 1 else shells)

wait_key-key_of :
    (i n : ℕ) (start : Start) (left shells : ℕ)
    → wait_key (some (key_of i)) n (start, left, shells) ≡ (
        if i == home
        then (menu, n, 0)
        else (start, left, if i == power then shells + 1 else shells))
unfolding wait_key reset_keys initialize_key_context
wait_key-key_of zero n start left shells = refl
wait_key-key_of (suc zero) n start left shells = refl
wait_key-key_of (suc (suc zero)) n start left shells = refl
wait_key-key_of (suc (suc (suc zero))) n start left shells = refl
wait_key-key_of (suc (suc (suc (suc zero)))) n start left shells = refl
wait_key-key_of (suc (suc (suc (suc (suc zero))))) n start left shells = refl
wait_key-key_of (suc (suc (suc (suc (suc (suc zero)))))) n start left shells = refl
wait_key-key_of (suc (suc (suc (suc (suc (suc (suc i))))))) n start left shells = ground arith

-- With the keys of the keypad device only the home key ends the wait, and leads to the menu; the back
-- key does nothing, and the power key starts the shell and then the wait goes on. Without a home key
-- the wait takes all of its rounds and boots from the ESP.
pub wait_loop_lem :
    (n : ℕ) (is : List (Option ℕ)) → wait_loop n (map (Option.map key_of) is) ≡ waited n is
unfolding wait_loop wait_key
wait_loop_lem zero is = refl
wait_loop_lem (suc n) [] = refl
wait_loop_lem (suc n) (none ∷ is) = wait_loop_lem n is
wait_loop_lem (suc n) (some i ∷ is) =
    ap (wait_key (some (key_of i)) (suc n)) (wait_loop_lem n is) ∙ wait_key-key_of i (suc n) _ _ _
