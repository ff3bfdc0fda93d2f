-- ===== src/Menu/HexInput/Refine.antt =====
-- `GetHexInput` implements the editor of `Spec`.
use msm8909pkg.Base.{
  ℕ, ◌+◌, ◌-◌, ◌%◌, ◌<◌, ◌≡◌, refl, ap, ◌∙◌, sym, false, Option, some, List, [], ◌∷◌, set, get_or,
  if◌then◌else◌, ◌==◌, ltb, arith, length, length-set, get_or-set_self, if_both₂, if_match, zero,
  suc, Bool-cases, inl, inr,
}
use mathlib.Core.Option
use msm8909pkg.Menu.HexInput.{
  scan_esc, char_carriage_return, char_tab, char_backspace, HexInput, InputKey, read_key, hex_char,
  empty_input, next_char, cycle, previous_char, switch_key, input_key, input_loop, get_hex_input,
}
use msm8909pkg.Menu.HexInput.Spec
use msm8909pkg.Menu.HexInput.Spec.{Number, text}

-- The state of the code for a number: the digit at the cursor is kept twice.
abbrev pub Shows : HexInput → Number → Type 0
Shows h (digits, cursor) =
    (h.hex_buffer ≡ text digits)
    × (h.index ≡ cursor)
    × (h.old_hex_char_index ≡ digits)
    × (h.hex_char_index ≡ get_or digits cursor 0)
    × (length digits ≡ 8)
    × (cursor < 8)

set-text :
    (digits : List ℕ) (i v : ℕ)
    → i < length digits
    → set (text digits) i (hex_char v) ≡ text (set digits i v)
set-text [] i v h = absurd (omega arith)
set-text (d ∷ ds) zero v h = refl
set-text (d ∷ ds) (suc i) v h = ap (λ l. hex_char d ∷ l) (set-text ds i v (omega arith))

-- A write of what is there.
pub set-get_or : (digits : List ℕ) (i : ℕ) → set digits i (get_or digits i 0) ≡ digits
set-get_or [] i = refl
set-get_or (d ∷ ds) zero = refl
set-get_or (d ∷ ds) (suc i) = ap (λ l. d ∷ l) (set-get_or ds i)

set-terminator : (digits : List ℕ) → set (text digits) (length digits) 0 ≡ text digits
set-terminator [] = refl
set-terminator (d ∷ ds) = ap (λ l. hex_char d ∷ l) (set-terminator ds)

module _ (h : HexInput) (digits : List ℕ) (cursor : ℕ) (shown : Shows h (digits, cursor)) where
  next_char-Shows : Shows (next_char h) (digits, if ltb cursor 7 then cursor + 1 else cursor)
  unfolding next_char
  next_char-Shows =
      let (text_eq, i_eq, old_eq, char_eq, size, inside) = shown in
      let written : set h.old_hex_char_index cursor h.hex_char_index ≡ digits =
        rw (old_eq, char_eq) (set-get_or digits cursor) in
      elim (Bool-cases (ltb cursor 7)) [
        | inl e ↦
            rw (i_eq, e)
              (
                text_eq,
                refl,
                written,
                ap (λ l. get_or l (cursor + 1) 0) written,
                size,
                ground arith,
              )
        | inr e ↦ rw (i_eq, e) (text_eq, refl, old_eq, char_eq, size, inside)
      ]

  cycle-Shows : Shows (cycle h) (set digits cursor ((get_or digits cursor 0 + 1) % 16), cursor)
  unfolding cycle
  cycle-Shows =
      let (text_eq, i_eq, old_eq, char_eq, size, inside) = shown in
      let v = (get_or digits cursor 0 + 1) % 16 in
      rw (text_eq, i_eq, old_eq, char_eq)
        (
          set-text digits cursor v (omega (arith, size)),
          refl,
          refl,
          sym (get_or-set_self digits cursor v 0 (omega (arith, size))),
          length-set digits cursor v ∙ size,
          inside,
        )

  previous_char-Shows : Shows (previous_char h) (digits, cursor - 1)
  unfolding previous_char
  previous_char-Shows =
      let (text_eq, i_eq, old_eq, char_eq, size, inside) = shown in
      let i : (if ltb 0 h.index then h.index - 1 else h.index) ≡ cursor - 1 =
        ground (arith, i_eq) in
      rw (i, text_eq, old_eq)
        (
          set-text digits (cursor - 1) _ (omega (arith, size))
              ∙ ap text (set-get_or digits (cursor - 1)),
          refl,
          refl,
          refl,
          size,
          omega arith,
        )

switch_key-Shows :
    (key : InputKey) (h : HexInput) (n : Number)
    → Shows h n
    → Shows (switch_key key h) (Spec.edit key n)
unfolding switch_key Spec.edit
switch_key-Shows (scan, char) h (digits, cursor) shown =
    if_both₂ Shows (scan == scan_esc) (next_char-Shows h digits cursor shown) (
      if_both₂ Shows (char == char_carriage_return) shown (
        if_both₂ Shows (char == char_tab) (cycle-Shows h digits cursor shown) (
          if_both₂ Shows (char == char_backspace) (previous_char-Shows h digits cursor shown)
            shown)))

input_key-Shows :
    (key : InputKey) (h : HexInput) (n : Number)
    → Shows h n
    → Shows (input_key key h) (Spec.edit key n)
unfolding input_key
input_key-Shows key h n shown =
    let (text_eq, i_eq, old_eq, char_eq, size, inside) = switch_key-Shows key h n shown in
    let (digits, cursor) = Spec.edit key n in
    (rw text_eq (rw⁻¹ size (set-terminator digits)), i_eq, old_eq, char_eq, size, inside)

-- The input is complete exactly after the dial.
input_key-ends :
    (key : InputKey) (h : HexInput)
    → h.input_complete ≡ false
    → (input_key key h).input_complete ≡ Spec.ends key
unfolding input_key switch_key next_char cycle previous_char
input_key-ends (scan, char) h e = ground (arith, e)

input_loop_refines :
    (key : InputKey) (readings : List (Option InputKey)) (h : HexInput) (n : Number)
    → Shows h n
    → h.input_complete ≡ false
    → input_loop key readings h ≡ Option.map text (Spec.enter key readings n)
unfolding input_loop Spec.enter
input_loop_refines key [] h n shown going = refl
input_loop_refines key (r ∷ rs) h n shown going =
    let key' = read_key key r in
    let shown' = input_key-Shows key' h n shown in
    let over = input_key-ends key' h going in
    if_match (λ a b. a ≡ Option.map text b) (input_key key' h).input_complete (Spec.ends key') over
      (λ e. ap some shown'.0)
      (λ e. input_loop_refines key' rs (input_key key' h) (Spec.edit key' n) shown' (over ∙ e))

-- On any readings of the keypad, keys that do nothing and rounds without a key included,
-- `GetHexInput` ends with the dial, and gives then the digits that the editor of eight digits and a
-- cursor holds, as text with its terminator.
pub get_hex_input_refines :
    (key : InputKey) (readings : List (Option InputKey))
    → get_hex_input key readings ≡ Option.map text (Spec.enter key readings Spec.zero_number)
unfolding get_hex_input empty_input
get_hex_input_refines key readings =
    input_loop_refines key readings empty_input Spec.zero_number
      (refl, refl, refl, refl, refl, omega arith) refl
