-- ===== src/Menu/HexInput/Spec.antt =====
-- What the input of a hexadecimal number promises: a number of eight digits, and a cursor on one of
-- them. The power key moves the cursor right, the back key moves it left, the windows key counts its
-- digit up, and the dial ends the input.
use msm8909pkg.Base.{
  ℕ, ◌+◌, ◌-◌, ◌%◌, Bool, not, ◌&&◌, Option, none, some, List, [], ◌∷◌, ◌++◌, map, replicate, set,
  get_or, if◌then◌else◌, ◌==◌, ltb,
}
use msm8909pkg.Menu.HexInput.{
  InputKey, read_key, hex_char, scan_esc, char_carriage_return, char_tab, char_backspace,
}

-- The digits, the cursor.
abbrev pub Number : Type 0
Number = List ℕ × ℕ

unfoldable pub edit : InputKey → Number → Number
edit (scan, char) (digits, cursor) =
    if scan == scan_esc
    then (digits, if ltb cursor 7 then cursor + 1 else cursor)
    else if char == char_carriage_return
    then (digits, cursor)
    else if char == char_tab
    then (set digits cursor ((get_or digits cursor 0 + 1) % 16), cursor)
    else if char == char_backspace
    then (digits, cursor - 1)
    else (digits, cursor)

abbrev pub ends : InputKey → Bool
ends (scan, char) = not (scan == scan_esc) && char == char_carriage_return

unfoldable pub enter : InputKey → List (Option InputKey) → Number → Option (List ℕ)
enter key [] n = none
enter key (r ∷ rs) n =
    let n' = edit (read_key key r) n in
    let more = enter (read_key key r) rs n' in if ends (read_key key r) then some n'.0 else more

abbrev pub zero_number : Number
zero_number = (replicate 8 0, 0)

-- The text of a number, with its terminator.
abbrev pub text : List ℕ → List ℕ
text digits = map hex_char digits ++ (0 ∷ [])
