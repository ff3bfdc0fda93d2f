-- ===== src/Menu/HexInput.antt =====
-- The input of a hexadecimal number with four keys: `GetHexInput` of
-- QSD8250Pkg/Application/HtcLeoMenuApp/HexInput.c.
pub mod Spec
pub mod Refine
pub mod Enter
use msm8909pkg.Base.{
  ℕ, ◌+◌, ◌-◌, ◌%◌, Bool, true, false, Option, none, some, List, [], ◌∷◌, ◌++◌, replicate, set,
  get_or, if◌then◌else◌, ◌==◌, ltb,
}

-- `HEX_LENGTH`
abbrev pub hex_length : ℕ
hex_length = 8

-- `HexChars`
abbrev pub hex_chars : List ℕ
hex_chars =
    b'0' ∷ b'1' ∷ b'2' ∷ b'3' ∷ b'4' ∷ b'5' ∷ b'6' ∷ b'7' ∷ b'8' ∷ b'9' ∷ b'A' ∷ b'B' ∷ b'C' ∷ b'D'
    ∷ b'E' ∷ b'F' ∷ []

abbrev pub hex_char : ℕ → ℕ
hex_char i = get_or hex_chars i 0

-- `EFI_INPUT_KEY`: the scan code and the character.
abbrev pub InputKey : Type 0
InputKey = ℕ × ℕ

-- The locals of `GetHexInput`, and its buffer with the terminator.
pub record HexInput : Type 0 where
  pub hex_buffer : List ℕ
  pub index : ℕ
  pub hex_char_index : ℕ
  pub old_hex_char_index : List ℕ
  pub input_complete : Bool

-- `SCAN_ESC`, `CHAR_CARRIAGE_RETURN`, `CHAR_TAB` and `CHAR_BACKSPACE` of the UEFI specification.
abbrev pub scan_esc : ℕ
scan_esc = 0x17

abbrev pub char_carriage_return : ℕ
char_carriage_return = 13

abbrev pub char_tab : ℕ
char_tab = 9

abbrev pub char_backspace : ℕ
char_backspace = 8

unfoldable pub empty_input : HexInput
empty_input = record {
  hex_buffer = set (replicate 8 b'0' ++ (0 ∷ [])) hex_length 0;
  index = 0;
  hex_char_index = 0;
  old_hex_char_index = replicate 8 0;
  input_complete = false;
}

-- The next character.
unfoldable pub next_char : HexInput → HexInput
next_char h =
    if ltb h.index (hex_length - 1)
    then (let old = set h.old_hex_char_index h.index h.hex_char_index in
        record h {
          old_hex_char_index = old;
          index = h.index + 1;
          hex_char_index = get_or old (h.index + 1) 0;
        })
    else h

-- The next digit.
unfoldable pub cycle : HexInput → HexInput
cycle h =
    let i = (h.hex_char_index + 1) % 16 in
    record h {
      hex_char_index = i;
      hex_buffer = set h.hex_buffer h.index (hex_char i);
      old_hex_char_index = set h.old_hex_char_index h.index i;
    }

-- The character before.
unfoldable pub previous_char : HexInput → HexInput
previous_char h =
    let i = if ltb 0 h.index then h.index - 1 else h.index in
    let old = get_or h.old_hex_char_index i 0 in
    record h { index = i; hex_buffer = set h.hex_buffer i (hex_char old); hex_char_index = old }

-- The `switch` on a key.
unfoldable pub switch_key : InputKey → HexInput → HexInput
switch_key (scan, char) h =
    if scan == scan_esc
    then next_char h
    else if char == char_carriage_return
    then record h { input_complete = true }
    else if char == char_tab
    then cycle h
    else if char == char_backspace
    then previous_char h
    else h

-- A round of the loop once the key is read; it ends with the terminator.
unfoldable pub input_key : InputKey → HexInput → HexInput
input_key key h =
    let h' = switch_key key h in record h' { hex_buffer = set h'.hex_buffer hex_length 0 }

-- What `ReadKeyStroke` leaves in `Key`: its status is not looked at, and without a key `Key` stays as
-- it was.
abbrev pub read_key : InputKey → Option InputKey → InputKey
read_key key none = key
read_key key (some new) = new

-- The loop, on the readings of the keypad; `none` means that they ran out while it went on.
unfoldable pub input_loop : InputKey → List (Option InputKey) → HexInput → Option (List ℕ)
input_loop key [] h = none
input_loop key (r ∷ rs) h =
    let h' = input_key (read_key key r) h in
    let more = input_loop (read_key key r) rs h' in
    if h'.input_complete then some h'.hex_buffer else more

-- `GetHexInput`, with what the stack holds in `Key`.
unfoldable pub get_hex_input : InputKey → List (Option InputKey) → Option (List ℕ)
get_hex_input key readings = input_loop key readings empty_input
