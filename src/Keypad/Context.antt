-- ===== src/Keypad/Context.antt =====
-- The state machine of one key, `LibKeyUpdateKeyStatus` of
-- QSD8250Pkg/Include/Library/KeypadDeviceHelperLib.h. A call of `PushEfikeyBufTail` is an entry of
-- the list that comes back.
pub mod Polls
pub mod Invariant
pub mod Press
pub mod LongPress
use msm8909pkg.Base.{
  ℕ, ◌+◌, ◌*◌, ◌%◌, ◌^◌, Bool, true, false, not, ◌&&◌, List, [], ◌∷◌, if◌then◌else◌, ◌==◌, leb,
}
use msm8909pkg.Keypad.Data.{KeyData, zero_key}
use msm8909pkg.Keypad.Bitmap.{Bitmaps, key_set_state, key_get_state}

pub data KeyState : Type 0 where
  released pressed longpress_release : KeyState

-- `KEY_CONTEXT`
pub record KeyContext : Type 0 where
  pub key_data : KeyData
  pub time : ℕ
  pub state : KeyState
  pub repeat : Bool
  pub longpress : Bool

-- `MS2NS`
abbrev pub ms2ns : ℕ → ℕ
ms2ns ms = ms * 1000000

abbrev pub scan_up : ℕ
scan_up = 1

abbrev pub scan_down : ℕ
scan_down = 2

abbrev pub char_carriage_return : ℕ
char_carriage_return = 13

-- `gKeyDataPowerDown`, `gKeyDataPowerUp`, `gKeyDataPowerLongpress`.
abbrev pub key_data_power_down : KeyData
key_data_power_down = record zero_key { unicode_char = b's' }

abbrev pub key_data_power_up : KeyData
key_data_power_up = record zero_key { unicode_char = b'e' }

abbrev pub key_data_power_longpress : KeyData
key_data_power_longpress = record zero_key { unicode_char = b' ' }

unfoldable pub initialize_key_context : KeyContext
initialize_key_context = record {
  key_data = zero_key;
  time = 0;
  state = released;
  repeat = false;
  longpress = false;
}

-- A context and the keys that are pushed.
abbrev pub Outcome : Type 0
Outcome = KeyContext × List KeyData

-- The key combinations of a key that reports a carriage return.
abbrev combo : Bitmaps → KeyData
combo b =
    if key_get_state b scan_down 0
    then key_data_power_down
    else if key_get_state b scan_up 0
    then key_data_power_up
    else key_data_power_longpress

-- The first report of a long press, before `Longpress` is set.
first_report : Bitmaps → KeyContext → Outcome
first_report b c =
    if c.key_data.unicode_char == char_carriage_return
    then (c, combo b ∷ [])
    else if not (key_get_state b 0 char_carriage_return)
    then (record c { time = 0; repeat = true }, c.key_data ∷ [])
    else (c, [])

-- `KEYSTATE_PRESSED` with the key down.
held : Bitmaps → KeyContext → Outcome
unfolding first_report
held b c =
    if c.repeat && leb (ms2ns 200) c.time
    then (record c { time = 0; repeat = true }, c.key_data ∷ [])
    else if not c.longpress && leb (ms2ns 500) c.time
    then (let (c', out) = first_report b c in (record c' { longpress = true }, out))
    else (c, [])

-- The return to `KEYSTATE_RELEASED`.
abbrev rest : KeyContext → KeyContext
rest c = record c { time = 0; repeat = false; longpress = false; state = released }

-- `KEYSTATE_PRESSED` with the key up.
let_go : KeyContext → Outcome
let_go c =
    if not c.longpress
    then (record c { state = longpress_release }, c.key_data ∷ [])
    else if leb (ms2ns 10) c.time
    then (rest c, [])
    else (c, [])

-- The `switch` on the state.
switch_state : KeyState → Bool → Bitmaps → KeyContext → Outcome
unfolding held let_go
switch_state released true b c = (record c { time = 0; state = pressed }, [])
switch_state released false b c = (c, [])
switch_state pressed true b c = held b c
switch_state pressed false b c = let_go c
switch_state longpress_release _ b c = (rest c, [])

pub update_key_status : Bitmaps → KeyContext → Bool → ℕ → Bitmaps × KeyContext × List KeyData
unfolding switch_state
update_key_status b c is_pressed delta =
    let b' = key_set_state b c.key_data.scan_code c.key_data.unicode_char is_pressed in
    let c' = record c { time = (c.time + delta) % 2 ^ 64 } in
    let (c'', out) = switch_state c.state is_pressed b' c' in (b', c'', out)
