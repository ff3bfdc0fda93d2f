-- ===== src/Keypad/Context/Invariant.antt =====
-- The flags and the clock of a key's state machine.
use msm8909pkg.Base.{ℕ, ◌+◌, ◌%◌, ◌^◌, ◌<◌, ◌≡◌, ◌⊎◌, refl, Bool, true, false, List, [], ◌∷◌, arith}
use msm8909pkg.Keypad.Data.{KeyData}
use msm8909pkg.Keypad.Bitmap.{Bitmaps}
use msm8909pkg.Keypad.Context.{
  KeyState, KeyContext, released, pressed, longpress_release, held, let_go, update_key_status,
  key_data_power_down, key_data_power_up, key_data_power_longpress, switch_state, Outcome,
}

-- Which flags a state allows: outside of `pressed` none, and no repetition without a long press.
abbrev pub Flags : KeyState → Bool → Bool → Type 0
Flags pressed repeat longpress = (repeat ≡ false) ⊎ (longpress ≡ true)
Flags released repeat longpress = (repeat ≡ false) × (longpress ≡ false)
Flags longpress_release repeat longpress = (repeat ≡ false) × (longpress ≡ false)

pub record IsConsistent (c : KeyContext) : Type 0 where
  pub flags : Flags c.state c.repeat c.longpress
  pub clock : c.time < 2 ^ 64

-- The keys that a context may push: its own, or one of the three combinations.
abbrev pub Reportable : KeyContext → List KeyData → Type 0
Reportable c [] = Unit
Reportable c (k ∷ ks) =
    ((k ≡ c.key_data)
      ⊎ (k ≡ key_data_power_down)
      ⊎ (k ≡ key_data_power_up)
      ⊎ (k ≡ key_data_power_longpress))
    × (ks ≡ [])

-- What one step may do.
abbrev Kept : KeyContext → Outcome → Type 0
Kept c (c', out) = IsConsistent c' × (c'.key_data ≡ c.key_data) × Reportable c out

held-Kept : (b : Bitmaps) (c : KeyContext) → c.state ≡ pressed → IsConsistent c → Kept c (held b c)
unfolding held
held-Kept b c s v = ground arith

let_go-Kept : (c : KeyContext) → c.state ≡ pressed → IsConsistent c → Kept c (let_go c)
unfolding let_go
let_go-Kept c s v = ground arith

switch_state-Kept :
    (st : KeyState) (is_pressed : Bool) (b : Bitmaps) (c : KeyContext)
    → c.state ≡ st
    → IsConsistent c
    → Kept c (switch_state st is_pressed b c)
unfolding switch_state
switch_state-Kept released true b c e v = ground arith
switch_state-Kept released false b c e v = ground arith
switch_state-Kept pressed true b c e v = held-Kept b c e v
switch_state-Kept pressed false b c e v = let_go-Kept c e v
switch_state-Kept longpress_release p b c e v = ground arith

-- A poll of a key keeps its flags and its clock consistent, leaves the key that it reports as it
-- is, and pushes at most one key: that one, or one of the three of the carriage return's
-- combinations.
pub update_key_status-IsConsistent :
    (b : Bitmaps) (c : KeyContext) (is_pressed : Bool) (delta : ℕ)
    → IsConsistent c
    → let (_, c', out) = update_key_status b c is_pressed delta in
      IsConsistent c' × (c'.key_data ≡ c.key_data) × Reportable c out
unfolding update_key_status
update_key_status-IsConsistent b c is_pressed delta v =
    switch_state-Kept c.state is_pressed _ (record c { time = (c.time + delta) % 2 ^ 64 }) refl
      (record { flags = v.flags; clock = omega arith })
