-- ===== src/Keypad/Queue/Spec.antt =====
-- What the key buffer promises: a list of at most 255 keys, oldest first, which drops its oldest
-- key for a new one when it is full.
use msm8909pkg.Base.{ℕ, Option, none, some, List, [], ◌∷◌, ◌++◌, if◌then◌else◌, ◌==◌, length}
use msm8909pkg.Keypad.Data.{KeyData, Status, success, not_ready}

-- One slot of the 256 stays free.
abbrev pub capacity : ℕ
capacity = 255

abbrev pub drop_first : List KeyData → List KeyData
drop_first [] = []
drop_first (k ∷ ks) = ks

unfoldable pub push : List KeyData → KeyData → List KeyData
push ks k = (if length ks == capacity then drop_first ks else ks) ++ (k ∷ [])

unfoldable pub pop : List KeyData → Status × Option KeyData × List KeyData
pop [] = (not_ready, none, [])
pop (k ∷ ks) = (success, some k, ks)

-- A caller's request of the buffer.
pub data Request : Type 0 where
  put : KeyData → Request
  take : Request

unfoldable pub run : List KeyData → List Request → List (Status × Option KeyData)
run ks [] = []
run ks (put k ∷ rs) = run (push ks k) rs
run ks (take ∷ rs) = let (s, out, ks') = pop ks in (s, out) ∷ run ks' rs
