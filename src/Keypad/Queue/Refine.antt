-- ===== src/Keypad/Queue/Refine.antt =====
-- The ring of `EFI_KEY_QUEUE` implements the bounded list of `Spec`.
use msm8909pkg.Base.{
  ℕ, zero, suc, ◌+◌, ◌-◌, ◌%◌, ◌<◌, ◌≡◌, ◌≢◌, refl, true, false, ap, ap₂, ◌∙◌, Option, List, [],
  ◌∷◌, ◌++◌, arith, length, get_or, set, length-set, get_elem?-eq-get_or, get_or-set_self,
  get_or-set_ne,
}
use native.Mathlib.Decide.{ℕ_discrete}
use msm8909pkg.Keypad.Data.{KeyData, Status, zero_key}
use msm8909pkg.Keypad.Queue.{
  is_efikey_buf_empty, KeyQueue, max_count, pop_efikey_buf_head, store_tail, push_efikey_buf_tail,
}
use msm8909pkg.Keypad.Queue.Spec
use msm8909pkg.Keypad.Queue.Spec.{Request, put, take}

-- The indices stay in the buffer.
pub record IsValid (q : KeyQueue) : Type 0 where
  pub slots : length q.buffer ≡ max_count
  pub head_in : q.head < max_count
  pub tail_in : q.tail < max_count

-- The `n` keys from index `h` on, round the ring.
abbrev pub keys_from : List KeyData → ℕ → ℕ → List KeyData
keys_from b h zero = []
keys_from b h (suc n) = get_or b h zero_key ∷ keys_from b ((h + 1) % max_count) n

abbrev pub count : KeyQueue → ℕ
count q = (q.tail + max_count - q.head) % max_count

-- The keys that wait in the queue, oldest first.
abbrev pub contents : KeyQueue → List KeyData
contents q = keys_from q.buffer q.head (count q)

length-keys_from : (b : List KeyData) (h n : ℕ) → length (keys_from b h n) ≡ n
length-keys_from b h zero = refl
length-keys_from b h (suc n) = ap suc (length-keys_from b ((h + 1) % max_count) n)

keys_from_ne_zero :
    (b : List KeyData) (h n : ℕ)
    → n ≢ 0
    → keys_from b h n ≡ get_or b h zero_key ∷ keys_from b ((h + 1) % max_count) (n - 1)
keys_from_ne_zero b h zero ne = absurd (ne refl)
keys_from_ne_zero b h (suc n) ne = ap (λ m. keys_from b h (suc m)) (omega arith)

-- A key written just past the `n` waiting ones joins them at the end.
keys_from-set :
    (b : List KeyData) (k : KeyData) (h n i : ℕ)
    → length b ≡ max_count
    → h < max_count
    → n < max_count
    → i ≡ (h + n) % max_count
    → keys_from (set b i k) h (suc n) ≡ keys_from b h n ++ (k ∷ [])
keys_from-set b k h zero i len hin nin e =
    let at : i ≡ h = omega arith in rw (at, get_or-set_self b h k zero_key (omega arith)) refl
keys_from-set b k h (suc n) i len hin nin e =
    ap₂ ◌∷◌ (get_or-set_ne b i h k zero_key (omega arith))
      (keys_from-set b k ((h + 1) % max_count) n i len (omega arith) (omega arith) (omega arith))

-- With a slot free the new key joins the end.
contents-store_tail :
    (q : KeyQueue) (k : KeyData)
    → IsValid q
    → count q < 255
    → contents (store_tail q k) ≡ contents q ++ (k ∷ [])
contents-store_tail q k v room =
    let more : count (store_tail q k) ≡ suc (count q) = omega (arith, v.head_in, v.tail_in) in
    rw more (
      keys_from-set q.buffer k q.head (count q) q.tail v.slots v.head_in (omega arith)
        (omega (arith, v.head_in, v.tail_in)))

-- The queue is full exactly when the test of the push says so.
full_count : (q : KeyQueue) → IsValid q → (q.tail + 1) % max_count ≡ q.head → count q ≡ 255
full_count q v e = omega (arith, v.head_in, v.tail_in)

pub contents_of_empty : (q : KeyQueue) → IsValid q → is_efikey_buf_empty q ≡ true → contents q ≡ []
unfolding is_efikey_buf_empty
contents_of_empty q v e =
    let none_left : count q ≡ 0 = ground (arith, v.head_in, v.tail_in) in rw none_left

pub contents_of_nonempty :
    (q : KeyQueue)
    → IsValid q
    → is_efikey_buf_empty q ≡ false
    → contents q ≡ get_or q.buffer q.head zero_key ∷ contents (pop_efikey_buf_head q).2
unfolding pop_efikey_buf_head
contents_of_nonempty q v e =
    ground (arith, v.head_in, v.tail_in, keys_from_ne_zero q.buffer q.head (count q))

pub length-contents : (q : KeyQueue) → length (contents q) ≡ count q
length-contents q = length-keys_from q.buffer q.head (count q)

pub pop-eq-drop_first : (ks : List KeyData) → (Spec.pop ks).2 ≡ Spec.drop_first ks
unfolding Spec.pop
pop-eq-drop_first [] = refl
pop-eq-drop_first (k ∷ ks) = refl

module _ {q : KeyQueue} (v : IsValid q) where
  pub pop-IsValid : IsValid (pop_efikey_buf_head q).2
  unfolding pop_efikey_buf_head
  pop-IsValid = ground arith

  pub push-IsValid : (k : KeyData) → IsValid (push_efikey_buf_tail q k)
  unfolding push_efikey_buf_tail
  push-IsValid k = ground (arith, length-set q.buffer q.tail k)

  -- From a ring whose indices are in range, a pop returns the status and the key of the bounded
  -- list's pop, and leaves the ring holding the list that it leaves.
  pub pop_refines :
      let (s, out, q') = pop_efikey_buf_head q in (s, out, contents q') ≡ Spec.pop (contents q)
  unfolding pop_efikey_buf_head Spec.pop
  pop_refines = ground (
    arith,
    keys_from_ne_zero q.buffer q.head (count q),
    get_elem?-eq-get_or q.buffer q.head zero_key,
  )

  popped_count : (q.tail + 1) % max_count ≡ q.head → count (pop_efikey_buf_head q).2 < 255
  unfolding pop_efikey_buf_head
  popped_count e = ground arith

  push_full :
      (k : KeyData)
      → (q.tail + 1) % max_count ≡ q.head
      → contents (store_tail (pop_efikey_buf_head q).2 k) ≡ Spec.drop_first (contents q) ++ (k ∷ [])
  push_full k e =
      contents-store_tail (pop_efikey_buf_head q).2 k pop-IsValid (popped_count e)
      ∙ ap (λ ks. ks ++ (k ∷ [])) (ap (λ r. r.2) pop_refines ∙ pop-eq-drop_first (contents q))

  -- From a ring whose indices are in range, a push keeps the keys in order, adds the new one at the
  -- end, and drops the oldest of 255.
  pub push_refines : (k : KeyData) → contents (push_efikey_buf_tail q k) ≡ Spec.push (contents q) k
  unfolding push_efikey_buf_tail Spec.push
  push_refines k = elim (ℕ_discrete ((q.tail + 1) % max_count) q.head) [
    | yes e ↦
        ground (arith, push_full k e, length-keys_from q.buffer q.head (count q), full_count q v e)
    | no ne ↦ ground (
      arith,
      contents-store_tail q k v (omega (arith, v.head_in, v.tail_in)),
      length-keys_from q.buffer q.head (count q),
    )
  ]

-- The requests on the ring itself, with what each `take` returns.
unfoldable pub serve : KeyQueue → List Request → List (Status × Option KeyData)
serve q [] = []
serve q (put k ∷ rs) = serve (push_efikey_buf_tail q k) rs
serve q (take ∷ rs) = let (s, out, q') = pop_efikey_buf_head q in (s, out) ∷ serve q' rs

-- No sequence of pushes and pops tells a ring whose indices are in range from the bounded list of
-- the keys that it holds.
pub serve_refines :
    (rs : List Request) {q : KeyQueue} → IsValid q → serve q rs ≡ Spec.run (contents q) rs
unfolding serve Spec.run
serve_refines [] v = refl
serve_refines (put k ∷ rs) v =
    serve_refines rs (push-IsValid v k) ∙ ap (λ ks. Spec.run ks rs) (push_refines v k)
serve_refines (take ∷ rs) v = rw (serve_refines rs (pop-IsValid v), ← pop_refines v)
