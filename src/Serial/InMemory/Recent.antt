-- ===== src/Serial/InMemory/Recent.antt =====
-- The log keeps the last bytes that were written.
use msm8909pkg.Base.{
  ℕ, zero, suc, ◌+◌, ◌-◌, ◌≤◌, ◌<◌, ◌≡◌, ◌≢◌, refl, ap, ap₂, ◌∙◌, List, [], ◌∷◌, length,
  if◌then◌else◌, ◌==◌, leb, arith, ==_ne, ==_self,
}
use mathlib.Core.List.{reverse, reverse_aux}
use msm8909pkg.Serial.InMemory.{Log, mem_putchar, write_loop, serial_port_write}

abbrev pub take : ℕ → List ℕ → List ℕ
take zero xs = []
take (suc n) [] = []
take (suc n) (x ∷ xs) = x ∷ take n xs

length-reverse_aux : (xs ys : List ℕ) → length (reverse_aux xs ys) ≡ length xs + length ys
length-reverse_aux [] ys = omega arith
length-reverse_aux (x ∷ xs) ys = omega (arith, length-reverse_aux xs (x ∷ ys))

module _ (size : ℕ) where
  -- The offset before an offset, round the ring.
  abbrev pub prev : ℕ → ℕ
  prev o = if o == 0 then size - 1 else o - 1

  -- The `n` bytes before an offset, the nearest first.
  abbrev pub before : ℕ → ℕ → (ℕ → ℕ) → List ℕ
  before zero o memory = []
  before (suc n) o memory = memory (prev o) ∷ before n (prev o) memory

  -- The steps back from an offset that do not meet another.
  abbrev gap : ℕ → ℕ → ℕ
  gap o q = if leb o q then o + size - q - 1 else o - q - 1

  before-put :
      (n o q c : ℕ) (memory : ℕ → ℕ)
      → o < size
      → q < size
      → n ≤ gap o q
      → before n o (λ i. if i == q then c else memory i) ≡ before n o memory
  before-put zero o q c memory o_in q_in h = refl
  before-put (suc n) o q c memory o_in q_in h =
      let ne : prev o ≢ q = λ e. absurd (ground arith) in
      ap₂ (λ x xs. x ∷ xs) (rw (==_ne (prev o) q ne) refl)
        (before-put n (prev o) q c memory (ground arith) q_in (ground arith))

  -- A byte goes in front of what was written.
  put-before :
      (n c : ℕ) (s : Log)
      → s.offset < size
      → suc n ≤ size
      → let s' = mem_putchar size c s in
        before (suc n) s'.offset s'.memory ≡ c ∷ before n s.offset s.memory
  unfolding mem_putchar
  put-before n c s h small =
      let s' = mem_putchar size c s in
      let e : prev s'.offset ≡ s.offset = ground arith in
      ap₂ (λ x xs. x ∷ xs) (rw (e, ==_self s.offset) refl)
        (ap (λ o. before n o s'.memory) e
          ∙ before-put n s.offset s.offset c s.memory h h (ground arith))

  putchar-offset : (c : ℕ) (s : Log) → s.offset < size → (mem_putchar size c s).offset < size
  unfolding mem_putchar
  putchar-offset c s h = ground arith

  put-recent :
      (h : List ℕ) (b : ℕ) (s : Log)
      → s.offset < size
      → ((n : ℕ) → n ≤ size → n ≤ length h → before n s.offset s.memory ≡ take n h)
      → (n : ℕ) → n ≤ size
      → n ≤ suc (length h)
      → let s' = mem_putchar size b s in before n s'.offset s'.memory ≡ take n (b ∷ h)
  put-recent h b s s_in kept zero small few = refl
  put-recent h b s s_in kept (suc n) small few =
      put-before n b s s_in small ∙ ap (λ l. b ∷ l) (kept n (omega arith) (omega arith))

  none_yet : (s : Log) (n : ℕ) → n ≤ size → n ≤ 0 → before n s.offset s.memory ≡ take n []
  none_yet s zero small few = refl
  none_yet s (suc n) small few = absurd (omega arith)

  write_loop-recent :
      (bs h : List ℕ) (s : Log)
      → s.offset < size
      → ((n : ℕ) → n ≤ size → n ≤ length h → before n s.offset s.memory ≡ take n h)
      → (n : ℕ) → n ≤ size
      → n ≤ length (reverse_aux bs h)
      → let s' = write_loop size bs s in before n s'.offset s'.memory ≡ take n (reverse_aux bs h)
  unfolding write_loop
  write_loop-recent [] h s s_in kept n small few = kept n small few
  write_loop-recent (b ∷ bs) h s s_in kept n small few =
      write_loop-recent bs (b ∷ h) (mem_putchar size b s) (putchar-offset b s s_in)
        (put-recent h b s s_in kept) n small few

  -- From any state of the log with its offset in range: after a write, reading back from the offset
  -- round the ring gives the bytes that were written, the last one first, as many of them as the log
  -- has room for.
  pub serial_port_write-recent :
      (n : ℕ) (buffer : List ℕ) (s : Log)
      → s.offset < size
      → n ≤ size
      → n ≤ length buffer
      → let (count, s') = serial_port_write size buffer s in
        (count ≡ length buffer) × (before n s'.offset s'.memory ≡ take n (reverse buffer))
  unfolding serial_port_write
  serial_port_write-recent n buffer s s_in small few = (
    refl,
    write_loop-recent buffer [] s s_in (none_yet s) n small
        (omega (arith, few, length-reverse_aux buffer [])),
  )
