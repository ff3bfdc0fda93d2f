-- ===== src/SdCard/Blocks.antt =====
-- The blocks that reads and writes of the SD card move.
use msm8909pkg.Base.{
  true, false, ℕ, zero, suc, ◌+◌, ◌*◌, ◌/◌, ◌%◌, ◌^◌, ◌<◌, ◌≤◌, ◌≡◌, ◌≢◌, ◌∙◌, ap, refl,
  if◌then◌else◌, ◌==◌, arith, if_split, ==_ne,
}
use msm8909pkg.SdCard.{
  Card, Media, BlockStatus, efi_success, efi_device_error, block_bytes, each_block, mmc_bread,
  read_blocks, check_request,
}

-- What the transfer of a block does: a read that succeeds fills the block's bytes in the memory, and no
-- read changes the memory beside them or the card; a write that succeeds stores the bytes in
-- the block, and no write changes another block or the memory.
pub record Stores {S : Type 0} (c : Card S) : Type 0 where
  pub block : ℕ → ℕ → S → ℕ
  pub read_ok :
      (nr dst i : ℕ) (s : S)
      → (c.read_a_block nr dst s).0 ≡ true
      → i < block_bytes
      → c.byte (dst + i) (c.read_a_block nr dst s).1 ≡ block nr i s
  pub read_below :
      (nr dst a : ℕ) (s : S) → a < dst → c.byte a (c.read_a_block nr dst s).1 ≡ c.byte a s
  pub read_above :
      (nr dst a : ℕ) (s : S)
      → dst + block_bytes ≤ a
      → c.byte a (c.read_a_block nr dst s).1 ≡ c.byte a s
  pub read_card : (nr dst b i : ℕ) (s : S) → block b i (c.read_a_block nr dst s).1 ≡ block b i s
  pub write_ok :
      (nr src i : ℕ) (s : S)
      → (c.write_a_block nr src s).0 ≡ true
      → i < block_bytes
      → block nr i (c.write_a_block nr src s).1 ≡ c.byte (src + i) s
  pub write_other :
      (nr src b i : ℕ) (s : S) → b ≢ nr → block b i (c.write_a_block nr src s).1 ≡ block b i s
  pub write_memory : (nr src a : ℕ) (s : S) → c.byte a (c.write_a_block nr src s).1 ≡ c.byte a s

pub whole-check_request :
    {S : Type 0} (media : Media) (n buffer : ℕ) (s : S) (x : BlockStatus × S)
    → media.block_size ≡ block_bytes
    → buffer ≢ 0
    → check_request media (block_bytes * suc n) buffer s x ≡ x
whole-check_request media n buffer s x e nz =
    let whole : (block_bytes * suc n % block_bytes == 0) ≡ true = ground arith in
    let some_bytes : (block_bytes * suc n == 0) ≡ false = ground arith in
    rw (e, whole, ==_ne buffer 0 nz, some_bytes) refl

pub count_of :
    (media : Media) (n : ℕ)
    → media.block_size ≡ block_bytes
    → block_bytes * suc n / media.block_size ≡ suc n
count_of media n e = rw e (omega arith)

pub fits : (lba n : ℕ) → lba + n < 2 ^ 32 → lba % 2 ^ 32 ≡ lba
fits lba n h = omega arith

module _ {S : Type 0} (c : Card S) (stores : Stores c) where
  open stores use {block}

  -- The first `run` blocks of `n` are in the memory from `dst` on; beside the `n` blocks the memory is as
  -- it was, and so is the card.
  pub record Filled (n nr dst : ℕ) (s : S) (r : ℕ × S) : Type 0 where
    pub run_lem : r.0 ≤ n
    pub filled :
        (j i : ℕ)
        → j < r.0
        → i < block_bytes
        → c.byte (dst + block_bytes * j + i) r.1 ≡ block (nr + j) i s
    pub below : (a : ℕ) → a < dst → c.byte a r.1 ≡ c.byte a s
    pub above : (a : ℕ) → dst + block_bytes * n ≤ a → c.byte a r.1 ≡ c.byte a s
    pub card : (b i : ℕ) → block b i r.1 ≡ block b i s

  later_bytes :
      (n nr dst : ℕ) (s : S) (r : ℕ × S)
      → (c.read_a_block nr dst s).0 ≡ true
      → Filled n (nr + 1) (dst + block_bytes) (c.read_a_block nr dst s).1 r
      → (j i : ℕ) → j < suc r.0
      → i < block_bytes
      → c.byte (dst + block_bytes * j + i) r.1 ≡ block (nr + j) i s
  later_bytes n nr dst s r ok f zero i lt h =
      ap (λ a. c.byte a r.1) (omega arith)
      ∙ f.below (dst + i) (omega arith)
      ∙ stores.read_ok nr dst i s ok h
      ∙ ap (λ b. block b i s) (omega arith)
  later_bytes n nr dst s r ok f (suc j) i lt h =
      ap (λ a. c.byte a r.1) (omega arith)
      ∙ f.filled j i (omega arith) h
      ∙ stores.read_card nr dst (nr + 1 + j) i s
      ∙ ap (λ b. block b i s) (omega arith)

  later-Filled :
      (n nr dst : ℕ) (s : S) (r : ℕ × S)
      → (c.read_a_block nr dst s).0 ≡ true
      → Filled n (nr + 1) (dst + block_bytes) (c.read_a_block nr dst s).1 r
      → Filled (suc n) nr dst s (suc r.0, r.1)
  later-Filled n nr dst s r ok f = record {
    run_lem = let h = f.run_lem in omega arith;
    filled = later_bytes n nr dst s r ok f;
    below = λ a h. f.below a (omega arith) ∙ stores.read_below nr dst a s h;
    above = λ a h. f.above a (omega arith) ∙ stores.read_above nr dst a s (omega arith);
    card = λ b i. f.card b i ∙ stores.read_card nr dst b i s;
  }

  none-Filled : (n nr dst : ℕ) (s : S) → Filled (suc n) nr dst s (0, (c.read_a_block nr dst s).1)
  none-Filled n nr dst s = record {
    run_lem = omega arith;
    filled = λ j i lt k. omega arith;
    below = λ a k. stores.read_below nr dst a s k;
    above = λ a k. stores.read_above nr dst a s (omega arith);
    card = λ b i. stores.read_card nr dst b i s;
  }

  pub each_read-Filled :
      (n nr dst : ℕ) (s : S)
      → nr + n < 2 ^ 32
      → dst + block_bytes * n < 2 ^ 32
      → Filled n nr dst s (each_block c.read_a_block n nr dst s)
  unfolding each_block
  each_read-Filled zero nr dst s h h' = record {
    run_lem = omega arith;
    filled = λ j i lt k. omega arith;
    below = λ a k. refl;
    above = λ a k. refl;
    card = λ b i. refl;
  }
  each_read-Filled (suc n) nr dst s h h' =
      let e : (nr + 1) % 2 ^ 32 ≡ nr + 1 = omega arith in
      let e' : (dst + block_bytes) % 2 ^ 32 ≡ dst + block_bytes = omega arith in
      rw (e, e')
        (if_split (Filled (suc n) nr dst s) (c.read_a_block nr dst s).0
          (λ ok. later-Filled n nr dst s _ ok (
            each_read-Filled n (nr + 1) (dst + block_bytes) (c.read_a_block nr dst s).1
              (omega arith) (omega arith)))
          (λ failed. none-Filled n nr dst s))

  -- A read of `n` blocks by `MMCHSReadBlocks`: an error and no block, or success and at least one.
  pub record ReadFrom (n nr dst : ℕ) (s : S) (r : BlockStatus × S) : Type 0 where
    pub run : ℕ
    pub moved : Filled n nr dst s (run, r.1)
    pub status : r.0 ≡ (if run == 0 then efi_device_error else efi_success)

  -- A read of whole blocks, at least one, to an address that is not null, where neither the numbers of
  -- the blocks nor the addresses wrap and the blocks of the media have 512 bytes: some number of the
  -- blocks, from the first on, are in the buffer as they are on the card; the status is
  -- `EFI_DEVICE_ERROR` where that number is 0, and `EFI_SUCCESS` otherwise; the memory beside the
  -- buffer and the card stay as they are.
  pub read_blocks-ReadFrom :
      (media : Media) (n lba buffer : ℕ) (s : S)
      → media.block_size ≡ block_bytes
      → buffer ≢ 0
      → lba + suc n < 2 ^ 32
      → buffer + block_bytes * suc n < 2 ^ 32
      → ReadFrom (suc n) lba buffer s (read_blocks c media lba (block_bytes * suc n) buffer s)
  unfolding read_blocks mmc_bread
  read_blocks-ReadFrom media n lba buffer s e nz h h' =
      rw (whole-check_request media n buffer s _ e nz, count_of media n e, fits lba (suc n) h)
        (record { run = _; moved = each_read-Filled (suc n) lba buffer s h h'; status = refl })
