-- ===== src/SdCard/Written.antt =====
-- The blocks that writes of the SD card store, and what a read then finds.
use msm8909pkg.Base.{
  Bool, true, false, ℕ, zero, suc, ◌+◌, ◌*◌, ◌%◌, ◌^◌, ◌<◌, ◌≤◌, ◌≡◌, ◌≢◌, ◌∙◌, ap, refl, ◌==◌,
  arith, if_split,
}
use msm8909pkg.SdCard.{
  Card, Media, BlockStatus, efi_success, block_bytes, each_block, mmc_bread, mmc_bwrite,
  read_blocks, write_blocks,
}
use msm8909pkg.SdCard.Blocks.{Stores, each_read-Filled, whole-check_request, count_of, fits}

-- No transfer of a block fails.
pub record Works {S : Type 0} (c : Card S) : Type 0 where
  pub reads : (nr dst : ℕ) (s : S) → (c.read_a_block nr dst s).0 ≡ true
  pub writes : (nr src : ℕ) (s : S) → (c.write_a_block nr src s).0 ≡ true

each_block-all :
    {S : Type 0} (op : ℕ → ℕ → S → Bool × S) (n nr buffer : ℕ) (s : S)
    → ((k a : ℕ) (t : S) → (op k a t).0 ≡ true)
    → (each_block op n nr buffer s).0 ≡ n
unfolding each_block
each_block-all op zero nr buffer s works = refl
each_block-all op (suc n) nr buffer s works =
    rw (works nr buffer s, each_block-all op n _ _ (op nr buffer s).1 works) refl

module _ {S : Type 0} (c : Card S) (stores : Stores c) where
  open stores use {block}

  -- The first `run` blocks of `n` from `nr` on hold the bytes from `src` on; the other blocks and the
  -- memory are as they were.
  pub record Stored (n nr src : ℕ) (s : S) (r : ℕ × S) : Type 0 where
    pub stored :
        (j i : ℕ)
        → j < r.0
        → i < block_bytes
        → block (nr + j) i r.1 ≡ c.byte (src + block_bytes * j + i) s
    pub before : (b i : ℕ) → b < nr → block b i r.1 ≡ block b i s
    pub after : (b i : ℕ) → nr + n ≤ b → block b i r.1 ≡ block b i s
    pub memory : (a : ℕ) → c.byte a r.1 ≡ c.byte a s

  later_bytes :
      (n nr src : ℕ) (s : S) (r : ℕ × S)
      → (c.write_a_block nr src s).0 ≡ true
      → Stored n (nr + 1) (src + block_bytes) (c.write_a_block nr src s).1 r
      → (j i : ℕ) → j < suc r.0
      → i < block_bytes
      → block (nr + j) i r.1 ≡ c.byte (src + block_bytes * j + i) s
  later_bytes n nr src s r ok f zero i lt h =
      ap (λ b. block b i r.1) (omega arith)
      ∙ f.before nr i (omega arith)
      ∙ stores.write_ok nr src i s ok h
      ∙ ap (λ a. c.byte a s) (omega arith)
  later_bytes n nr src s r ok f (suc j) i lt h =
      ap (λ b. block b i r.1) (omega arith)
      ∙ f.stored j i (omega arith) h
      ∙ stores.write_memory nr src (src + block_bytes + block_bytes * j + i) s
      ∙ ap (λ a. c.byte a s) (omega arith)

  each_write-Stored :
      (n nr src : ℕ) (s : S)
      → nr + n < 2 ^ 32
      → src + block_bytes * n < 2 ^ 32
      → Stored n nr src s (each_block c.write_a_block n nr src s)
  unfolding each_block
  each_write-Stored zero nr src s h h' = record {
    stored = λ j i lt k. omega arith;
    before = λ b i k. refl;
    after = λ b i k. refl;
    memory = λ a. refl;
  }
  each_write-Stored (suc n) nr src s h h' =
      let e : (nr + 1) % 2 ^ 32 ≡ nr + 1 = omega arith in
      let e' : (src + block_bytes) % 2 ^ 32 ≡ src + block_bytes = omega arith in
      let s' = (c.write_a_block nr src s).1 in
      let other : (b i : ℕ) → b ≢ nr → block b i s' ≡ block b i s =
        λ b i k. stores.write_other nr src b i s k in
      let rest = each_write-Stored n (nr + 1) (src + block_bytes) s' (omega arith) (omega arith) in
      rw (e, e')
        (if_split (Stored (suc n) nr src s) (c.write_a_block nr src s).0
          (λ ok. record {
            stored = later_bytes n nr src s _ ok rest;
            before = λ b i k. rest.before b i (omega arith) ∙ other b i (omega arith);
            after = λ b i k. rest.after b i (omega arith) ∙ other b i (omega arith);
            memory = λ a. rest.memory a ∙ stores.write_memory nr src a s;
          })
          (λ failed. record {
            stored = λ j i lt k. omega arith;
            before = λ b i k. other b i (omega arith);
            after = λ b i k. other b i (omega arith);
            memory = λ a. stores.write_memory nr src a s;
          }))

  -- The write `w` and the read `r` succeed, and the bytes of `n` blocks come back.
  pub record ReadBack (n src dst : ℕ) (s : S) (w r : BlockStatus × S) : Type 0 where
    pub written : w.0 ≡ efi_success
    pub read : r.0 ≡ efi_success
    pub bytes :
        (j i : ℕ)
        → j < n
        → i < block_bytes
        → c.byte (dst + block_bytes * j + i) r.1 ≡ c.byte (src + block_bytes * j + i) s
    pub below : (a : ℕ) → a < dst → c.byte a r.1 ≡ c.byte a s
    pub above : (a : ℕ) → dst + block_bytes * n ≤ a → c.byte a r.1 ≡ c.byte a s

  -- On a card whose transfers do not fail, with blocks of 512 bytes, numbers and addresses that do not
  -- wrap and buffers that are not null: what `MMCHSWriteBlocks` writes from one buffer, at least a
  -- block, `MMCHSReadBlocks` reads back into another, and both succeed. The memory beside
  -- the second buffer stays as it was.
  pub write_blocks-read_blocks :
      (media : Media) (n lba src dst : ℕ) (s : S)
      → Works c
      → media.block_size ≡ block_bytes
      → src ≢ 0
      → dst ≢ 0
      → lba + suc n < 2 ^ 32
      → src + block_bytes * suc n < 2 ^ 32
      → dst + block_bytes * suc n < 2 ^ 32
      → let w = write_blocks c media lba (block_bytes * suc n) src s in
        ReadBack (suc n) src dst s w (read_blocks c media lba (block_bytes * suc n) dst w.1)
  unfolding read_blocks write_blocks mmc_bread mmc_bwrite
  write_blocks-read_blocks media n lba src dst s works e nz nz' h h1 h2 =
      let s1 = (each_block c.write_a_block (suc n) lba src s).1 in
      let w = each_write-Stored (suc n) lba src s h h1 in
      let r = each_read-Filled c stores (suc n) lba dst s1 h h2 in
      let wn = each_block-all c.write_a_block (suc n) lba src s works.writes in
      let some_run : (suc n == 0) ≡ false = ground arith in
      let rn = each_block-all c.read_a_block (suc n) lba dst s1 works.reads in
      rw
        (
          whole-check_request media n src s _ e nz,
          count_of media n e,
          fits lba (suc n) h,
          whole-check_request media n dst s1 _ e nz',
        )
        (record {
          written = rw (wn, some_run) refl;
          read = rw (rn, some_run) refl;
          bytes = λ j i lt k. r.filled j i (rw rn lt) k ∙ w.stored j i (rw wn lt) k;
          below = λ a k. r.below a k ∙ w.memory a;
          above = λ a k. r.above a k ∙ w.memory a;
        })
