-- ===== src/SdCard.antt =====
-- The block device of the SD card: QSD8250Pkg/GPLDrivers/SdCardDxe/SdCardDxe.c, with mmc_bread and
-- mmc_bwrite of mmc.c beside it. The transfer of one block, over the controller, is a parameter.
pub mod Blocks
pub mod Written
pub mod Mbr
mod Tests
use msm8909pkg.Base.{
  Bool, true, false, ℕ, zero, suc, ◌+◌, ◌-◌, ◌*◌, ◌/◌, ◌%◌, ◌^◌, Option, none, some, if◌then◌else◌,
  ◌&&◌, ◌==◌, ltb,
}

-- The controller with the card, and the memory: `read_a_block` and `write_a_block` on the number of a
-- block and an address, whether they succeed, and the byte at an address.
pub record Card (S : Type 0) : Type 0 where
  pub read_a_block : ℕ → ℕ → S → Bool × S
  pub write_a_block : ℕ → ℕ → S → Bool × S
  pub byte : ℕ → S → ℕ

-- `BlockSize` and `LastBlock` of `gMMCHSMedia`.
pub record Media : Type 0 where
  pub block_size : ℕ
  pub last_block : ℕ

pub data BlockStatus : Type 0 where
  efi_success : BlockStatus
  efi_bad_buffer_size : BlockStatus
  efi_invalid_parameter : BlockStatus
  efi_device_error : BlockStatus

-- `BLOCK_SIZE`
abbrev pub block_bytes : ℕ
block_bytes = 512

-- The loop of `mmc_bread` and of `mmc_bwrite`, a block at a time: how many succeed before one that fails.
unfoldable pub each_block : {S : Type 0} → (ℕ → ℕ → S → Bool × S) → ℕ → ℕ → ℕ → S → ℕ × S
each_block op zero blknr buffer s = (0, s)
each_block op (suc blkcnt) blknr buffer s =
    let (ok, s') = op blknr buffer s in
    let (run, s'') =
      each_block op blkcnt ((blknr + 1) % 2 ^ 32) ((buffer + block_bytes) % 2 ^ 32) s' in
    if ok then (suc run, s'') else (0, s')

-- Before and after a transfer in `MMCHSReadBlocks` and `MMCHSWriteBlocks`.
abbrev pub check_request : {S : Type 0} → Media → ℕ → ℕ → S → BlockStatus × S → BlockStatus × S
check_request media size buffer s moved =
    if size % media.block_size == 0
    then if buffer == 0
      then (efi_invalid_parameter, s)
      else if size == 0
      then (efi_success, s)
      else moved
    else (efi_bad_buffer_size, s)

abbrev pub transferred : {S : Type 0} → ℕ × S → BlockStatus × S
transferred r = (if r.0 == 0 then efi_device_error else efi_success, r.1)

-- How many blocks are searched: up to `MIN(LastBlock, 50)`, that one included.
abbrev pub searched : Media → ℕ
searched media = suc (if ltb media.last_block 50 then media.last_block else 50)

module _ {S : Type 0} (c : Card S) where
  -- `mmc_bread`, with its arguments' order
  unfoldable pub mmc_bread : ℕ → ℕ → ℕ → S → ℕ × S
  mmc_bread blknr blkcnt dst s = each_block c.read_a_block blkcnt blknr dst s

  -- `mmc_bwrite`
  unfoldable pub mmc_bwrite : ℕ → ℕ → ℕ → S → ℕ × S
  mmc_bwrite blknr blkcnt buffer s = each_block c.write_a_block blkcnt blknr buffer s

  -- `MMCHSReadBlocks`, with the block, the size, the buffer's address.
  unfoldable pub read_blocks : Media → ℕ → ℕ → ℕ → S → BlockStatus × S
  read_blocks media lba size buffer s =
      check_request media size buffer s
        (transferred (mmc_bread (lba % 2 ^ 32) (size / media.block_size) buffer s))

  -- `MMCHSWriteBlocks`
  unfoldable pub write_blocks : Media → ℕ → ℕ → ℕ → S → BlockStatus × S
  write_blocks media lba size buffer s =
      check_request media size buffer s
        (transferred (mmc_bwrite (lba % 2 ^ 32) (size / media.block_size) buffer s))

  -- Whether the block at `dump` ends as a master boot record does.
  abbrev pub is_signed : ℕ → S → Bool
  is_signed dump s = c.byte (dump + 510) s == 0x55 && c.byte (dump + 511) s == 0xAA

  -- The search of `SdCardInitialize` from block `i` on, over `n` blocks, with its buffer at `dump`.
  unfoldable pub find_mbr : ℕ → ℕ → ℕ → S → Option ℕ × S
  find_mbr zero i dump s = (none, s)
  find_mbr (suc n) i dump s =
      let (blk, s') = mmc_bread i 1 dump s in
      let later = find_mbr n (suc i) dump s' in
      if blk == 0 then later else if is_signed dump s' then (some i, s') else later
