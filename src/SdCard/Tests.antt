-- ===== src/SdCard/Tests.antt =====
-- A card of plain memory, whose blocks can all be read and written.
use msm8909pkg.Base.{
  Bool, true, false, not, ℕ, ◌+◌, ◌-◌, ◌<◌, ◌≤◌, ◌≡◌, ◌≢◌, refl, if◌then◌else◌, ◌&&◌, ◌==◌, ltb,
  arith,
}
use msm8909pkg.SdCard.{Card, Media, block_bytes, read_blocks, write_blocks, find_mbr, searched}
use msm8909pkg.SdCard.Blocks.{Stores, ReadFrom, read_blocks-ReadFrom}
use msm8909pkg.SdCard.Written.{Works, ReadBack, write_blocks-read_blocks}
use msm8909pkg.SdCard.Mbr.{Found, find_mbr-Found}

record Plain : Type 0 where
  memory : ℕ → ℕ
  blocks : ℕ → ℕ → ℕ

abbrev is_within : ℕ → ℕ → Bool
is_within dst a = not (ltb a dst) && ltb a (dst + block_bytes)

abbrev filled_with : ℕ → ℕ → Plain → Plain
filled_with nr dst s = record s {
  memory = λ a. if is_within dst a then s.blocks nr (a - dst) else s.memory a;
}

abbrev card : Card Plain
card = record {
  read_a_block = λ nr dst s. (true, filled_with nr dst s);
  write_a_block = λ nr src s.
      (true, record s { blocks = λ b i. if b == nr then s.memory (src + i) else s.blocks b i });
  byte = λ a s. s.memory a;
}

abbrev every : ℕ → Bool
every b = true

inside_byte :
    (nr dst i : ℕ) (s : Plain)
    → i < block_bytes
    → (if is_within dst (dst + i) then s.blocks nr (dst + i - dst) else s.memory (dst + i))
      ≡ s.blocks nr i
inside_byte nr dst i s h =
    let e : is_within dst (dst + i) ≡ true = ground arith in
    let e' : dst + i - dst ≡ i = omega arith in rw (e, e') refl

below_byte :
    (nr dst a : ℕ) (s : Plain)
    → a < dst
    → (if is_within dst a then s.blocks nr (a - dst) else s.memory a) ≡ s.memory a
below_byte nr dst a s h = let e : is_within dst a ≡ false = ground arith in rw e refl

above_byte :
    (nr dst a : ℕ) (s : Plain)
    → dst + block_bytes ≤ a
    → (if is_within dst a then s.blocks nr (a - dst) else s.memory a) ≡ s.memory a
above_byte nr dst a s h = let e : is_within dst a ≡ false = ground arith in rw e refl

other_block :
    (nr src b i : ℕ) (s : Plain)
    → b ≢ nr
    → (if b == nr then s.memory (src + i) else s.blocks b i) ≡ s.blocks b i
other_block nr src b i s ne = ground arith

same_block :
    (nr src i : ℕ) (s : Plain)
    → (if nr == nr then s.memory (src + i) else s.blocks nr i) ≡ s.memory (src + i)
same_block nr src i s = ground arith

abbrev card-Stores : Stores card
card-Stores = record {
  block = λ b i s. s.blocks b i;
  read_ok = λ nr dst i s ok h. inside_byte nr dst i s h;
  read_below = λ nr dst a s h. below_byte nr dst a s h;
  read_above = λ nr dst a s h. above_byte nr dst a s h;
  read_card = λ nr dst b i s. refl;
  write_ok = λ nr src i s ok h. same_block nr src i s;
  write_other = λ nr src b i s ne. other_block nr src b i s ne;
  write_memory = λ nr src a s. refl;
}

abbrev card-Works : Works card
card-Works = record { reads = λ nr dst s. refl; writes = λ nr src s. refl }

abbrev media : Media
media = record { block_size = 512; last_block = 1023 }

-- Block 2 ends as a master boot record does.
abbrev plain : Plain
plain = record {
  memory = λ a. a;
  blocks = λ b i. if b == 2 && i == 510 then 0x55 else if b == 2 && i == 511 then 0xAA else b + i;
}

read_blocks-ReadFrom_example :
    ReadFrom card card-Stores 2 7 4096 plain (read_blocks card media 7 1024 4096 plain)
read_blocks-ReadFrom_example =
    read_blocks-ReadFrom card card-Stores media 1 7 4096 plain refl (omega arith) (omega arith)
      (omega arith)

write_blocks-read_blocks_example :
    let w = write_blocks card media 7 1024 4096 plain in
    ReadBack card card-Stores 2 4096 8192 plain w (read_blocks card media 7 1024 8192 w.1)
write_blocks-read_blocks_example =
    write_blocks-read_blocks card card-Stores media 1 7 4096 8192 plain card-Works refl
      (omega arith) (omega arith) (omega arith) (omega arith) (omega arith)

find_mbr-Found_example :
    Found card card-Stores every 51 0 plain (find_mbr card (searched media) 0 65536 plain).0
find_mbr-Found_example = find_mbr-Found card card-Stores every 51 0 65536 plain (λ nr dst t. refl)
