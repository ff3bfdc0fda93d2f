-- ===== src/Menu/Dump.antt =====
-- The memory dump: QSD8250Pkg/Application/HtcLeoMenuApp/MemoryTools.c. The file system is a parameter, over a
-- state of the machine.
pub mod Handles
use msm8909pkg.Base.{
  ℕ, ◌^◌, ◌+◌, ◌*◌, Bool, true, false, Option, none, some, List, [], ◌∷◌, ◌++◌, if◌then◌else◌, ◌==◌,
  leb, length,
}

-- `LocateProtocol`, and the functions of the file protocols, with their status. There is one root and
-- one file at a time.
pub record Files (S : Type 0) : Type 0 where
  pub locate_protocol : S → ℕ × S
  pub open_volume : S → ℕ × S
  pub open_file : List ℕ → S → ℕ × S
  pub write_file : ℕ → ℕ → S → ℕ × S
  pub close_file : S → S
  pub close_root : S → S

-- `EFI_ERROR`: the top bit of a status of 32 bits.
abbrev pub efi_error : ℕ → Bool
efi_error status = leb (2 ^ 31) status

module _ {S : Type 0} (f : Files S) where
  -- `ReadMemoryAndWriteToFile` from its last call on, and from the calls before it.
  unfoldable pub write_and_close : ℕ → ℕ → S → ℕ × S
  write_and_close address length s =
      let (status, s') = f.write_file address length s in (status, f.close_root (f.close_file s'))

  unfoldable pub open_and_write : ℕ → ℕ → List ℕ → S → ℕ × S
  open_and_write address length path s =
      let (status, s') = f.open_file path s in
      if efi_error status then (status, f.close_root s') else write_and_close address length s'

  unfoldable pub in_volume : ℕ → ℕ → List ℕ → S → ℕ × S
  in_volume address length path s =
      let (status, s') = f.open_volume s in
      if efi_error status then (status, s') else open_and_write address length path s'

  -- `ReadMemoryAndWriteToFile`
  unfoldable pub read_memory_and_write_to_file : ℕ → ℕ → List ℕ → S → ℕ × S
  read_memory_and_write_to_file address length path s =
      let (status, s') = f.locate_protocol s in
      if efi_error status then (status, s') else in_volume address length path s'

  -- `DumpDmesg`: the path is `\dmesg.txt`.
  unfoldable pub dump_dmesg : S → ℕ × S
  dump_dmesg s =
      read_memory_and_write_to_file 0x2FFC0000 0x40000
        (b'\\' ∷ b'd' ∷ b'm' ∷ b'e' ∷ b's' ∷ b'g' ∷ b'.' ∷ b't' ∷ b'x' ∷ b't' ∷ []) s
