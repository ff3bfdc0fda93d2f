-- ===== src/Serial/InMemory.antt =====
-- The log in memory: QSD8250Pkg/Library/InMemorySerialPortLib/InMemorySerialPortLib.c. The bytes from
-- `PcdPstoreAddress` on are a function of their offsets; the cache is left out.
pub mod Recent
use msm8909pkg.Base.{ℕ, ◌+◌, Bool, false, List, [], ◌∷◌, length, if◌then◌else◌, ◌==◌, leb}

-- `offset` of `mem_putchar`, and the memory.
pub record Log : Type 0 where
  pub offset : ℕ
  pub memory : ℕ → ℕ

-- `mem_putchar`; `size` is `PcdPstoreSize`.
unfoldable pub mem_putchar : ℕ → ℕ → Log → Log
mem_putchar size c s =
    let next = s.offset + 1 in
    record {
      offset = if leb size next then 0 else next;
      memory = λ o. if o == s.offset then c else s.memory o;
    }

-- The loop of `SerialPortWrite`.
unfoldable pub write_loop : ℕ → List ℕ → Log → Log
write_loop size [] s = s
write_loop size (b ∷ bs) s = write_loop size bs (mem_putchar size b s)

-- `SerialPortWrite`, `SerialPortRead` and `SerialPortPoll`: the log is never read.
unfoldable pub serial_port_write : ℕ → List ℕ → Log → ℕ × Log
serial_port_write size buffer s = (length buffer, write_loop size buffer s)

unfoldable pub serial_port_read : ℕ → Log → List ℕ × Log
serial_port_read n s = ([], s)

unfoldable pub serial_port_poll : Log → Bool
serial_port_poll s = false

-- `PcdPstoreSize`, as QSD8250Pkg/QSD8250Pkg.dec has it.
abbrev pub pstore_size : ℕ
pstore_size = 0x200000
