-- ===== src/Pcom/Sample.antt =====
-- A modem as a concrete machine: it refuses the first call, and takes the others.
use msm8909pkg.Base.{ℕ, ◌≡◌, refl, false, List, [], ◌∷◌, ◌++◌, if◌then◌else◌, ◌==◌, length}
use msm8909pkg.Mmio.{Mmio}
use msm8909pkg.Pcom.{app_command, app_status, app_data1, app_data2, mdm_status, msm_a2m_int6}
use msm8909pkg.Pcom.Modem.{ModemCall, Answer, Modem, Sees}

pub record Memory : Type 0 where
  pub word : ℕ → ℕ
  pub taken : List ModemCall

abbrev pub first : Memory → ModemCall
first s = record { command = s.word app_command; arg1 = s.word app_data1; arg2 = s.word app_data2 }

-- `PCOM_CMD_FAIL_CMD_LOCKED`, then `PCOM_CMD_SUCCESS`.
abbrev pub answers : List ModemCall → ModemCall → Answer
answers h c = record { status = if length h == 0 then 9 else 3; out1 = c.arg1; out2 = c.arg2 }

abbrev pub raised : Memory → Memory
raised s = record {
  word = λ b.
      if b == app_command
      then 1
      else if b == app_status
      then (answers s.taken (first s)).status
      else s.word b;
  taken = s.taken ++ first s ∷ [];
}

abbrev pub shared : Mmio Memory
shared = record {
  read32 = λ a s. (s.word a, s);
  write32 = λ a v s.
      if a == msm_a2m_int6
      then raised s
      else record s { word = λ b. if a == b then v else s.word b };
}

pub kept_word :
    (a b v : ℕ) (s : Memory)
    → (a == msm_a2m_int6) ≡ false
    → (shared.write32 a v s).word b ≡ (if a == b then v else s.word b)
kept_word a b v s ne = rw ne refl

pub kept_calls :
    (a v : ℕ) (s : Memory) → (a == msm_a2m_int6) ≡ false → (shared.write32 a v s).taken ≡ s.taken
kept_calls a v s ne = rw ne refl

abbrev pub modem : Modem shared
modem = record {
  reg = λ a s. s.word a;
  calls = λ s. s.taken;
  answer = answers;
  read_reg = λ a s k. refl;
  read_keeps = λ a b s k. refl;
  read_calls = λ a s. refl;
  write_reg = λ a b v s ne k. kept_word a b v s ne;
  write_calls = kept_calls;
  taken = first;
  taken_lem = λ s. refl;
  raised_calls = λ s. refl;
  raised_done = λ s. refl;
  raised_status = λ s. refl;
  raised_data1 = λ s. refl;
  raised_data2 = λ s. refl;
  raised_ready = λ s. refl;
}

abbrev pub memory : Memory
memory = record { word = λ a. if a == mdm_status then 1 else 0; taken = [] }

abbrev pub memory-Sees : Sees shared modem memory [] 0 0 0 0
memory-Sees = record {
  calls_lem = refl;
  command_lem = refl;
  status_lem = refl;
  data1_lem = refl;
  data2_lem = refl;
  ready_lem = refl;
}
