-- ===== src/Pcom/Modem.antt =====
-- What a modem promises, and what a call of it does.
use msm8909pkg.Base.{
  Bool, ◌||◌, ℕ, suc, ◌≡◌, ◌∙◌, ap, refl, true, false, not, Option, none, some, List, [], ◌∷◌, ◌++◌,
  if◌then◌else◌, ◌==◌, ==_self, Bool-cases, inl, inr,
}
use msm8909pkg.Mmio.{Mmio}
use msm8909pkg.Pcom.{
  app_command, app_status, app_data1, app_data2, mdm_status, msm_a2m_int6, pcom_cmd_idle,
  pcom_cmd_done, pcom_ready, pcom_cmd_fail, Reply, word_of, wait_for, fetch, post, collect,
  proc_comm,
}

pub record ModemCall : Type 0 where
  pub command : ℕ
  pub arg1 : ℕ
  pub arg2 : ℕ

pub record Answer : Type 0 where
  pub status : ℕ
  pub out1 : ℕ
  pub out2 : ℕ

-- The words of the shared memory.
abbrev pub is_mailbox : ℕ → Bool
is_mailbox a =
    a == app_command || a == app_status || a == app_data1 || a == app_data2 || a == mdm_status

-- A modem over the shared memory: its words keep what is written; when the interrupt is raised, the
-- modem takes the call, answers it as the calls before it and it decide, and says that it is done.
pub record Modem {S : Type 0} (m : Mmio S) : Type 0 where
  pub reg : ℕ → S → ℕ
  pub calls : S → List ModemCall
  pub answer : List ModemCall → ModemCall → Answer
  pub read_reg : (a : ℕ) (s : S) → is_mailbox a ≡ true → (m.read32 a s).0 ≡ reg a s
  pub read_keeps : (a b : ℕ) (s : S) → is_mailbox b ≡ true → reg b (m.read32 a s).1 ≡ reg b s
  pub read_calls : (a : ℕ) (s : S) → calls (m.read32 a s).1 ≡ calls s
  pub write_reg :
      (a b v : ℕ) (s : S)
      → (a == msm_a2m_int6) ≡ false
      → is_mailbox b ≡ true
      → reg b (m.write32 a v s) ≡ (if a == b then v else reg b s)
  pub write_calls :
      (a v : ℕ) (s : S) → (a == msm_a2m_int6) ≡ false → calls (m.write32 a v s) ≡ calls s
  pub taken : S → ModemCall
  pub taken_lem :
      (s : S)
      → taken s
        ≡ record { command = reg app_command s; arg1 = reg app_data1 s; arg2 = reg app_data2 s }
  pub raised_calls : (s : S) → calls (m.write32 msm_a2m_int6 1 s) ≡ calls s ++ taken s ∷ []
  pub raised_done : (s : S) → reg app_command (m.write32 msm_a2m_int6 1 s) ≡ pcom_cmd_done
  pub raised_status :
      (s : S) → reg app_status (m.write32 msm_a2m_int6 1 s) ≡ (answer (calls s) (taken s)).status
  pub raised_data1 :
      (s : S) → reg app_data1 (m.write32 msm_a2m_int6 1 s) ≡ (answer (calls s) (taken s)).out1
  pub raised_data2 :
      (s : S) → reg app_data2 (m.write32 msm_a2m_int6 1 s) ≡ (answer (calls s) (taken s)).out2
  pub raised_ready : (s : S) → reg mdm_status (m.write32 msm_a2m_int6 1 s) ≡ reg mdm_status s

-- The word behind a pointer, once it is written.
abbrev pub filled : Option ℕ → ℕ → Option ℕ
filled none v = none
filled (some x) v = some v

module _ {S : Type 0} (m : Mmio S) (modem : Modem m) where
  open modem use {reg, calls, answer}

  -- The shared memory with its calls: what a caller sees.
  pub record Sees (s : S) (h : List ModemCall) (command status data1 data2 : ℕ) : Type 0 where
    pub calls_lem : calls s ≡ h
    pub command_lem : reg app_command s ≡ command
    pub status_lem : reg app_status s ≡ status
    pub data1_lem : reg app_data1 s ≡ data1
    pub data2_lem : reg app_data2 s ≡ data2
    pub ready_lem : reg mdm_status s ≡ pcom_ready

  pub read-Sees :
      (a : ℕ) (s : S) (h : List ModemCall) (c st d1 d2 : ℕ)
      → Sees s h c st d1 d2
      → Sees (m.read32 a s).1 h c st d1 d2
  read-Sees a s h c st d1 d2 v = record {
    calls_lem = modem.read_calls a s ∙ v.calls_lem;
    command_lem = modem.read_keeps a app_command s refl ∙ v.command_lem;
    status_lem = modem.read_keeps a app_status s refl ∙ v.status_lem;
    data1_lem = modem.read_keeps a app_data1 s refl ∙ v.data1_lem;
    data2_lem = modem.read_keeps a app_data2 s refl ∙ v.data2_lem;
    ready_lem = modem.read_keeps a mdm_status s refl ∙ v.ready_lem;
  }

  write-Sees :
      (a x : ℕ) (s : S) (h : List ModemCall) (c st d1 d2 : ℕ)
      → (a == msm_a2m_int6) ≡ false
      → (a == mdm_status) ≡ false
      → Sees s h c st d1 d2
      → Sees
          (m.write32 a x s)
          h
          (if a == app_command then x else c)
          (if a == app_status then x else st)
          (if a == app_data1 then x else d1)
          (if a == app_data2 then x else d2)
  write-Sees a x s h c st d1 d2 ne ne' v = record {
    calls_lem = modem.write_calls a x s ne ∙ v.calls_lem;
    command_lem = rw (modem.write_reg a app_command x s ne refl, v.command_lem) refl;
    status_lem = rw (modem.write_reg a app_status x s ne refl, v.status_lem) refl;
    data1_lem = rw (modem.write_reg a app_data1 x s ne refl, v.data1_lem) refl;
    data2_lem = rw (modem.write_reg a app_data2 x s ne refl, v.data2_lem) refl;
    ready_lem = rw (modem.write_reg a mdm_status x s ne refl, ne', v.ready_lem) refl;
  }

  raise-Sees :
      (s : S) (h : List ModemCall) (c st d1 d2 : ℕ)
      → Sees s h c st d1 d2
      → let call : ModemCall = record { command = c; arg1 = d1; arg2 = d2 } in
        let a = answer h call in
        Sees (m.write32 msm_a2m_int6 1 s) (h ++ call ∷ []) pcom_cmd_done a.status a.out1 a.out2
  raise-Sees s h c st d1 d2 v =
      let call : ModemCall = record { command = c; arg1 = d1; arg2 = d2 } in
      let t : modem.taken s ≡ call =
        modem.taken_lem s ∙ rw (v.command_lem, v.data1_lem, v.data2_lem) refl in
      record {
        calls_lem = rw (modem.raised_calls s, v.calls_lem, t) refl;
        command_lem = modem.raised_done s;
        status_lem = rw (modem.raised_status s, v.calls_lem, t) refl;
        data1_lem = rw (modem.raised_data1 s, v.calls_lem, t) refl;
        data2_lem = rw (modem.raised_data2 s, v.calls_lem, t) refl;
        ready_lem = modem.raised_ready s ∙ v.ready_lem;
      }

  -- A wait for a word that is there ends at once.
  wait-Sees :
      (n a x : ℕ) (s : S)
      → is_mailbox a ≡ true
      → reg a s ≡ x
      → wait_for m (suc n) a x s ≡ some (m.read32 a s).1
  unfolding wait_for
  wait-Sees n a x s k e =
      let hit : ((m.read32 a s).0 == x) ≡ true = rw (modem.read_reg a s k, e) (==_self x) in
      rw hit refl

  post-Sees :
      (cmd : ℕ) (data1 data2 : Option ℕ) (s : S) (h : List ModemCall) (c st d1 d2 : ℕ)
      → Sees s h c st d1 d2
      → let call : ModemCall = record {
        command = cmd;
        arg1 = word_of data1;
        arg2 = word_of data2;
      } in
        let a = answer h call in
        Sees (post m cmd data1 data2 s) (h ++ call ∷ []) pcom_cmd_done a.status a.out1 a.out2
  unfolding post
  post-Sees cmd data1 data2 s h c st d1 d2 v =
      raise-Sees _ h cmd st (word_of data1) (word_of data2) (
        write-Sees app_data2 (word_of data2) _ h cmd st (word_of data1) d2 refl refl (
          write-Sees app_data1 (word_of data1) _ h cmd st d1 d2 refl refl
            (write-Sees app_command cmd s h c st d1 d2 refl refl v)))

  fetch-Sees :
      (a v : ℕ) (o : Option ℕ) (s : S) (h : List ModemCall) (c st d1 d2 : ℕ)
      → is_mailbox a ≡ true
      → reg a s ≡ v
      → Sees s h c st d1 d2
      → ((fetch m a o s).0 ≡ filled o v) × Sees (fetch m a o s).1 h c st d1 d2
  fetch-Sees a v none s h c st d1 d2 b e k = (refl, k)
  fetch-Sees a v (some x) s h c st d1 d2 b e k =
      (ap some (modem.read_reg a s b ∙ e), read-Sees a s h c st d1 d2 k)

  -- What a reply says, and the memory that it leaves.
  abbrev pub Replies : Option ℕ → Option ℕ → List ModemCall → Answer → Reply S → Type 0
  Replies data1 data2 h a r =
      (r.succeeds ≡ not (a.status == pcom_cmd_fail))
      × (r.data1 ≡ (if a.status == pcom_cmd_fail then data1 else filled data1 a.out1))
      × (r.data2 ≡ (if a.status == pcom_cmd_fail then data2 else filled data2 a.out2))
      × Sees r.world h pcom_cmd_idle a.status a.out1 a.out2

  collect-Replies :
      (data1 data2 : Option ℕ) (s : S) (h : List ModemCall) (c : ℕ) (a : Answer)
      → Sees s h c a.status a.out1 a.out2
      → Replies data1 data2 h a (collect m data1 data2 s)
  unfolding collect
  collect-Replies data1 data2 s h c a v =
      let (status, s1) = m.read32 app_status s in
      let v1 = read-Sees app_status s h c a.status a.out1 a.out2 v in
      let f1 =
        fetch-Sees app_data1 a.out1 data1 s1 h c a.status a.out1 a.out2 refl v1.data1_lem v1 in
      let s2 = (fetch m app_data1 data1 s1).1 in
      let f2 =
        fetch-Sees app_data2 a.out2 data2 s2 h c a.status a.out1 a.out2 refl f1.1.data2_lem f1.1 in
      let s3 = (fetch m app_data2 data2 s2).1 in
      let e : status ≡ a.status = modem.read_reg app_status s refl ∙ v.status_lem in
      rw e (elim (Bool-cases (a.status == pcom_cmd_fail)) [
        | inl q ↦ rw q (
          refl,
          refl,
          refl,
          write-Sees app_command pcom_cmd_idle s1 h c a.status a.out1 a.out2 refl refl v1,
        )
        | inr q ↦ rw q (
          refl,
          f1.0,
          f2.0,
          write-Sees app_command pcom_cmd_idle s3 h c a.status a.out1 a.out2 refl refl f2.1,
        )
      ])

  -- A call of a modem that is ready, with the pointers `data1` and `data2`, ends. The modem has taken
  -- this call, after those before it, and no other; the result is -1 exactly where the status is
  -- `PCOM_CMD_FAIL`, and then the words behind the pointers are as they were, and otherwise the words
  -- of the answer; the memory is idle, and the modem is ready again.
  pub proc_comm_lem :
      (n cmd : ℕ) (data1 data2 : Option ℕ) (s : S) (h : List ModemCall) (c st d1 d2 : ℕ)
      → Sees s h c st d1 d2
      → let call : ModemCall = record {
        command = cmd;
        arg1 = word_of data1;
        arg2 = word_of data2;
      } in
        (r : Reply S) × (proc_comm m (suc n) cmd data1 data2 s ≡ some r)
        × Replies data1 data2 (h ++ call ∷ []) (answer h call) r
  unfolding proc_comm
  proc_comm_lem n cmd data1 data2 s h c st d1 d2 v =
      let call : ModemCall = record { command = cmd; arg1 = word_of data1; arg2 = word_of data2 } in
      let a = answer h call in
      let s1 = (m.read32 mdm_status s).1 in
      let s2 = post m cmd data1 data2 s1 in
      let v2 = post-Sees cmd data1 data2 s1 h c st d1 d2 (read-Sees mdm_status s h c st d1 d2 v) in
      let s3 = (m.read32 app_command s2).1 in
      let v3 = read-Sees app_command s2 (h ++ call ∷ []) pcom_cmd_done a.status a.out1 a.out2 v2 in
      (
        collect m data1 data2 s3,
        rw
            (
              wait-Sees n mdm_status pcom_ready s refl v.ready_lem,
              wait-Sees n app_command pcom_cmd_done s2 refl v2.command_lem,
            )
            refl,
        collect-Replies data1 data2 s3 (h ++ call ∷ []) pcom_cmd_done a v3,
      )
