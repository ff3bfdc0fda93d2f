-- ===== src/Pcom/Switch.antt =====
-- The loops of the clients that call until the modem reports success.
use msm8909pkg.Base.{
  and_then, ℕ, zero, suc, ◌≡◌, ◌<◌, ◌∙◌, ap, subst, refl, true, false, Option, none, some, List, [],
  ◌∷◌, ◌++◌, ◌==◌, arith, if_both,
}
use msm8909pkg.Mmio.{Mmio}
use msm8909pkg.Pcom.{
  app_status, pcom_cmd_idle, pcom_cmd_success, pcom_cmd_fail, pcom_vreg_switch_cmd,
  pcom_vreg_set_level_cmd, Reply, word_of,
}
use msm8909pkg.Pcom.Modem.{ModemCall, Modem, Sees, Replies, proc_comm_lem, read-Sees}
use msm8909pkg.Pcom.Clients.{set_until, pcom_vreg_control}

module _ {S : Type 0} (m : Mmio S) (modem : Modem m) where
  -- The modem answers a call with its words.
  abbrev pub Echoes : Type 0
  Echoes =
      (h : List ModemCall) (c : ModemCall)
      → ((modem.answer h c).out1 ≡ c.arg1) × ((modem.answer h c).out2 ≡ c.arg2)

  -- After the calls `h`, the call `c` is refused `k` times and then succeeds.
  abbrev pub Accepts : List ModemCall → ModemCall → ℕ → Type 0
  Accepts h c zero = (modem.answer h c).status ≡ pcom_cmd_success
  Accepts h c (suc k) =
      (((modem.answer h c).status == pcom_cmd_success) ≡ false) × Accepts (h ++ c ∷ []) c k

  -- The calls `h` with `c` made once more than `k` times.
  abbrev pub calls_after : List ModemCall → ModemCall → ℕ → List ModemCall
  calls_after h c zero = h ++ c ∷ []
  calls_after h c (suc k) = calls_after (h ++ c ∷ []) c k

  abbrev Succeeds : List ModemCall → ModemCall → ℕ → Option (ℕ × ℕ × S) → Type 0
  Succeeds h c k none = ⊥
  Succeeds h c k (some (d1, d2, s)) =
      (d1 ≡ c.arg1)
      × (d2 ≡ c.arg2)
      × Sees m modem s (calls_after h c k) pcom_cmd_idle pcom_cmd_success c.arg1 c.arg2

  -- One round of the loop: the call is made, and the words are as they were.
  record Round (h : List ModemCall) (c : ModemCall) (r : Reply S) : Type 0 where
    status_lem : (m.read32 app_status r.world).0 ≡ (modem.answer h c).status
    same1 : word_of r.data1 ≡ c.arg1
    same2 : word_of r.data2 ≡ c.arg2
    sees :
        Sees m modem
          (m.read32 app_status r.world).1
          (h ++ c ∷ [])
          pcom_cmd_idle
          (modem.answer h c).status
          c.arg1
          c.arg2

  round_lem :
      (h : List ModemCall) (c : ModemCall) (r : Reply S)
      → Echoes
      → Replies m modem (some c.arg1) (some c.arg2) (h ++ c ∷ []) (modem.answer h c) r
      → Round h c r
  round_lem h c r echo rep =
      let a = modem.answer h c in
      let (e1, e2) = echo h c in
      record {
        status_lem = modem.read_reg app_status r.world refl ∙ rep.3.status_lem;
        same1 =
            ap word_of rep.1
            ∙ if_both (λ o. word_of o ≡ c.arg1) (a.status == pcom_cmd_fail) refl e1;
        same2 =
            ap word_of rep.2
            ∙ if_both (λ o. word_of o ≡ c.arg2) (a.status == pcom_cmd_fail) refl e2;
        sees =
            subst
              (λ o.
                Sees m modem (m.read32 app_status r.world).1 (h ++ c ∷ []) pcom_cmd_idle a.status
                  c.arg1 o)
              e2
              (subst
                (λ o.
                  Sees m modem (m.read32 app_status r.world).1 (h ++ c ∷ []) pcom_cmd_idle a.status
                    o a.out2)
                e1
                (read-Sees m modem app_status r.world (h ++ c ∷ []) pcom_cmd_idle a.status a.out1
                  a.out2 rep.3));
      }

  set_until-Succeeds :
      (n k tries : ℕ) (c : ModemCall) (s : S) (h : List ModemCall) (st x1 x2 : ℕ)
      → Echoes
      → k < tries
      → Sees m modem s h pcom_cmd_idle st x1 x2
      → Accepts h c k
      → Succeeds h c k (set_until m (suc n) tries c.command c.arg1 c.arg2 s)
  unfolding set_until
  set_until-Succeeds n k zero c s h st x1 x2 echo lt v a = absurd (omega arith)
  set_until-Succeeds n zero (suc tries) c s h st x1 x2 echo lt v a =
      let (r, e, rep) =
        proc_comm_lem m modem n c.command (some c.arg1) (some c.arg2) s h pcom_cmd_idle st x1 x2
          v in
      let b = round_lem h c r echo rep in
      let hit : ((m.read32 app_status r.world).0 == pcom_cmd_success) ≡ true =
        rw (b.status_lem, a) refl in
      rw (e, hit)
        (
          b.same1,
          b.same2,
          subst
              (λ t.
                Sees m modem (m.read32 app_status r.world).1 (h ++ c ∷ []) pcom_cmd_idle t c.arg1
                  c.arg2)
              a b.sees,
        )
  set_until-Succeeds n (suc k) (suc tries) c s h st x1 x2 echo lt v (refused, a) =
      let (r, e, rep) =
        proc_comm_lem m modem n c.command (some c.arg1) (some c.arg2) s h pcom_cmd_idle st x1 x2
          v in
      let b = round_lem h c r echo rep in
      let miss : ((m.read32 app_status r.world).0 == pcom_cmd_success) ≡ false =
        rw b.status_lem refused in
      rw (e, miss, b.same1, b.same2)
        (set_until-Succeeds n k tries c _ (h ++ c ∷ []) (modem.answer h c).status c.arg1 c.arg2 echo
          (omega arith) b.sees a)

  abbrev pub level_call : ℕ → ℕ → ModemCall
  level_call vreg level = record { command = pcom_vreg_set_level_cmd; arg1 = vreg; arg2 = level }

  abbrev pub switch_call : ℕ → ℕ → ModemCall
  switch_call vreg flag = record { command = pcom_vreg_switch_cmd; arg1 = vreg; arg2 = flag }

  abbrev pub Switched : List ModemCall → Option S → Type 0
  Switched h none = ⊥
  Switched h (some s) = modem.calls s ≡ h

  last_state :
      (h : List ModemCall) (c : ModemCall) (j : ℕ) (o : Option (ℕ × ℕ × S))
      → Succeeds h c j o
      → Switched (calls_after h c j) (and_then o λ y. some y.2)
  last_state h c j none k = k
  last_state h c j (some (d1, d2, s)) k = k.2.calls_lem

  switch-Switched :
      (n j tries vreg flag : ℕ) (h : List ModemCall) (st x1 x2 : ℕ) (x : ℕ × ℕ × S)
      → Echoes
      → j < tries
      → Sees m modem x.2 h pcom_cmd_idle st x1 x2
      → Accepts h (switch_call vreg flag) j
      → x.0 ≡ vreg
      → Switched
          (calls_after h (switch_call vreg flag) j)
          (and_then (set_until m (suc n) tries pcom_vreg_switch_cmd x.0 flag x.2) λ y. some y.2)
  switch-Switched n j tries vreg flag h st x1 x2 x echo lt v a e = rw e (
      last_state h (switch_call vreg flag) j _
        (set_until-Succeeds n j tries (switch_call vreg flag) x.2 h st x1 x2 echo lt v a))

  level-Switched :
      (n k j tries vreg level flag : ℕ) (s : S) (h : List ModemCall) (st x1 x2 : ℕ)
      (o : Option (ℕ × ℕ × S))
      → Echoes
      → j < tries
      → Succeeds h (level_call vreg level) k o
      → Accepts (calls_after h (level_call vreg level) k) (switch_call vreg flag) j
      → Switched (calls_after (calls_after h (level_call vreg level) k) (switch_call vreg flag) j) (
          and_then o λ x.
            and_then (set_until m (suc n) tries pcom_vreg_switch_cmd x.0 flag x.2) λ y. some y.2)
  level-Switched n k j tries vreg level flag s h st x1 x2 none echo lt ok a = absurd ok
  level-Switched n k j tries vreg level flag s h st x1 x2 (some x) echo lt ok a =
      switch-Switched n j tries vreg flag (calls_after h (level_call vreg level) k) pcom_cmd_success
        vreg level x echo lt ok.2 a ok.0

  -- A ready modem that answers a call with its words refuses the level `k` times and then takes it, and
  -- after that refuses the switch `j` times and then takes it. If both loops are given more tries than
  -- that, turning a regulator on ends, and has called just this: the level `k + 1` times, and
  -- then the switch, to on, `j + 1` times.
  pub vreg_control_on :
      (n k j tries vreg level state : ℕ) (s : S) (h : List ModemCall) (st x1 x2 : ℕ)
      → Echoes
      → k < tries
      → j < tries
      → (state == 0) ≡ false
      → Sees m modem s h pcom_cmd_idle st x1 x2
      → Accepts h (level_call vreg level) k
      → Accepts (calls_after h (level_call vreg level) k) (switch_call vreg 1) j
      → Switched
          (calls_after (calls_after h (level_call vreg level) k) (switch_call vreg 1) j)
          (pcom_vreg_control m (suc n) tries vreg level state s)
  unfolding pcom_vreg_control
  vreg_control_on n k j tries vreg level state s h st x1 x2 echo lt lt' on v a a' = rw on (
      level-Switched n k j tries vreg level 1 s h st x1 x2 _ echo lt'
        (set_until-Succeeds n k tries (level_call vreg level) s h st x1 x2 echo lt v a) a')
