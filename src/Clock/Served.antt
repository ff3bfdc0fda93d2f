-- ===== src/Clock/Served.antt =====
-- The clocks of the driver, as those who ask for them see them.
use msm8909pkg.Base.{
  ℕ, suc, ◌<◌, ◌≡◌, ◌∙◌, sym, ap, subst, refl, true, Option, none, some, and_then, List, [], ◌∷◌,
  ◌++◌, if◌then◌else◌, ◌==◌, ltb, arith, if_both, if_split, Every, Bool-cases, ==_iff, inl, inr,
}
use mathlib.Core.List.{append_assoc, append-nil}
use msm8909pkg.Mmio.{Mmio}
use msm8909pkg.Pcom.{pcom_cmd_idle, pcom_cmd_fail, word_of}
use msm8909pkg.Pcom.Modem.{ModemCall, Modem, Sees, proc_comm_lem}
use msm8909pkg.Clock.Speeds.{wanted, speed_of, choose_speed-wanted, no_speed}
use msm8909pkg.Clock.Driver.{
  fill_clocks_lookup, nr_clks, no_clock, sec_enable, sec_disable, sec_sel_speed,
  sec_get_clk_freq_khz, Clocks, Choice, speed_no, as_it_is, unknown, choose_speed, call_clock,
  chosen, in_table, clk_set_rate, clk_get_rate, clk_enable, clk_disable, Request, enable, disable,
  set_rate, get_rate, perform, perform_all,
}

abbrev pub call : ℕ → ℕ → ℕ → ModemCall
call cmd x y = record { command = cmd; arg1 = x; arg2 = y }

abbrev pub speed_call : Option ℕ → ℕ → List ModemCall
speed_call none n = []
speed_call (some v) n = call sec_sel_speed n v ∷ []

abbrev known : ℕ → List ModemCall → List ModemCall
known n calls = if n == no_clock then [] else calls

-- The calls that a request should make, with the modem's numbers of the clocks from the table `t`.
abbrev pub calls_of : (ℕ → ℕ) → Request → List ModemCall
calls_of t (enable id) = known (t id) (call sec_enable (t id) 0 ∷ [])
calls_of t (disable id) = known (t id) (call sec_disable (t id) 0 ∷ [])
calls_of t (set_rate id rate) = known (t id) (speed_call (wanted id rate) (t id))
calls_of t (get_rate id) = known (t id) (call sec_get_clk_freq_khz (t id) 0 ∷ [])

abbrev pub all_calls : (ℕ → ℕ) → List Request → List ModemCall
all_calls t [] = []
all_calls t (r ∷ rs) = calls_of t r ++ all_calls t rs

abbrev pub InRange : Request → Type 0
InRange (enable id) = id < nr_clks
InRange (disable id) = id < nr_clks
InRange (set_rate id rate) = id < nr_clks
InRange (get_rate id) = id < nr_clks

module _ {S : Type 0} (m : Mmio S) (modem : Modem m) where
  -- The modem leaves the first word of a call as it is.
  abbrev pub KeepsFirst : Type 0
  KeepsFirst = (h : List ModemCall) (c : ModemCall) → (modem.answer h c).out1 ≡ c.arg1

  -- The modem is ready and has taken the calls `h`; the driver's table is `t`.
  pub record Serves (t : ℕ → ℕ) (h : List ModemCall) (c : Clocks S) : Type 0 where
    pub table : (i : ℕ) → c.lookup i ≡ t i
    pub status : ℕ
    pub data1 : ℕ
    pub data2 : ℕ
    pub sees : Sees m modem c.world h pcom_cmd_idle status data1 data2

  abbrev Called : {A : Type 0} → (ℕ → ℕ) → List ModemCall → Option (A × Clocks S) → Type 0
  Called t h none = ⊥
  Called t h (some (v, c)) = Serves t h c

  call_clock-Called :
      (n cmd id : ℕ) (data2 : Option ℕ) (t : ℕ → ℕ) (h : List ModemCall) (c : Clocks S)
      → KeepsFirst
      → Serves t h c
      → Called t (h ++ call cmd (t id) (word_of data2) ∷ []) (call_clock m (suc n) cmd id data2 c)
  unfolding call_clock
  call_clock-Called n cmd id data2 t h c keeps v =
      let k = call cmd (c.lookup id) (word_of data2) in
      let (r, e, rep) =
        proc_comm_lem m modem n cmd (some (c.lookup id)) data2 c.world h pcom_cmd_idle v.status
          v.data1 v.data2 v.sees in
      let a = modem.answer h k in
      let same : word_of r.data1 ≡ c.lookup id =
        ap word_of rep.1
        ∙ if_both (λ o. word_of o ≡ c.lookup id) (a.status == pcom_cmd_fail) refl (keeps h k) in
      rw e (record {
        table = λ i.
            if_split (λ x. x ≡ t i) (i == id)
              (λ q. same ∙ ap c.lookup (sym ((==_iff i id).0 q)) ∙ v.table i) (λ q. v.table i);
        status = a.status;
        data1 = a.out1;
        data2 = a.out2;
        sees = rw (← v.table id) rep.3;
      })

  none-Called :
      {A : Type 0} (t : ℕ → ℕ) (h : List ModemCall) (c : Clocks S) (v : A)
      → Serves t h c
      → Called t (h ++ []) (some (v, c))
  none-Called t h c v k = subst (λ l. Serves t l c) (sym (append-nil h)) k

  -- What is done with the words that a call leaves.
  map-Called :
      {A B : Type 0} (t : ℕ → ℕ) (h : List ModemCall) (o : Option (A × Clocks S))
      (f : A × Clocks S → B)
      → Called t h o
      → Called t h (and_then o λ x. some (f x, x.1))
  map-Called t h none f k = k
  map-Called t h (some x) f k = k

  -- A request for a clock that the modem may not know.
  known-Called :
      (id cmd v : ℕ) (t : ℕ → ℕ) (h : List ModemCall) (c : Clocks S) (o : Option (ℕ × Clocks S))
      → id < nr_clks
      → Serves t h c
      → Called t (h ++ call cmd (t id) 0 ∷ []) o
      → Called t
          (h ++ known (t id) (call cmd (t id) 0 ∷ []))
          (in_table m 0 id (if c.lookup id == no_clock then some (v, c) else o))
  known-Called id cmd v t h c o lt k called =
      let inside : ltb id nr_clks ≡ true = ground arith in
      rw (inside, k.table id)
        (elim (Bool-cases (t id == no_clock)) [
          | inl q ↦ rw q (none-Called t h c v k)
          | inr q ↦ rw q called
        ])

  chosen-Called :
      (n id : ℕ) (x : Choice) (t : ℕ → ℕ) (h : List ModemCall) (c : Clocks S)
      → KeepsFirst
      → Serves t h c
      → Called t (h ++ speed_call (speed_of x) (t id)) (chosen m (suc n) x id c)
  chosen-Called n id (speed_no v) t h c keeps k =
      map-Called t _ (call_clock m (suc n) sec_sel_speed id (some v) c) (λ y. 0)
        (call_clock-Called n sec_sel_speed id (some v) t h c keeps k)
  chosen-Called n id as_it_is t h c keeps k = none-Called {A = ℕ} t h c 0 k
  chosen-Called n id unknown t h c keeps k = none-Called {A = ℕ} t h c no_clock k

  -- A clock of the driver's table has a number wherever it has speeds.
  known-speeds :
      (id rate : ℕ)
      → known (fill_clocks_lookup id) (speed_call (wanted id rate) (fill_clocks_lookup id))
        ≡ speed_call (speed_of (choose_speed id rate)) (fill_clocks_lookup id)
  known-speeds id rate =
      rw (choose_speed-wanted id rate) (elim (Bool-cases (fill_clocks_lookup id == no_clock)) [
        | inl e ↦ rw (e, no_speed id rate e) refl
        | inr e ↦ rw e refl
      ])

  perform-Called :
      (n : ℕ) (r : Request) (h : List ModemCall) (c : Clocks S)
      → KeepsFirst
      → InRange r
      → Serves fill_clocks_lookup h c
      → Called fill_clocks_lookup (h ++ calls_of fill_clocks_lookup r) (perform m (suc n) r c)
  unfolding perform clk_enable clk_disable clk_set_rate clk_get_rate
  perform-Called n (enable id) h c keeps lt k =
      known-Called id sec_enable no_clock fill_clocks_lookup h c _ lt k (
        map-Called fill_clocks_lookup _ (call_clock m (suc n) sec_enable id none c)
          (λ x. x.1.lookup id)
          (call_clock-Called n sec_enable id none fill_clocks_lookup h c keeps k))
  perform-Called n (disable id) h c keeps lt k =
      known-Called id sec_disable 0 fill_clocks_lookup h c _ lt k (
        map-Called fill_clocks_lookup _ (call_clock m (suc n) sec_disable id none c) (λ x. 0)
          (call_clock-Called n sec_disable id none fill_clocks_lookup h c keeps k))
  perform-Called n (set_rate id rate) h c keeps lt k =
      subst (λ l. Called fill_clocks_lookup (h ++ l) (chosen m (suc n) (choose_speed id rate) id c))
        (sym (known-speeds id rate))
        (chosen-Called n id (choose_speed id rate) fill_clocks_lookup h c keeps k)
  perform-Called n (get_rate id) h c keeps lt k =
      known-Called id sec_get_clk_freq_khz (if id == 26 then 64000000 else no_clock)
        fill_clocks_lookup h c _ lt k
        (map-Called fill_clocks_lookup _ (call_clock m (suc n) sec_get_clk_freq_khz id (some 0) c)
          (λ x. word_of x.0)
          (call_clock-Called n sec_get_clk_freq_khz id (some 0) fill_clocks_lookup h c keeps k))

  -- The requests have ended, and the modem has taken these calls.
  abbrev pub AllServed : List ModemCall → Option (Clocks S) → Type 0
  AllServed h none = ⊥
  AllServed h (some c) = modem.calls c.world ≡ h

  then-Called :
      (n : ℕ) (rs : List Request) (t : ℕ → ℕ) (h : List ModemCall) (calls : List ModemCall)
      (o : Option (ℕ × Clocks S))
      → Called t h o
      → ((c : Clocks S) → Serves t h c → AllServed (h ++ calls) (perform_all m (suc n) rs c))
      → AllServed (h ++ calls) (and_then o λ x. perform_all m (suc n) rs x.1)
  then-Called n rs t h calls none k f = k
  then-Called n rs t h calls (some x) k f = f x.1 k

  -- With a modem that is ready and leaves the first word of each call as it is, and the table that
  -- `FillClocksLookup` fills: every sequence of requests for clocks within the table ends. The calls that
  -- the modem has taken are those of the requests, in their order, with the modem's number of each clock,
  -- and none for a clock that has no number. A rate asks for the speed that is one more than the number
  -- of the clock's limits below it, on the two clocks without limits that have speeds for the one that
  -- is listed for the rate; where there is none, no call is made.
  pub perform_all-AllServed :
      (n : ℕ) (rs : List Request) (h : List ModemCall) (c : Clocks S)
      → KeepsFirst
      → Every InRange rs
      → Serves fill_clocks_lookup h c
      → AllServed (h ++ all_calls fill_clocks_lookup rs) (perform_all m (suc n) rs c)
  unfolding perform_all
  perform_all-AllServed n [] h c keeps v k = k.sees.calls_lem ∙ sym (append-nil h)
  perform_all-AllServed n (r ∷ rs) h c keeps (lt, v) k =
      let t = fill_clocks_lookup in
      subst (λ l. AllServed l (and_then (perform m (suc n) r c) λ x. perform_all m (suc n) rs x.1))
        (append_assoc h (calls_of t r) (all_calls t rs))
        (then-Called n rs t (h ++ calls_of t r) (all_calls t rs) (perform m (suc n) r c)
          (perform-Called n r h c keeps lt k)
          (λ c' k'. perform_all-AllServed n rs (h ++ calls_of t r) c' keeps v k'))
