-- ===== src/Keypad/Device/Polling.antt =====
-- What the poll of the keypad device keeps, and what it reports.
use msm8909pkg.Base.{
  ℕ, ◌≤◌, ◌≡◌, refl, false, not, ◌&&◌, Option, none, some, List, [], ◌∷◌, arith, length,
  length-append, Every, Every-append, if_both, if◌then◌else◌,
}
use msm8909pkg.Keypad.Data.{KeyData, is_partial_key}
use msm8909pkg.Keypad.Context.{KeyContext, initialize_key_context, update_key_status}
use msm8909pkg.Keypad.Context.Invariant.{IsConsistent, Reportable, update_key_status-IsConsistent}
use msm8909pkg.Keypad.Device.Wiring.{KeyContextPrivate, reset_keys, each_with}
use msm8909pkg.Keypad.Device.Poll.{
  Board, Shared, Device, is_pressed, update_key, poll_key, poll_keys, get_keys, reset,
  enable_keypad_led_with_timer,
}

abbrev pub IsWhole : KeyData → Type 0
IsWhole k = is_partial_key k ≡ false

-- A key's state machine is consistent, and the key that it reports is no partial keystroke.
abbrev pub IsReady : KeyContextPrivate → Type 0
IsReady k = IsConsistent k.efi_key_context × IsWhole k.efi_key_context.key_data

Reportable-IsWhole :
    (c : KeyContext) (out : List KeyData)
    → IsWhole c.key_data
    → Reportable c out
    → Every IsWhole out × (length out ≤ 1)
Reportable-IsWhole c [] w r = ground arith
Reportable-IsWhole c (k ∷ []) w r = ground arith
Reportable-IsWhole c (k ∷ l ∷ ks) w r = ground arith

-- What a round of the poll may do to a key.
abbrev Polled : {S : Type 0} → KeyContextPrivate × Shared S × List KeyData → Type 0
Polled (k, g, out) = IsReady k × Every IsWhole out × (length out ≤ 1)

module _ {S : Type 0} (b : Board S) where
  update_key-Polled :
      (k : KeyContextPrivate) (delta : ℕ) (g : Shared S) (read : Option (ℕ × S))
      → IsReady k
      → Polled (update_key b k delta g read)
  unfolding update_key
  update_key-Polled k delta g none (v, w) = ((v, w), tt, omega arith)
  update_key-Polled k delta g (some (status, s)) (v, w) =
      let down = is_pressed status k.active_low in
      let g' = record g { world = s } in
      let maps =
        (if down && k.enable_key_pad_led then enable_keypad_led_with_timer b g' else g').bitmaps in
      let (v', same, r) = update_key_status-IsConsistent maps k.efi_key_context down delta v in
      let out = (update_key_status maps k.efi_key_context down delta).2 in
      let (whole, few) = Reportable-IsWhole k.efi_key_context out w r in
      ((v', rw same w), whole, few)

  poll_key-Polled :
      (k : KeyContextPrivate) (delta : ℕ) (g : Shared S) → IsReady k → Polled (poll_key b k delta g)
  unfolding poll_key
  poll_key-Polled k delta g v =
      if_both Polled (not k.is_valid) (v, tt, omega arith) (update_key-Polled k delta g _ v)

  pub poll_keys-IsReady :
      (ks : List KeyContextPrivate) (delta : ℕ) (g : Shared S)
      → Every IsReady ks
      → let (ks', g', out) = poll_keys b ks delta g in
        Every IsReady ks' × (length ks' ≡ length ks) × Every IsWhole out × (length out ≤ length ks)
  unfolding poll_keys
  poll_keys-IsReady [] delta g v = (tt, refl, tt, omega arith)
  poll_keys-IsReady (k ∷ ks) delta g (v, vs) =
      let (v', whole, few) = poll_key-Polled k delta g v in
      let (k', g', out) = poll_key b k delta g in
      let (vs', same, whole', few') = poll_keys-IsReady ks delta g' vs in
      let out' = (poll_keys b ks delta g').2 in
      (
        (v', vs'),
        omega (arith, same),
        Every-append IsWhole out out' whole whole',
        omega (arith, length-append out out'),
      )

-- A reset makes every key ready.
each_with-IsReady :
    (fs : List (KeyContextPrivate → KeyContextPrivate)) (ks : List KeyContextPrivate)
    → Every (λ f. (k : KeyContextPrivate) → IsReady (f k)) fs
    → length ks ≤ length fs
    → Every IsReady (each_with fs ks) × (length (each_with fs ks) ≡ length ks)
each_with-IsReady fs [] good h = (tt, refl)
each_with-IsReady [] (k ∷ ks) good h = absurd (omega arith)
each_with-IsReady (f ∷ fs) (k ∷ ks) (good, more) h =
    let (v, same) = each_with-IsReady fs ks more (omega arith) in ((good k, v), omega (arith, same))

fresh-IsReady :
    (d : KeyData)
    → is_partial_key d ≡ false
    → IsConsistent (record initialize_key_context { key_data = d })
unfolding initialize_key_context
fresh-IsReady d e = record { flags = (refl, refl); clock = omega arith }

pub reset_keys-IsReady :
    (ks : List KeyContextPrivate)
    → length ks ≤ 7
    → Every IsReady (reset_keys ks) × (length (reset_keys ks) ≡ length ks)
unfolding reset_keys initialize_key_context
reset_keys-IsReady ks h =
    each_with-IsReady _ ks
      (
        (λ k. (fresh-IsReady _ refl, refl)),
        (
          (λ k. (fresh-IsReady _ refl, refl)),
          (
            (λ k. (fresh-IsReady _ refl, refl)),
            (
              (λ k. (fresh-IsReady _ refl, refl)),
              (
                (λ k. (fresh-IsReady _ refl, refl)),
                ((λ k. (fresh-IsReady _ refl, refl)), ((λ k. (fresh-IsReady _ refl, refl)), tt)),
              ),
            ),
          ),
        ),
      )
      h

-- Polls one after the other, each with the time since the one before it and with what has happened
-- to the machine in between: the device, and what each poll pushes.
unfoldable pub polls :
    {S : Type 0} → Board S → List (ℕ × (S → S)) → Device S → Device S × List (List KeyData)
polls b [] d = (d, [])
polls b ((delta, change) ∷ rounds) d =
    let shared = record d.shared { world = change d.shared.world } in
    let (d', out) = get_keys b (record d { shared = shared }) delta in
    let (d'', outs) = polls b rounds d' in (d'', out ∷ outs)

polls-IsReady :
    {S : Type 0} (b : Board S) (rounds : List (ℕ × (S → S))) (d : Device S)
    → Every IsReady d.keys
    → length d.keys ≡ 7
    → let (d', outs) = polls b rounds d in
      Every IsReady d'.keys
      × (length d'.keys ≡ 7)
      × Every (λ out. Every IsWhole out × (length out ≤ 7)) outs
unfolding polls get_keys
polls-IsReady b [] d v n = (v, n, tt)
polls-IsReady b ((delta, change) ∷ rounds) d v n =
    let g = record d.shared { world = change d.shared.world } in
    let (v', same, whole, few) = poll_keys-IsReady b d.keys delta g v in
    let d' = (get_keys b (record d { shared = g }) delta).0 in
    let (v'', n', more) = polls-IsReady b rounds d' v' (omega (arith, same)) in
    (v'', n', ((whole, omega arith), more))

-- From a reset on, whatever the pins read and whatever time passes between the polls: the state
-- machines of the seven keys stay consistent, and each poll pushes at most seven keys, none of which
-- is a partial keystroke.
pub polls-reset-IsReady :
    {S : Type 0} (b : Board S) (rounds : List (ℕ × (S → S))) (d : Device S)
    → length d.keys ≡ 7
    → let (d', outs) = polls b rounds (reset d) in
      Every IsReady d'.keys
      × (length d'.keys ≡ 7)
      × Every (λ out. Every IsWhole out × (length out ≤ 7)) outs
unfolding reset
polls-reset-IsReady b rounds d n =
    let (v, same) = reset_keys-IsReady d.keys (omega arith) in
    polls-IsReady b rounds (reset d) v (omega (arith, same))
