-- ===== src/Keypad/Console/Registry/Handles.antt =====
-- Handles of notifications: registering and unregistering.
use msm8909pkg.Base.{
  ℕ, ◌≡◌, ◌≢◌, refl, ap, true, Option, none, some, List, [], ◌∷◌, ◌++◌, ==_self, arith,
  Option-cases, inl, inr,
}
use msm8909pkg.Keypad.Data.{KeyData, Status, success, invalid_parameter}
use msm8909pkg.Keypad.Console.{Notify, ConsoleIn, is_key_registered}
use msm8909pkg.Keypad.Console.Registry.{
  find_registered, add_notify, register_key_notify, remove_notify, unregister_key_notify,
}

is_key_registered_self : (k : KeyData) → is_key_registered k k ≡ true
unfolding is_key_registered
is_key_registered_self k = ground arith

-- A search that finds nothing finds the entry put at the end.
find_registered-append :
    (ns : List Notify) (k : KeyData) (fn h : ℕ)
    → find_registered ns k fn ≡ none
    → find_registered
        (ns ++ (record { handle = h; key_data = k; key_notification_fn = fn } ∷ []))
        k
        fn
      ≡ some h
unfolding find_registered
find_registered-append [] k fn h e = rw (is_key_registered_self k, ==_self fn)
find_registered-append (n ∷ ns) k fn h e = ground (arith, find_registered-append ns k fn h)

-- No entry of the list has the handle.
abbrev pub IsNew : ℕ → List Notify → Type 0
IsNew h [] = Unit
IsNew h (n ∷ ns) = (n.handle ≢ h) × IsNew h ns

remove_notify-append :
    (ns : List Notify) (n : Notify)
    → IsNew n.handle ns
    → remove_notify (ns ++ (n ∷ [])) n.handle ≡ some ns
unfolding remove_notify
remove_notify-append [] n new = rw (==_self n.handle)
remove_notify-append (m ∷ ns) n new = ground (arith, remove_notify-append ns n new.1)

remove_notify_new : (ns : List Notify) (h : ℕ) → IsNew h ns → remove_notify ns h ≡ none
unfolding remove_notify
remove_notify_new [] h new = refl
remove_notify_new (n ∷ ns) h new = ground (arith, remove_notify_new ns h new.1)

added_found :
    {D : Type 0} (c : ConsoleIn D) (k : KeyData) (fn h : ℕ) (pool : Option ℕ) {c' : ConsoleIn D}
    → find_registered c.notify_list k fn ≡ none
    → add_notify pool k fn c ≡ (success, some h, c')
    → find_registered c'.notify_list k fn ≡ some h
unfolding add_notify
added_found c k fn h none f e = cc
added_found c k fn h (some h0) {c'} f e =
    rw (← ap (λ r. r.2.notify_list) e, find_registered-append c.notify_list k fn h0 f)
      (ap (λ r. r.1) e)

found_found :
    {D : Type 0} (c : ConsoleIn D) (k : KeyData) (fn h h0 : ℕ) {c' : ConsoleIn D}
    → find_registered c.notify_list k fn ≡ some h0
    → ◌≡◌ {A = Status × Option ℕ × ConsoleIn D} (success, some h0, c) (success, some h, c')
    → find_registered c'.notify_list k fn ≡ some h
found_found {D} c k fn h h0 f e = rw (← ap (λ r. r.2.notify_list) e, f, ap (λ r. r.1) e)

module _ {D : Type 0} (c : ConsoleIn D) (k : KeyData) (fn h : ℕ) where
  registered_found :
      (pool : Option ℕ) {c' : ConsoleIn D}
      → register_key_notify pool (some k) (some fn) true c ≡ (success, some h, c')
      → find_registered c'.notify_list k fn ≡ some h
  unfolding register_key_notify
  registered_found pool e = elim (Option-cases (find_registered c.notify_list k fn)) [
    | inl new ↦ added_found c k fn h pool new (rw new at e)
    | inr (h0, old) ↦ found_found c k fn h h0 old (rw old at e)
  ]

  -- A key and a function that are registered and then registered again get the same handle, and the
  -- second call changes nothing, whether or not there is memory for it.
  pub register_twice :
      (pool again : Option ℕ) {c' : ConsoleIn D}
      → register_key_notify pool (some k) (some fn) true c ≡ (success, some h, c')
      → register_key_notify again (some k) (some fn) true c' ≡ (success, some h, c')
  unfolding register_key_notify
  register_twice pool again e = rw (registered_found pool e)

  -- Registering a new key and function at a fresh address, and unregistering the handle that comes
  -- back, gives the state before; the handle is then refused.
  pub unregister-register :
      find_registered c.notify_list k fn ≡ none
      → IsNew h c.notify_list
      → let (s, handle, c') = register_key_notify (some h) (some k) (some fn) true c in
        (s ≡ success)
        × (unregister_key_notify handle c' ≡ (success, c))
        × (unregister_key_notify handle c ≡ (invalid_parameter, c))
  unfolding register_key_notify unregister_key_notify
  unregister-register f new = rw f (
    refl,
    rw (
        remove_notify-append c.notify_list
          (record { handle = h; key_data = k; key_notification_fn = fn }) new),
    rw (remove_notify_new c.notify_list h new),
  )
