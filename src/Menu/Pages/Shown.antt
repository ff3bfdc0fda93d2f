-- ===== src/Menu/Pages/Shown.antt =====
-- What the menu shows: its pages, with one entry selected, as the keys lead through them.
use Prim.Native.String.{String}
use msm8909pkg.Base.{
  zero, if_both₂, ap₂, subst, sym, ◌∙◌, suc, ℕ, ◌+◌, ◌-◌, ◌%◌, ◌^◌, ◌<◌, ◌≡◌, refl, Option, none,
  some, List, [], ◌∷◌, ◌++◌, replicate, get_elem?, if◌then◌else◌, ◌==◌, arith, Every,
}
use msm8909pkg.Menu.Pages.{
  MenuFunction, MenuEntry, Menu, Line, InputKey, fill_menu, main_menu, open_reboot_menu, draw_menu,
  draw_entries, get_active_menu_entry_length, call_function, call_entry, handle_key,
  handle_key_input, menu_loop, first_menu, zero_entry, disabled_entry, null_function, reset_cold,
  reset_shutdown, main_entries, active_entry,
}

-- The main page before and after the reboot page was open, which leaves other entries past it.
pub data Page : Type 0 where
  main main_again reboot : Page

abbrev pub entries : Page → List MenuEntry
entries main = main_entries ++ replicate 5 zero_entry
entries main_again = main_entries ++ replicate 5 disabled_entry
entries reboot =
    active_entry "Reboot to CLK" null_function
    ∷ active_entry "Reboot" reset_cold
    ∷ active_entry "Shutdown" reset_shutdown
    ∷ replicate 9 disabled_entry

abbrev pub size : Page → ℕ
size main = 7
size main_again = 7
size reboot = 3

-- The page that is shown, and the number of the selected entry.
abbrev pub Place : Type 0
Place = Page × ℕ

abbrev pub IsAt : Menu → Place → Type 0
IsAt m (p, i) = (m.menu_options ≡ entries p) × (m.selected_index ≡ i) × (i < size p)

-- Where a key leads: home to the start of the main page, up and down round the page, return on the
-- sixth entry of the main page to the reboot page.
abbrev home_of : Page → Page
home_of main = main
home_of _ = main_again

abbrev up_of : Place → Place
up_of (p, i) = (p, if i == 0 then size p - 1 else i - 1)

abbrev down_of : Place → Place
down_of (p, i) = (p, if i + 1 == size p then 0 else i + 1)

abbrev enter_of : Place → Place
enter_of (reboot, i) = (reboot, i)
enter_of (p, i) = if i == 5 then (reboot, 0) else (p, i)

abbrev press : InputKey → Place → Place
press (scan, char) x =
    if scan == 5
    then (home_of x.0, 0)
    else if scan == 1
    then up_of x
    else if scan == 2
    then down_of x
    else if scan == 0x17
    then x
    else if char == 13
    then enter_of x
    else x

abbrev pub after_reading : Option InputKey → Place → Place
after_reading none x = x
after_reading (some key) x = press key x

-- The names on a page, as its reader knows them.
abbrev pub names : Page → List String
names reboot = "Reboot to CLK" ∷ "Reboot" ∷ "Shutdown" ∷ []
names _ =
    "Boot default" ∷ "Play Tetris" ∷ "EFI Shell" ∷ "Dump DMESG to sdcard" ∷ "Dump Memory to sdcard"
    ∷ "Reboot Menu" ∷ "Exit" ∷ []

-- The names on consecutive rows from the sixth on, numbered from 1, with the name at `selected` in
-- yellow.
abbrev pub listed : ℕ → ℕ → List String → List Line
listed selected k [] = []
listed selected k (name ∷ more) =
    record { row = 5 + k; number = 1 + k; name = name; is_yellow = k == selected }
    ∷ listed selected (suc k) more

draw_entries-listed : (p : Page) (i : ℕ) → draw_entries i 0 (entries p) ≡ listed i 0 (names p)
unfolding draw_entries
draw_entries-listed main i = refl
draw_entries-listed main_again i = refl
draw_entries-listed reboot i = refl

-- What the rounds show, from a place on.
abbrev pub pictures : List (Option InputKey) → Place → List (List Line)
pictures [] x = []
pictures (r ∷ rs) x = listed x.1 0 (names x.0) ∷ pictures rs (after_reading r x)

counted : (p : Page) → get_active_menu_entry_length (entries p) ≡ size p
unfolding get_active_menu_entry_length
counted main = refl
counted main_again = refl
counted reboot = refl

main_menu-IsAt : (m : Menu) (x : Place) → IsAt m x → IsAt (main_menu m) (home_of x.0, 0)
unfolding main_menu fill_menu
main_menu-IsAt m (main, i) (e, q, h) = (rw e refl, refl, omega arith)
main_menu-IsAt m (main_again, i) (e, q, h) = (rw e refl, refl, omega arith)
main_menu-IsAt m (reboot, i) (e, q, h) = (rw e refl, refl, omega arith)

open_reboot_menu-IsAt : (m : Menu) (x : Place) → IsAt m x → IsAt (open_reboot_menu m) (reboot, 0)
unfolding open_reboot_menu
open_reboot_menu-IsAt m (main, i) (e, q, h) = (rw e refl, refl, omega arith)
open_reboot_menu-IsAt m (main_again, i) (e, q, h) = (rw e refl, refl, omega arith)
open_reboot_menu-IsAt m (reboot, i) (e, q, h) = (rw e refl, refl, omega arith)

-- The menu after the call of an entry.
abbrev entered_menu : Page → ℕ → Menu → Menu
entered_menu reboot i m = m
entered_menu p i m = if i == 5 then open_reboot_menu m else m

-- The calls of the entries: only the sixth of the main page changes the menu.
call_listed :
    (p : Page) (i : ℕ) (m : Menu)
    → i < size p
    → (call_entry (get_elem? (entries p) i) m).0 ≡ entered_menu p i m
unfolding call_function
call_listed main zero m h = refl
call_listed main (suc zero) m h = refl
call_listed main (suc (suc zero)) m h = refl
call_listed main (suc (suc (suc zero))) m h = refl
call_listed main (suc (suc (suc (suc zero)))) m h = refl
call_listed main (suc (suc (suc (suc (suc zero))))) m h = refl
call_listed main (suc (suc (suc (suc (suc (suc zero)))))) m h = refl
call_listed main (suc (suc (suc (suc (suc (suc (suc i))))))) m h = absurd (omega arith)
call_listed main_again zero m h = refl
call_listed main_again (suc zero) m h = refl
call_listed main_again (suc (suc zero)) m h = refl
call_listed main_again (suc (suc (suc zero))) m h = refl
call_listed main_again (suc (suc (suc (suc zero)))) m h = refl
call_listed main_again (suc (suc (suc (suc (suc zero))))) m h = refl
call_listed main_again (suc (suc (suc (suc (suc (suc zero)))))) m h = refl
call_listed main_again (suc (suc (suc (suc (suc (suc (suc i))))))) m h = absurd (omega arith)
call_listed reboot zero m h = refl
call_listed reboot (suc zero) m h = refl
call_listed reboot (suc (suc zero)) m h = refl
call_listed reboot (suc (suc (suc i))) m h = absurd (omega arith)

entered :
    (m : Menu) (p : Page) (i : ℕ)
    → m.menu_options ≡ entries p
    → m.selected_index ≡ i
    → i < size p
    → (call_entry (get_elem? m.menu_options m.selected_index) m).0 ≡ entered_menu p i m
entered m p i e q h = ap₂ (λ es j. (call_entry (get_elem? es j) m).0) e q ∙ call_listed p i m h

enter-IsAt :
    (m : Menu) (x : Place)
    → IsAt m x
    → IsAt (call_entry (get_elem? m.menu_options m.selected_index) m).0 (enter_of x)
enter-IsAt m (main, i) (e, q, h) =
    subst (λ n. IsAt n (enter_of (main, i))) (sym (entered m main i e q h))
      (if_both₂ IsAt (i == 5) (open_reboot_menu-IsAt m (main, i) (e, q, h)) (e, q, h))
enter-IsAt m (main_again, i) (e, q, h) =
    subst (λ n. IsAt n (enter_of (main_again, i))) (sym (entered m main_again i e q h))
      (if_both₂ IsAt (i == 5) (open_reboot_menu-IsAt m (main_again, i) (e, q, h)) (e, q, h))
enter-IsAt m (reboot, i) (e, q, h) =
    subst (λ n. IsAt n (reboot, i)) (sym (entered m reboot i e q h)) (e, q, h)

-- The selection moves round the page.
up_lem :
    (p : Page) (i : ℕ)
    → i < size p
    → ((if i == 0 then (size p + 2 ^ 32 - 1) % 2 ^ 32 else i - 1) ≡ (up_of (p, i)).1)
      × ((up_of (p, i)).1 < size p)
up_lem main i h = (ground arith, ground arith)
up_lem main_again i h = (ground arith, ground arith)
up_lem reboot i h = (ground arith, ground arith)

down_lem :
    (p : Page) (i : ℕ)
    → i < size p
    → ((if i == (size p + 2 ^ 32 - 1) % 2 ^ 32 then 0 else i + 1) ≡ (down_of (p, i)).1)
      × ((down_of (p, i)).1 < size p)
down_lem main i h = (ground arith, ground arith)
down_lem main_again i h = (ground arith, ground arith)
down_lem reboot i h = (ground arith, ground arith)

handle_key-IsAt :
    (key : InputKey) (x : Place) (m : Menu)
    → IsAt m x
    → m.menu_option_count ≡ size x.0
    → IsAt (handle_key key m).0 (press key x)
unfolding handle_key
handle_key-IsAt (scan, char) (p, i) m (e, q, h) n =
    let Ok : Menu × Option MenuFunction → Place → Type 0 = λ r y. IsAt r.0 y in
    let (u, u') = up_lem p i h in
    let (d, d') = down_lem p i h in
    if_both₂ Ok (scan == 5) (main_menu-IsAt m (p, i) (e, q, h)) (
      if_both₂ Ok (scan == 1) (e, rw (n, q) u, u')
        (if_both₂ Ok (scan == 2) (e, rw (n, q) d, d')
          (if_both₂ Ok (scan == 0x17) (e, q, h)
            (if_both₂ Ok (char == 13) (enter-IsAt m (p, i) (e, q, h)) (e, q, h)))))

handle_key_input-IsAt :
    (r : Option InputKey) (x : Place) (m : Menu)
    → IsAt m x
    → m.menu_option_count ≡ size x.0
    → IsAt (handle_key_input r m).0 (after_reading r x)
unfolding handle_key_input
handle_key_input-IsAt none x m v n = v
handle_key_input-IsAt (some key) x m v n = handle_key-IsAt key x m v n

-- The lines that each round draws.
abbrev pub drawn : List (List Line × Option MenuFunction) → List (List Line)
drawn [] = []
drawn ((lines, call) ∷ more) = lines ∷ drawn more

-- A picture of a page with one of its names selected.
abbrev pub IsPicture : List Line → Type 0
IsPicture lines = (p : Page) × (i : ℕ) × (i < size p) × (lines ≡ listed i 0 (names p))

menu_loop-pictures :
    (rs : List (Option InputKey)) (m : Menu) (x : Place)
    → IsAt m x
    → (drawn (menu_loop rs m).1 ≡ pictures rs x) × Every IsPicture (drawn (menu_loop rs m).1)
unfolding menu_loop draw_menu
menu_loop-pictures [] m x v = (refl, tt)
menu_loop-pictures (r ∷ rs) m (p, i) (e, q, h) =
    let m' = record m { menu_option_count = get_active_menu_entry_length m.menu_options } in
    let n : get_active_menu_entry_length m.menu_options ≡ size p = rw e (counted p) in
    let lines : draw_entries m.selected_index 0 m.menu_options ≡ listed i 0 (names p) =
      rw (e, q) (draw_entries-listed p i) in
    let v' = handle_key_input-IsAt r (p, i) m' (e, q, h) n in
    let (more, all) = menu_loop-pictures rs (handle_key_input r m').0 (after_reading r (p, i)) v' in
    (ap₂ (λ l ls. l ∷ ls) lines more, ((p, i, h, lines), all))

-- From the start of the menu on, whatever keys are pressed, each round draws a page: the seven names of
-- the main page or the three of the reboot page, in their order on consecutive rows, numbered from 1,
-- and the selected one, which is on the page, and no other in yellow. The page and the selection
-- follow the keys: home selects the first name of the main page, up and down go round the page,
-- return on the sixth name of the main page leads to the first of the reboot page, and nothing else
-- changes them.
pub first_menu-pictures :
    (rs : List (Option InputKey))
    → (drawn (menu_loop rs first_menu).1 ≡ pictures rs (main, 0))
      × Every IsPicture (drawn (menu_loop rs first_menu).1)
unfolding first_menu fill_menu
first_menu-pictures rs = menu_loop-pictures rs first_menu (main, 0) (refl, refl, omega arith)
