-- ===== src/Menu/Tests.antt =====
-- Runs of the menu on concrete keys, and the theorems at inputs that meet their hypotheses.
use msm8909pkg.Base.{
  suc, ◌+◌, ◌-◌, ◌^◌, ℕ, ◌≡◌, refl, none, some, List, [], ◌∷◌, Option, map, arith, Every,
}
use mathlib.Core.Option
use msm8909pkg.Menu.Dump.{Files, read_memory_and_write_to_file}
use msm8909pkg.Menu.Dump.Handles.{Counts, read_memory_and_write_to_file-handles}
use msm8909pkg.Menu.Pages.{
  InputKey, scan_up, scan_down, scan_home, menu_loop, first_menu, wait_loop, menu, timeout,
}
use msm8909pkg.Menu.Pages.Shown.{main, drawn, pictures, IsPicture, first_menu-pictures}
use msm8909pkg.Menu.Pages.Waits.{key_of, wait_loop_lem}
use msm8909pkg.Menu.HexInput.{
  empty_input, input_loop, input_key, switch_key, next_char, cycle, previous_char, get_hex_input,
}
use msm8909pkg.Menu.HexInput.Spec
use msm8909pkg.Menu.HexInput.Spec.{text}
use msm8909pkg.Menu.HexInput.Refine.{get_hex_input_refines}
use msm8909pkg.Menu.HexInput.Enter.{dial, windows, power, keys_of, get_hex_input-keys_of}

-- Down to the reboot page, into it, down twice and round, and a call.
abbrev presses : List (Option InputKey)
presses =
    some (scan_up, 0)
    ∷ some (scan_up, 0)
    ∷ some dial
    ∷ none
    ∷ some (scan_up, 0)
    ∷ some dial
    ∷ some (scan_home, 0)
    ∷ some (scan_down, 0)
    ∷ []

first_menu-pictures_example :
    (drawn (menu_loop presses first_menu).1 ≡ pictures presses (main, 0))
    × Every IsPicture (drawn (menu_loop presses first_menu).1)
first_menu-pictures_example = first_menu-pictures presses

-- The back key, the power key, nothing, the back key, the home key.
wait_loop_lem_example :
    wait_loop timeout
      (map (Option.map key_of) (some 3 ∷ some 0 ∷ none ∷ some 3 ∷ some 5 ∷ some 1 ∷ []))
    ≡ (menu, 396, 1)
wait_loop_lem_example =
    wait_loop_lem timeout (some 3 ∷ some 0 ∷ none ∷ some 3 ∷ some 5 ∷ some 1 ∷ [])

-- A round without a key handles the last key once more: one press of the windows key counts to 2.
stale_key :
    get_hex_input (0, 0) (some windows ∷ none ∷ some power ∷ some dial ∷ [])
    ≡ some (text (2 ∷ 0 ∷ 0 ∷ 0 ∷ 0 ∷ 0 ∷ 0 ∷ 0 ∷ []))
unfolding get_hex_input input_loop empty_input input_key switch_key next_char cycle previous_char
stale_key = refl

get_hex_input_refines_example :
    get_hex_input (0, 0) (some windows ∷ none ∷ some power ∷ some dial ∷ [])
    ≡ Option.map text
        (Spec.enter (0, 0) (some windows ∷ none ∷ some power ∷ some dial ∷ []) Spec.zero_number)
get_hex_input_refines_example =
    get_hex_input_refines (0, 0) (some windows ∷ none ∷ some power ∷ some dial ∷ [])

abbrev dmesg : List ℕ
dmesg = 2 ∷ 15 ∷ 15 ∷ 12 ∷ 0 ∷ 0 ∷ 0 ∷ 0 ∷ []

get_hex_input-keys_of_example : get_hex_input (0, 0) (keys_of dmesg) ≡ some (text dmesg)
get_hex_input-keys_of_example =
    get_hex_input-keys_of (0, 0) dmesg refl
      (
        omega arith,
        (
          omega arith,
          (
            omega arith,
            (omega arith, (omega arith, (omega arith, (omega arith, (omega arith, tt))))),
          ),
        ),
      )

-- A volume on which no file can be opened; the state counts the open handles.
abbrev read_only : Files ℕ
read_only = record {
  locate_protocol = λ n. (0, n);
  open_volume = λ n. (0, suc n);
  open_file = λ path n. (2 ^ 31 + 8, n);
  write_file = λ a l n. (0, n);
  close_file = λ n. n - 1;
  close_root = λ n. n - 1;
}

read_only-Counts : Counts read_only (λ n. n)
read_only-Counts = record {
  locate_keeps = λ n. refl;
  volume_adds = λ n. refl;
  file_adds = λ path n. refl;
  write_keeps = λ a l n. refl;
  close_file_takes = λ n s e. omega (arith, e);
  close_root_takes = λ n s e. omega (arith, e);
}

read_memory_and_write_to_file-handles_example :
    (read_memory_and_write_to_file read_only 0x2FFC0000 0x40000 (b'd' ∷ []) 3).1 ≡ 3
read_memory_and_write_to_file-handles_example =
    read_memory_and_write_to_file-handles read_only (λ n. n) read_only-Counts 0x2FFC0000 0x40000
      (b'd' ∷ []) 3
