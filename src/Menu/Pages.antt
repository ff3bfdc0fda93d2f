-- ===== src/Menu/Pages.antt =====
-- The menu of QSD8250Pkg/Application/HtcLeoMenuApp/menu.c: its two pages, the selection, the keys, and
-- the wait before it starts. Calls into other programs and services are listed, not run.
pub mod Shown
pub mod Waits
use Prim.Native.String.{String}
use msm8909pkg.Base.{
  ℕ, zero, suc, ◌+◌, ◌-◌, ◌%◌, ◌^◌, Bool, true, false, Option, none, some, List, [], ◌∷◌, replicate,
  set, get_elem?, if◌then◌else◌, ◌==◌, ltb,
}

-- The functions of the entries.
pub data MenuFunction : Type 0 where
  boot_default start_tetris start_shell dump_dmesg dump_memory2_sdcard reboot_menu exit_menu
        null_function reset_cold reset_shutdown :
      MenuFunction

-- `MenuEntry`; a `Function` that is NULL is `none`.
pub record MenuEntry : Type 0 where
  pub name : String
  pub is_active : Bool
  pub function : Option MenuFunction

-- `MAX_OPTIONS_COUNT`
abbrev pub max_options_count : ℕ
max_options_count = 12

-- `MenuOptions`, `MenuOptionCount` and `SelectedIndex`.
pub record Menu : Type 0 where
  pub menu_options : List MenuEntry
  pub menu_option_count : ℕ
  pub selected_index : ℕ

-- An entry of static memory.
abbrev pub zero_entry : MenuEntry
zero_entry = record { name = ""; is_active = false; function = none }

abbrev active_entry : String → MenuFunction → MenuEntry
active_entry name f = record { name = name; is_active = true; function = some f }

abbrev pub disabled_entry : MenuEntry
disabled_entry = record { name = ""; is_active = false; function = some null_function }

-- The entries of a list are written from an index on.
abbrev write_from : ℕ → List MenuEntry → List MenuEntry → List MenuEntry
write_from i [] options = options
write_from i (e ∷ es) options = write_from (suc i) es (set options i e)

abbrev main_entries : List MenuEntry
main_entries =
    active_entry "Boot default" boot_default
    ∷ active_entry "Play Tetris" start_tetris
    ∷ active_entry "EFI Shell" start_shell
    ∷ active_entry "Dump DMESG to sdcard" dump_dmesg
    ∷ active_entry "Dump Memory to sdcard" dump_memory2_sdcard
    ∷ active_entry "Reboot Menu" reboot_menu
    ∷ active_entry "Exit" exit_menu
    ∷ []

-- `FillMenu`
unfoldable pub fill_menu : Menu → Menu
fill_menu m = record m { menu_options = write_from 0 main_entries m.menu_options }

-- `MainMenu`
unfoldable pub main_menu : Menu → Menu
main_menu m = fill_menu (record m { selected_index = 0 })

-- The `do` loop of `RebootMenu`, on fuel.
abbrev disable_from : ℕ → ℕ → List MenuEntry → List MenuEntry
disable_from zero i options = options
disable_from (suc fuel) i options =
    let options' = set options i disabled_entry in
    let rest = disable_from fuel (suc i) options' in
    if ltb (suc i) max_options_count then rest else options'

-- `RebootMenu`
unfoldable pub open_reboot_menu : Menu → Menu
open_reboot_menu m =
    let entries =
      active_entry "Reboot to CLK" null_function
      ∷ active_entry "Reboot" reset_cold
      ∷ active_entry "Shutdown" reset_shutdown
      ∷ [] in
    record m {
      selected_index = 0;
      menu_options = disable_from max_options_count 3 (write_from 0 entries m.menu_options);
    }

-- `GetActiveMenuEntryLength`
unfoldable pub get_active_menu_entry_length : List MenuEntry → ℕ
get_active_menu_entry_length [] = 0
get_active_menu_entry_length (e ∷ es) =
    (if e.is_active then 1 else 0) + get_active_menu_entry_length es

-- A line that `DrawMenu` prints: its row, its number, its name, and whether it is yellow.
pub record Line : Type 0 where
  pub row : ℕ
  pub number : ℕ
  pub name : String
  pub is_yellow : Bool

-- The loop of `DrawMenu`, which ends at the first entry that is not active.
unfoldable pub draw_entries : ℕ → ℕ → List MenuEntry → List Line
draw_entries selected i [] = []
draw_entries selected i (e ∷ es) =
    let more = draw_entries selected (i + 1) es in
    if e.is_active
    then (record { row = 5 + i; number = i + 1; name = e.name; is_yellow = i == selected } ∷ more)
    else []

-- `DrawMenu`
unfoldable pub draw_menu : Menu → Menu × List Line
draw_menu m = (
  record m { menu_option_count = get_active_menu_entry_length m.menu_options },
  draw_entries m.selected_index 0 m.menu_options,
)

-- What a function does to the menu, and whether it is a call of something else.
unfoldable pub call_function : MenuFunction → Menu → Menu × Option MenuFunction
call_function reboot_menu m = (open_reboot_menu m, none)
call_function f m = (m, some f)

-- The entry is called unless it has no function; past the table there is none.
abbrev call_option : Option MenuFunction → Menu → Menu × Option MenuFunction
call_option none m = (m, none)
call_option (some f) m = call_function f m

abbrev call_entry : Option MenuEntry → Menu → Menu × Option MenuFunction
call_entry none m = (m, none)
call_entry (some e) m = call_option e.function m

-- `EFI_INPUT_KEY`, and the codes of the UEFI specification that `HandleKeyInput` tests.
abbrev pub InputKey : Type 0
InputKey = ℕ × ℕ

abbrev pub scan_up : ℕ
scan_up = 1

abbrev pub scan_down : ℕ
scan_down = 2

abbrev pub scan_home : ℕ
scan_home = 5

abbrev pub scan_esc : ℕ
scan_esc = 0x17

abbrev pub char_backspace : ℕ
char_backspace = 8

abbrev pub char_carriage_return : ℕ
char_carriage_return = 13

-- The `switch` of `HandleKeyInput`; UINTN has 32 bits.
unfoldable pub handle_key : InputKey → Menu → Menu × Option MenuFunction
handle_key (scan, char) m =
    let last = (m.menu_option_count + 2 ^ 32 - 1) % 2 ^ 32 in
    if scan == scan_home
    then (main_menu m, none)
    else if scan == scan_up
    then (
      record m { selected_index = if m.selected_index == 0 then last else m.selected_index - 1 },
      none,
    )
    else if scan == scan_down
    then (
      record m { selected_index = if m.selected_index == last then 0 else m.selected_index + 1 },
      none,
    )
    else if scan == scan_esc
    then (m, none)
    else if char == char_carriage_return
    then call_entry (get_elem? m.menu_options m.selected_index) m
    else (m, none)

-- `HandleKeyInput`; `none` is `EFI_NOT_READY`.
unfoldable pub handle_key_input : Option InputKey → Menu → Menu × Option MenuFunction
handle_key_input none m = (m, none)
handle_key_input (some key) m = handle_key key m

-- The rounds of the menu's loop: what each draws and what it calls.
unfoldable pub menu_loop :
    List (Option InputKey) → Menu → Menu × List (List Line × Option MenuFunction)
menu_loop [] m = (m, [])
menu_loop (r ∷ rs) m =
    let (drawn, lines) = draw_menu m in
    let (m', call) = handle_key_input r drawn in
    let (m'', more) = menu_loop rs m' in (m'', (lines, call) ∷ more)

-- The menu that `ShellAppMain` starts its loop with.
unfoldable pub first_menu : Menu
first_menu = fill_menu (record {
  menu_options = replicate max_options_count zero_entry;
  menu_option_count = 0;
  selected_index = 0;
})

-- Where `ShellAppMain` goes after its wait: the label `menu` or the label `boot_esp`.
pub data Start : Type 0 where
  menu boot_esp : Start

-- A round of the wait once the key is read; `more` is the rounds after it. The result has the value
-- of `Timeout` and counts the calls of `StartShell`.
unfoldable pub wait_key : Option InputKey → ℕ → Start × ℕ × ℕ → Start × ℕ × ℕ
wait_key none timeout more = more
wait_key (some (scan, char)) timeout (start, left, shells) =
    if scan == scan_home
    then (menu, timeout, 0)
    else if scan == char_backspace
    then (boot_esp, timeout, 0)
    else if scan == scan_esc
    then (start, left, shells + 1)
    else (start, left, shells)

-- The wait of `ShellAppMain`, at a value of `Timeout`; when the readings end there are no more keys.
unfoldable pub wait_loop : ℕ → List (Option InputKey) → Start × ℕ × ℕ
wait_loop zero rs = (boot_esp, 0, 0)
wait_loop (suc n) [] = (boot_esp, 0, 0)
wait_loop (suc n) (r ∷ rs) = wait_key r (suc n) (wait_loop n rs)

-- `Timeout`
abbrev pub timeout : ℕ
timeout = 400
