-- ===== src/Build.antt =====
-- build.rs: the build script, which the linker also calls as its error handler. Texts are lists of
-- code points.
pub mod Script
use esp_rf_ook.Prelude.{
  ℕ, Bool, true, false, ◌&&◌, ◌||◌, Option, none, some, List, [], ◌∷◌, ◌++◌, ◌==◌, if◌then◌else◌,
}
use esp_rf_ook.Text.{codes}

pub data Output : Type 0 where
  println eprintln : List ℕ → Output

-- How a function ends: it returns, it leaves the process with a code, or it panics.
pub data Ending : Type 0 where
  returns : Ending
  exits : ℕ → Ending
  panics : Ending

pub equals : List ℕ → List ℕ → Bool
equals [] [] = true
equals [] (d ∷ ds) = false
equals (c ∷ cs) [] = false
equals (c ∷ cs) (d ∷ ds) = c == d && equals cs ds

abbrev pub undefined_symbol : List ℕ
undefined_symbol = codes "undefined-symbol"

-- A hint between two empty lines.
abbrev hint : List ℕ → List Output
hint text = eprintln [] ∷ eprintln text ∷ eprintln [] ∷ []

pub hint_for : List ℕ → List Output
unfolding equals
hint_for what =
    if equals what (codes "_defmt_timestamp")
    then hint (
        codes
          "💡 `defmt` not found - make sure `defmt.x` is added as a linker script and you have included `use defmt_rtt as _;`")
    else if equals what (codes "_stack_start")
    then hint (codes "💡 Is the linker script `linkall.x` missing?")
    else if equals what (codes "esp_rtos_initialized")
        || equals what (codes "esp_rtos_yield_task")
        || equals what (codes "esp_rtos_task_create")
    then hint (
        codes
          "💡 `esp-radio` has no scheduler enabled. Make sure you have initialized `esp-rtos` or provided an external scheduler.")
    else if equals what (codes "embedded_test_linker_file_not_added_to_rustflags")
    then hint (
        codes
          "💡 `embedded-test` not found - make sure `embedded-test.x` is added as a linker script for tests")
    else []

-- `std::env::current_exe().unwrap()` in the argument of the linker.
pub error_handling_script : Option (List ℕ) → List Output × Ending
error_handling_script none = ([], panics)
error_handling_script (some exe) =
    (println (codes "cargo:rustc-link-arg=-Wl,--error-handling-script=" ++ exe) ∷ [], returns)

-- With one argument behind the name of the program, `&args[2]` is out of range.
unfoldable pub linker_be_nice : Option (List ℕ) → List (List ℕ) → List Output × Ending
unfolding equals hint_for error_handling_script
linker_be_nice current_exe [] = error_handling_script current_exe
linker_be_nice current_exe (program ∷ []) = error_handling_script current_exe
linker_be_nice current_exe (program ∷ kind ∷ []) = ([], panics)
linker_be_nice current_exe (program ∷ kind ∷ what ∷ others) =
    if equals kind undefined_symbol then (hint_for what, exits 0) else ([], exits 1)

-- What `main` prints once the other has returned.
abbrev pub with_linkall : List Output × Ending → List Output × Ending
with_linkall (output, returns) =
    (output ++ (println (codes "cargo:rustc-link-arg=-Tlinkall.x") ∷ []), returns)
with_linkall (output, exits code) = (output, exits code)
with_linkall (output, panics) = (output, panics)

unfoldable pub main : Option (List ℕ) → List (List ℕ) → List Output × Ending
main current_exe args = with_linkall (linker_be_nice current_exe args)
