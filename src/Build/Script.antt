-- ===== src/Build/Script.antt =====
-- The two uses of the script: by cargo, with no argument, and by the linker, with two.
use mathlib.Core.Path.{subst}
use esp_rf_ook.Prelude.{
  ℕ, ◌≤◌, ◌≡◌, ◌≢◌, refl, sym, ap, ◌∙◌, ◌⊎◌, inl, inr, ◌↔◌, true, Bool-cases, Option, none, some,
  List, [], ◌∷◌, ◌++◌, arith, length,
}
use esp_rf_ook.Text.{codes}
use esp_rf_ook.Build.{
  Output, println, eprintln, Ending, returns, exits, panics, equals, undefined_symbol, hint_for,
  error_handling_script, linker_be_nice, with_linkall, main,
}

equals_iff : (cs ds : List ℕ) → (equals cs ds ≡ true) ↔ (cs ≡ ds)
unfolding equals
equals_iff [] [] = (λ _. refl, λ _. refl)
equals_iff [] (d ∷ ds) = (λ e. cc, λ e. cc)
equals_iff (c ∷ cs) [] = (λ e. cc, λ e. cc)
equals_iff (c ∷ cs) (d ∷ ds) = ground (arith, equals_iff cs ds)

-- What goes to the standard output, where cargo reads it.
abbrev pub stdout : List Output → List (List ℕ)
stdout [] = []
stdout (println line ∷ outs) = line ∷ stdout outs
stdout (eprintln line ∷ outs) = stdout outs

hint_for_silent : (what : List ℕ) → stdout (hint_for what) ≡ []
unfolding hint_for
hint_for_silent what = ground arith

-- What the script prints for cargo, and how it ends.
abbrev pub Answers : Option (List ℕ) → List (List ℕ) → List (List ℕ) → Ending → Type 0
Answers current_exe args printed returns =
    (length args ≤ 1)
    × ((exe : List ℕ) × (current_exe ≡ some exe)
        × (printed
            ≡ (codes "cargo:rustc-link-arg=-Wl,--error-handling-script=" ++ exe)
              ∷ codes "cargo:rustc-link-arg=-Tlinkall.x"
              ∷ []))
Answers current_exe args printed (exits code) =
    (program kind what : List ℕ) × (others : List (List ℕ)) × (args
      ≡ program ∷ kind ∷ what ∷ others)
    × (printed ≡ [])
    × ((kind ≡ undefined_symbol) × (code ≡ 0) ⊎ (kind ≢ undefined_symbol) × (code ≡ 1))
Answers current_exe args printed panics =
    (printed ≡ []) × ((length args ≡ 2) ⊎ (length args ≤ 1) × (current_exe ≡ none))

printed_cases :
    (current_exe : Option (List ℕ)) (args : List (List ℕ))
    → length args ≤ 1
    → main current_exe args ≡ main current_exe []
unfolding main linker_be_nice
printed_cases current_exe [] h = refl
printed_cases current_exe (program ∷ []) h = refl
printed_cases current_exe (program ∷ kind ∷ args) h = absurd (omega arith)

by_cargo :
    (current_exe : Option (List ℕ)) (args : List (List ℕ))
    → length args ≤ 1
    → let (out, ending) = main current_exe [] in Answers current_exe args (stdout out) ending
unfolding main linker_be_nice error_handling_script
by_cargo none args h = (refl, inr (h, refl))
by_cargo (some exe) args h = (h, (exe, refl, refl))

main_exits :
    (current_exe : Option (List ℕ)) (args : List (List ℕ)) (out : List Output) (code : ℕ)
    → linker_be_nice current_exe args ≡ (out, exits code)
    → main current_exe args ≡ (out, exits code)
unfolding main
main_exits current_exe args out code e = ap with_linkall e

by_linker :
    (current_exe : Option (List ℕ)) (program kind what : List ℕ) (others : List (List ℕ))
    → let args = program ∷ kind ∷ what ∷ others in
      let (out, ending) = main current_exe args in Answers current_exe args (stdout out) ending
unfolding linker_be_nice
by_linker current_exe program kind what others = elim (Bool-cases (equals kind undefined_symbol)) [
  | inl e ↦
      answers_at (hint_for what) 0 (rw e) (hint_for_silent what)
        (inl ((equals_iff kind undefined_symbol).0 e, refl))
  | inr e ↦
      answers_at [] 1 (rw e) refl
        (inr (λ same. cc (sym e ∙ (equals_iff kind undefined_symbol).1 same), refl))
]
  where
    answers_at :
        (out : List Output) (code : ℕ)
        → linker_be_nice current_exe (program ∷ kind ∷ what ∷ others) ≡ (out, exits code)
        → stdout out ≡ []
        → (kind ≡ undefined_symbol) × (code ≡ 0) ⊎ (kind ≢ undefined_symbol) × (code ≡ 1)
        → let args = program ∷ kind ∷ what ∷ others in
          let (out', ending) = main current_exe args in
          Answers current_exe args (stdout out') ending
    answers_at out code e silent which =
        let args = program ∷ kind ∷ what ∷ others in
        let q : Answers current_exe args (stdout out) (exits code) =
          (program, kind, what, others, refl, silent, which) in
        subst (λ w. Answers current_exe args (stdout w.0) w.1)
          (sym (main_exits current_exe args out code e)) q

-- Every way that the build script can end. Called by cargo, without an argument, it prints two
-- arguments for the linker, `linkall.x` as the last, if it knows its own path. Called by the linker,
-- with a kind and a name, it prints nothing for cargo, and its exit code is 0 exactly for an
-- undefined symbol. It panics with exactly one argument, or where its own path is not known.
pub main-Answers :
    (current_exe : Option (List ℕ)) (args : List (List ℕ))
    → let (out, ending) = main current_exe args in Answers current_exe args (stdout out) ending
unfolding main linker_be_nice
main-Answers current_exe [] = by_cargo current_exe [] (omega arith)
main-Answers current_exe (program ∷ []) = by_cargo current_exe (program ∷ []) (omega arith)
main-Answers current_exe (program ∷ kind ∷ []) = (refl, inl refl)
main-Answers current_exe (program ∷ kind ∷ what ∷ others) =
    by_linker current_exe program kind what others
