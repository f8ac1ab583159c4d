-- ===== src/Decoder/Loops.antt =====
-- The two loops that may return early: each passes on good input, and reports the first fault
-- otherwise.
use esp_rf_ook.Prelude.{
  ℕ, ◌≡◌, refl, ◌⊎◌, inl, inr, Bool, true, false, Bool-cases, List, [], ◌∷◌, arith, length, All,
  Forall₂, in_range, ok, err,
}
use esp_rf_ook.Decoder.{
  PulseCode, Level, high, low, pulse_min, pulse_max, min_high, max_high, min_low, max_low,
  pulse_out_of_range, check_level, check_pulses,
}
use esp_rf_ook.Decoder.Bits.{Spells, FirstUnreadable}
use esp_rf_ook.Decoder.Frame.{IsGoodLevel, IsGood, BadLevel, FirstBad}

level_cases : (l : Level) (n : ℕ) → IsGoodLevel l n ⊎ ((m : ℕ) × BadLevel l n m)
level_cases high n = elim (Bool-cases (in_range pulse_min pulse_max n)) [
  | inl e ↦ inl (ground arith)
  | inr e ↦ inr (n, ground arith)
]
level_cases low n = inl tt

check_level_good : (l : Level) (n : ℕ) → IsGoodLevel l n → check_level l n ≡ ok tt
unfolding check_level
check_level_good high n h = ground arith
check_level_good low n h = refl

check_level_bad :
    (l : Level) (n m : ℕ) → BadLevel l n m → check_level l n ≡ err (pulse_out_of_range m)
unfolding check_level
check_level_bad high n m h = ground arith
check_level_bad low n m h = absurd h

pub pulses_cases : (es : List PulseCode) → All IsGood es ⊎ ((m : ℕ) × FirstBad m es)
pulses_cases [] = inl tt
pulses_cases (e ∷ es) = elim (level_cases e.level1 e.length1) [
  | inr (m, bad) ↦ inr (m, inl bad)
  | inl good ↦ elim (level_cases e.level2 e.length2) [
    | inr (m, bad) ↦ inr (m, inr (inl (good, bad)))
    | inl good' ↦ elim (pulses_cases es) [
      | inr (m, bad) ↦ inr (m, inr (inr ((good, good'), bad)))
      | inl all ↦ inl ((good, good'), all)
    ]
  ]
]

pub check_pulses_good : (es : List PulseCode) → All IsGood es → check_pulses es ≡ ok tt
unfolding check_pulses
check_pulses_good [] h = refl
check_pulses_good (e ∷ es) ((good, good'), all) =
    rw (check_level_good e.level1 e.length1 good, check_level_good e.level2 e.length2 good')
      (check_pulses_good es all)

pub check_pulses_bad :
    (es : List PulseCode) (m : ℕ) → FirstBad m es → check_pulses es ≡ err (pulse_out_of_range m)
unfolding check_pulses
check_pulses_bad [] m h = absurd h
check_pulses_bad (e ∷ es) m (inl bad) = rw (check_level_bad e.level1 e.length1 m bad)
check_pulses_bad (e ∷ es) m (inr (inl (good, bad))) =
    rw (check_level_good e.level1 e.length1 good, check_level_bad e.level2 e.length2 m bad)
check_pulses_bad (e ∷ es) m (inr (inr ((good, good'), bad))) =
    rw (check_level_good e.level1 e.length1 good, check_level_good e.level2 e.length2 good')
      (check_pulses_bad es m bad)

spelled_cases : (s : ℕ) → ((b : Bool) × Spells b s) ⊎ (¬ Spells true s × ¬ Spells false s)
spelled_cases s = elim (Bool-cases (in_range min_high max_high s)) [
  | inl e ↦ inl (true, ground arith)
  | inr e ↦ elim (Bool-cases (in_range min_low max_low s)) [
    | inl e' ↦ inl (false, ground arith)
    | inr e' ↦ inr (λ h. ground arith, λ h. ground arith)
  ]
]

pub samples_cases :
    (ss : List ℕ)
    → ((bits : List Bool) × Forall₂ Spells bits ss × (length bits ≡ length ss))
      ⊎ ((n : ℕ) × FirstUnreadable n ss)
samples_cases [] = inl ([], tt, refl)
samples_cases (s ∷ ss) = elim (spelled_cases s) [
  | inr fault ↦ inr (s, inl (refl, fault.0, fault.1))
  | inl (b, sp) ↦ elim (samples_cases ss) [
    | inr (n, fault) ↦ inr (n, inr ((b, sp), fault))
    | inl (bits, all, e) ↦ inl (b ∷ bits, (sp, all), omega arith)
  ]
]
