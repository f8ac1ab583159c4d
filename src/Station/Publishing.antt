-- ===== src/Station/Publishing.antt =====
-- When the loop sends a measurement: after three that agree with it, and no more often than every
-- five seconds.
use mathlib.Core.Path.{subst}
use native.Mathlib.Numerals.{add-one}
use esp_rf_ook.Prelude.{
  ℕ, zero, suc, ◌≤◌, ◌<◌, ◌≡◌, refl, ◌⊎◌, inl, inr, true, List, [], ◌∷◌, arith, length, take, All,
}
use esp_rf_ook.Prelude.Words.{sub_u64}
use esp_rf_ook.Sensor.{SensorData, equal}
use esp_rf_ook.Sensor.Equal.{equal_refl, equal_join}
use esp_rf_ook.Station.{Station, publish_after, on_measurement}
use esp_rf_ook.Station.Cases.{on_measurement_cases}
use esp_rf_ook.Station.Effect.{sends, Agree}

-- The last `measurement_cnt` measurements, the latest first, agree with the tracked one.
pub record Tracks (s : Station) (history : List SensorData) : Type 0 where
  pub capped : s.measurement_cnt ≤ 3
  pub known : s.measurement_cnt ≤ length history
  pub agree : All (λ m. equal s.measurement m ≡ true) (take s.measurement_cnt history)

module _ (P : SensorData → Type 0) where
  All-take-le : (n m : ℕ) (xs : List SensorData) → m ≤ n → All P (take n xs) → All P (take m xs)
  All-take-le n zero xs h a = tt
  All-take-le zero (suc m) xs h a = absurd (omega arith)
  All-take-le (suc n) (suc m) [] h a = tt
  All-take-le (suc n) (suc m) (x ∷ xs) h (px, a) = (px, All-take-le n m xs (omega arith) a)

  All-take_next :
      (n : ℕ) (x : SensorData) (xs : List SensorData)
      → P x
      → All P (take n xs)
      → All P (take n (x ∷ xs))
  All-take_next zero x xs px a = tt
  All-take_next (suc n) x xs px a = (px, All-take-le (suc n) n xs (omega arith) a)

pub Tracks-Agree :
    (s t : Station) (history : List SensorData) → Agree s t → Tracks s history → Tracks t history
Tracks-Agree s t history a k = record {
  capped = omega (arith, a.measurement_cnt, k.capped);
  known = omega (arith, a.measurement_cnt, k.known);
  agree =
      subst (λ n. All (λ m. equal t.measurement m ≡ true) (take n history)) a.measurement_cnt
        (subst (λ d. All (λ m. equal d m ≡ true) (take s.measurement_cnt history)) a.measurement
          k.agree);
}

All-join :
    (a m : SensorData)
    → equal a m ≡ true
    → (xs : List SensorData) → All (λ d. equal a d ≡ true) xs
    → All (λ d. equal m d ≡ true) xs
All-join a m h [] all = tt
All-join a m h (x ∷ xs) (e, all) = (equal_join a m x h e, All-join a m h xs all)

pub on_measurement-Tracks :
    (s : Station) (now : ℕ) (m : SensorData) (history : List SensorData)
    → Tracks s history
    → Tracks (on_measurement s now m).0 (m ∷ history)
unfolding on_measurement
on_measurement-Tracks s now m history k = elim (on_measurement_cases s now m) [
  | inl (_, e) ↦
      rw e (record { capped = omega arith; known = omega arith; agree = (equal_refl m, tt) })
  | inr (inl (same, _, _, e)) ↦ rw e (kept same)
  | inr (inr (inl (same, few, e))) ↦ rw e (record {
    capped = omega arith;
    known = omega (arith, k.known);
    agree = rw add-one (same, k.agree);
  })
  | inr (inr (inr (same, _, _, e))) ↦ rw e (kept same)
]
  where
    kept :
        equal s.measurement m ≡ true
        → {t : ℕ} → Tracks (record s { last_publish = t }) (m ∷ history)
    kept same = record {
      capped = k.capped;
      known = omega (arith, k.known);
      agree = All-take_next _ s.measurement_cnt m history same k.agree;
    }

-- What a message says of the state before it and of the measurements so far.
pub record Confirmed (last now : ℕ) (m : SensorData) (history : List SensorData) : Type 0 where
  pub spaced : publish_after < sub_u64 now last
  pub seen : 3 ≤ length history
  pub same : All (λ d. equal m d ≡ true) (take 3 history)

pub on_measurement-Confirmed :
    (s : Station) (now : ℕ) (m : SensorData) (history : List SensorData)
    → Tracks s history
    → let (s', actions) = on_measurement s now m in
      (sends actions ≡ []) × (s'.last_publish ≡ s.last_publish)
      ⊎ (sends actions ≡ (m, now) ∷ [])
        × (s'.last_publish ≡ now)
        × Confirmed s.last_publish now m history
on_measurement-Confirmed s now m history k = elim (on_measurement_cases s now m) [
  | inl (_, e) ↦ rw e (inl (refl, refl))
  | inr (inl (same, three, gap, e)) ↦ rw e (
      inr (
        refl,
        refl,
        record {
          spaced = gap;
          seen = omega (arith, k.known);
          same =
              All-join s.measurement m same (take 3 history) (
                subst (λ n. All (λ d. equal s.measurement d ≡ true) (take n history)) three
                  k.agree);
        },
      ))
  | inr (inr (inl (_, _, e))) ↦ rw e (inl (refl, refl))
  | inr (inr (inr (_, _, _, e))) ↦ rw e (inl (refl, refl))
]
