-- ===== src/Station/Cases.antt =====
-- The four ways through `on_measurement`.
use esp_rf_ook.Prelude.{
  ℕ, ◌+◌, ◌≤◌, ◌<◌, ◌≡◌, ◌⊎◌, inl, inr, true, false, Bool-cases, ◌&&◌, ltb, ◌==◌, [], ◌∷◌, arith,
}
use esp_rf_ook.Prelude.Words.{sub_u64}
use esp_rf_ook.Sensor.{SensorData, equal}
use esp_rf_ook.Station.{Station, send, publish_after, on_measurement}

module _ (s : Station) (now : ℕ) (m : SensorData) where
  abbrev pub Restarts : Type 0
  Restarts =
      (equal s.measurement m ≡ false)
      × (on_measurement s now m ≡ (record s { measurement = m; measurement_cnt = 1 }, []))

  abbrev pub Publishes : Type 0
  Publishes =
      (equal s.measurement m ≡ true)
      × (s.measurement_cnt ≡ 3)
      × (publish_after < sub_u64 now s.last_publish)
      × (on_measurement s now m ≡ (record s { last_publish = now }, send m now ∷ []))

  abbrev pub Counts : Type 0
  Counts =
      (equal s.measurement m ≡ true)
      × (s.measurement_cnt < 3)
      × (on_measurement s now m ≡ (record s { measurement_cnt = s.measurement_cnt + 1 }, []))

  abbrev pub Waits : Type 0
  Waits =
      (equal s.measurement m ≡ true)
      × (3 ≤ s.measurement_cnt)
      × (s.measurement_cnt ≡ 3 → sub_u64 now s.last_publish ≤ publish_after)
      × (on_measurement s now m ≡ (s, []))

  pub on_measurement_cases : Restarts ⊎ Publishes ⊎ Counts ⊎ Waits
  unfolding on_measurement
  on_measurement_cases = elim (Bool-cases (equal s.measurement m)) [
    | inr e ↦ inl (e, rw e)
    | inl e ↦
        elim (Bool-cases
          (s.measurement_cnt == 3 && ltb publish_after (sub_u64 now s.last_publish))) [
            | inl d ↦ inr (inl (e, ground arith, ground arith, rw (e, d)))
            | inr d ↦ elim (Bool-cases (ltb s.measurement_cnt 3)) [
              | inl l ↦ inr (inr (inl (e, ground arith, rw (e, d, l))))
              | inr l ↦ inr (inr (inr (e, ground arith, λ three. ground arith, rw (e, d, l))))
            ]
          ]
  ]
