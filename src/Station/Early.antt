-- ===== src/Station/Early.antt =====
-- A round in which the hourly check is not due, and which decodes a measurement.
use esp_rf_ook.Prelude.{
  ℕ, zero, suc, ◌<◌, ◌≡◌, refl, sym, ◌∙◌, inl, inr, Bool, true, false, some, List, [], ◌∷◌, ltb,
  arith, ok,
}
use esp_rf_ook.Prelude.Words.{sub_u64}
use esp_rf_ook.Sensor.{SensorData, PackedStruct, equal}
use esp_rf_ook.Sensor.Equal.{equal_sym, equal_trans}
use esp_rf_ook.Decoder.{PulseCode, decode}
use esp_rf_ook.Station.{
  Station, feed, symbols, Round, resync_after, on_measurement, resync, on_decoded, on_received,
  round,
}
use esp_rf_ook.Station.Cases.{on_measurement_cases}

pub early_round :
    (is_timestamp : ℕ → Bool) (p : PackedStruct) (s : Station) (r : Round) (buffer : List PulseCode)
    (k : ℕ) (m : SensorData)
    → ltb resync_after (sub_u64 r.checked s.last_time_sync) ≡ false
    → r.received ≡ symbols buffer k
    → decode p buffer 1 k ≡ ok m
    → round is_timestamp p s r
      ≡ some ((on_measurement s r.now m).0, feed ∷ feed ∷ (on_measurement s r.now m).1)
unfolding round resync on_received on_decoded
early_round is_timestamp p s r buffer k m early heard decoded = rw (early, heard, decoded)

-- After exactly `n` measurements that equal `m`, from a start at the time `last`.
pub record Counted (n : ℕ) (m : SensorData) (synced last : ℕ) (s : Station) : Type 0 where
  pub measurement_cnt : s.measurement_cnt ≡ n
  pub tracked : 0 < n → equal s.measurement m ≡ true
  pub last_publish : s.last_publish ≡ last
  pub last_time_sync : s.last_time_sync ≡ synced

-- One of the first three is counted, and not sent.
pub on_measurement-Counted :
    (n : ℕ) (m : SensorData) (synced last : ℕ) (s : Station) (now : ℕ) (d : SensorData)
    → n < 3
    → Counted n m synced last s
    → equal m d ≡ true
    → Counted (suc n) m synced last (on_measurement s now d).0 × ((on_measurement s now d).1 ≡ [])
on_measurement-Counted n m synced last s now d few k same = elim (on_measurement_cases s now d) [
  | inl (other, e) ↦ rw e (
    record {
      measurement_cnt = at_zero n (λ h. equal_trans s.measurement m d (k.tracked h) same) other;
      tracked = λ _. equal_sym m d same;
      last_publish = k.last_publish;
      last_time_sync = k.last_time_sync;
    },
    refl,
  )
  | inr (inl (_, three, _, _)) ↦ absurd (omega (arith, k.measurement_cnt))
  | inr (inr (inl (here, _, e))) ↦ rw e (
    record {
      measurement_cnt = omega (arith, k.measurement_cnt);
      tracked = λ _. equal_trans s.measurement d m here (equal_sym m d same);
      last_publish = k.last_publish;
      last_time_sync = k.last_time_sync;
    },
    refl,
  )
  | inr (inr (inr (_, three, _, _))) ↦ absurd (omega (arith, k.measurement_cnt))
]
  where
    at_zero :
        (n : ℕ) → (0 < n → equal s.measurement d ≡ true) → equal s.measurement d ≡ false → 1 ≡ suc n
    at_zero zero h other = refl
    at_zero (suc n) h other = absurd (cc (sym (h (omega arith)) ∙ other))
