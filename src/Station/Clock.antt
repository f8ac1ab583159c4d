-- ===== src/Station/Clock.antt =====
-- The receive loop when the clock steps back, as it may when the time is set.
use esp_rf_ook.Prelude.{ℕ, ◌^◌, ◌<◌, ◌≡◌, Bool, true, some, [], ◌∷◌, arith, ok}
use esp_rf_ook.Prelude.Words.{sub_u64, mul_u64}
use esp_rf_ook.Sensor.{SensorData, equal}
use esp_rf_ook.Station.{
  Station, set_current_time_us, send, Round, on_measurement, sync_time, resync,
}

-- The difference wraps around.
sub_u64_back : (a b : ℕ) → a < b → b < 2 ^ 63 → 2 ^ 63 < sub_u64 a b
sub_u64_back a b h small = omega arith

-- Where the clock is behind the last message, both below 2^63, the difference wraps around to a large
-- number: a measurement that equals the tracked one, counted three times, is sent at once, without
-- the five seconds. A round that finds the clock behind the last synchronisation sets it again, if
-- the time server gives a timestamp.
pub clock_steps_back :
    (is_timestamp : ℕ → Bool) (s : Station) (r : Round) (now : ℕ) (m : SensorData) (time : ℕ)
    → s.last_publish < 2 ^ 63
    → s.last_time_sync < 2 ^ 63
    → now < s.last_publish
    → r.checked < s.last_time_sync
    → s.measurement_cnt ≡ 3
    → equal s.measurement m ≡ true
    → r.ntp ≡ ok time
    → is_timestamp r.shown ≡ true
    → (on_measurement s now m ≡ (record s { last_publish = now }, send m now ∷ []))
      × (resync is_timestamp s r
          ≡ some (
            record s { last_time_sync = r.synced },
            set_current_time_us (mul_u64 time 1000000) ∷ [],
          ))
unfolding on_measurement resync sync_time
clock_steps_back is_timestamp s r now m time p q h k three same answered good =
    let gap = sub_u64_back now s.last_publish h p in
    let hour = sub_u64_back r.checked s.last_time_sync k q in (ground arith, ground arith)
