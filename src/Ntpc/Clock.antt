-- ===== src/Ntpc/Clock.antt =====
-- The timestamp generator splits a time into whole seconds and microseconds, and loses nothing.
use esp_rf_ook.Prelude.{◌+◌, ◌*◌, ◌<◌, ◌≡◌, arith}
use esp_rf_ook.Ntpc.{Timestamp, timestamp_sec, timestamp_subsec_micros}

-- The seconds and the microseconds of a time give the time back, and there are less than a million
-- microseconds, so that the cast to u32 cuts nothing off.
pub timestamp_split :
    (t : Timestamp)
    → (timestamp_sec t * 1000000 + timestamp_subsec_micros t ≡ t.current_time_us)
      × (timestamp_subsec_micros t < 1000000)
unfolding timestamp_sec timestamp_subsec_micros
timestamp_split t = omega arith
