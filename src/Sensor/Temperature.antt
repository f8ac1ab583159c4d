-- ===== src/Sensor/Temperature.antt =====
-- `From<NexusTHPayload>` and `equal` of src/decoder.rs against the signed temperature that the
-- twelve bits stand for.
use esp_rf_ook.Prelude.{
  ℕ, ◌+◌, ◌-◌, ◌*◌, ◌≤◌, ◌<◌, min, ◌≡◌, ◌↔◌, true, arith, ltb, ◌==◌, if◌then◌else◌, ℤ, pos, negsuc,
  sub_ℕ,
}
use esp_rf_ook.Sensor.{SensorData, NexusThPayload, from, equal}

-- Twelve bits as a number in two's complement.
abbrev pub signed12 : ℕ → ℤ
signed12 raw = if ltb raw 2048 then pos raw else negsuc (4096 - raw - 1)

abbrev pub signed : ℤ → ℕ → ℤ
signed (pos _) n = pos n
signed (negsuc _) n = sub_ℕ 0 n

-- The measured temperature in tenths of a degree.
abbrev pub tenths : SensorData → ℤ
tenths s = signed s.sign (s.temp_int * 10 + s.temp_decimal)

-- The measured temperature is the twelve-bit number of the payload, read in two's complement; only
-- 2048, which would be -204.8 degrees, is taken for +204.8.
pub tenths-from :
    (p : NexusThPayload)
    → p.temp_10x < 4096
    → tenths (from p) ≡ (if p.temp_10x == 2048 then pos 2048 else signed12 p.temp_10x)
unfolding from
tenths-from p h = ground arith

-- The ranges of a measurement.
pub record IsInRange (s : SensorData) : Type 0 where
  pub decimal : s.temp_decimal < 10
  pub humid : s.humidity ≤ 100
  pub channel_low : 1 ≤ s.channel
  pub channel_high : s.channel ≤ 4

-- Whatever the payload, its channel being a two-bit number, the measurement has one decimal digit, a
-- humidity of at most 100 and a channel from 1 to 4.
pub from-IsInRange : (p : NexusThPayload) → p.channel < 4 → IsInRange (from p)
unfolding from
from-IsInRange p h = ground arith

-- Two measurements of payloads are `equal` exactly if they have the same temperature, with its sign,
-- and the same humidity, cut at 100: the channel, the battery and the id are not compared.
pub equal-from :
    (p q : NexusThPayload)
    → p.temp_10x < 4096
    → q.temp_10x < 4096
    → (equal (from p) (from q) ≡ true)
      ↔ ((tenths (from p) ≡ tenths (from q)) × (min p.humidity 100 ≡ min q.humidity 100))
unfolding from equal
equal-from p q hp hq = ground arith
