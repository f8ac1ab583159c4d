-- ===== src/Sensor/Widths.antt =====
-- The values of `SensorData` fit the types of its fields.
use esp_rf_ook.Prelude.{◌^◌, ◌<◌, ◌≡◌, refl, ◌⊎◌, inl, arith, All, length, pos, negsuc}
use esp_rf_ook.Sensor.{SensorData, NexusThPayload, default, from}

-- [u8; 32], i8 (1 or -1 is all that occurs), u16, u16, u8, u8 and u8.
pub record Fits (s : SensorData) : Type 0 where
  pub model_len : length s.model ≡ 32
  pub model_bytes : All (λ b. b < 2 ^ 8) s.model
  pub sign : (s.sign ≡ pos 1) ⊎ (s.sign ≡ negsuc 0)
  pub temp_int : s.temp_int < 2 ^ 16
  pub temp_decimal : s.temp_decimal < 2 ^ 16
  pub humidity : s.humidity < 2 ^ 8
  pub channel : s.channel < 2 ^ 8
  pub id : s.id < 2 ^ 8

pub default-Fits : Fits default
unfolding default
default-Fits = record {
  model_len = refl;
  model_bytes = omega arith;
  sign = inl refl;
  temp_int = omega arith;
  temp_decimal = omega arith;
  humidity = omega arith;
  channel = omega arith;
  id = omega arith;
}

pub from-Fits : (pld : NexusThPayload) → pld.id < 2 ^ 8 → pld.temp_10x < 2 ^ 12 → Fits (from pld)
unfolding from
from-Fits pld h t = record {
  model_len = refl;
  model_bytes = omega arith;
  sign = ground arith;
  temp_int = ground arith;
  temp_decimal = ground arith;
  humidity = ground arith;
  channel = omega arith;
  id = omega arith;
}
