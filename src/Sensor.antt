-- ===== src/Sensor.antt =====
-- `SensorData` and `NexusTHPayload` of src/decoder.rs: the payload that the sensor sends, and the
-- measurement that it is turned into.
pub mod Model
pub mod Temperature
pub mod Equal
pub mod Widths
use esp_rf_ook.Prelude.{
  ℕ, suc, ◌+◌, ◌-◌, ◌/◌, ◌%◌, ◌^◌, ◌<◌, min, ◌≡◌, Bool, true, ◌&&◌, Option, none, some, List, [],
  ◌∷◌, ◌++◌, ltb, ◌==◌, if◌then◌else◌, ℤ, pos, negsuc, int_eq, length, take, drop, replicate, All,
}
use esp_rf_ook.Prelude.Bytes.{big_endian}
use esp_rf_ook.Text.{codes, from_utf8}

pub record SensorData : Type 0 where
  pub model : List ℕ  -- [u8; 32]
  pub sign : ℤ  -- i8
  pub temp_int : ℕ  -- u16
  pub temp_decimal : ℕ  -- u16
  pub humidity : ℕ  -- u8
  pub battery_ok : Bool
  pub channel : ℕ  -- u8
  pub id : ℕ  -- u8

-- `[0u8; n]` with the first bytes of the name copied over it.
pub model_arr : ℕ → List ℕ → List ℕ
model_arr n bytes = let len = min (length bytes) n in take len bytes ++ drop len (replicate n 0)

unfoldable pub new : List ℕ → ℤ → ℕ → ℕ → ℕ → Bool → ℕ → ℕ → SensorData
unfolding model_arr
new model sign temp_int temp_decimal humidity battery_ok channel id = record {
  model = model_arr 32 model;
  sign = sign;
  temp_int = temp_int;
  temp_decimal = temp_decimal;
  humidity = humidity;
  battery_ok = battery_ok;
  channel = channel;
  id = id;
}

unfoldable pub default : SensorData
unfolding new
default = new (codes "Unknown") (pos 1) 10 0 80 true 0 0

-- The index of the first zero byte.
position_zero : List ℕ → Option ℕ
position_zero [] = none
position_zero (b ∷ bs) =
    let rest = position_zero bs in
    if b == 0 then some 0 else elim rest [ none ↦ none | some i ↦ some (suc i) ]

abbrev pub unwrap_or {ℓ} : {A : Type ℓ} → Option A → A → A
unwrap_or none d = d
unwrap_or (some a) d = a

-- The bytes before the first zero, as a text.
text_before_nul : List ℕ → List ℕ
unfolding position_zero
text_before_nul arr =
    let len = unwrap_or (position_zero arr) (length arr) in unwrap_or (from_utf8 (take len arr)) []

unfoldable pub model : SensorData → List ℕ
unfolding text_before_nul
model s = text_before_nul s.model

unfoldable pub equal : SensorData → SensorData → Bool
equal s a =
    int_eq s.sign a.sign
    && s.temp_int == a.temp_int
    && s.temp_decimal == a.temp_decimal
    && s.humidity == a.humidity

pub record NexusThPayload : Type 0 where
  pub id : ℕ
  pub battery_ok : Bool
  pub unknown_0 : ℕ
  pub channel : ℕ
  pub temp_10x : ℕ
  pub unknown_1 : ℕ
  pub humidity : ℕ

-- u16 subtraction.
abbrev sub_u16 : ℕ → ℕ → ℕ
sub_u16 a b = (a + 2 ^ 16 - b) % 2 ^ 16

unfoldable pub from : NexusThPayload → SensorData
unfolding new
from pld =
    let negative = ltb 2048 pld.temp_10x in
    let sign = if negative then negsuc 0 else pos 1 in
    let temp_10x = if negative then sub_u16 4096 pld.temp_10x else pld.temp_10x in
    let humidity = if ltb 100 pld.humidity then 100 else pld.humidity in
    new (codes "Nexus-TH") sign (temp_10x / 10) (temp_10x % 10) humidity pld.battery_ok
      ((pld.channel + 1) % 2 ^ 8) pld.id

-- Bits `first` to `last` of five bytes, counted from the most significant bit of the first byte.
unfoldable pub bit_field : ℕ → ℕ → List ℕ → ℕ
bit_field first last bytes = big_endian bytes / 2 ^ (39 - last) % 2 ^ (last - first + 1)

-- The fields at the positions that the attributes of `NexusTHPayload` give.
unfoldable pub layout : List ℕ → NexusThPayload
unfolding bit_field
layout bytes = record {
  id = bit_field 0 7 bytes;
  battery_ok = bit_field 8 8 bytes == 1;
  unknown_0 = bit_field 9 9 bytes;
  channel = bit_field 10 11 bytes;
  temp_10x = bit_field 12 23 bytes;
  unknown_1 = bit_field 24 27 bytes;
  humidity = bit_field 28 35 bytes;
}

-- `unpack`, which the macro `PackedStruct` of the crate packed_struct generates: on five bytes it
-- reads each field at the position that its attribute gives.
pub record PackedStruct : Type 0 where
  pub unpack : List ℕ → Option NexusThPayload
  pub unpack_msb0 :
      (bytes : List ℕ)
      → length bytes ≡ 5
      → All (λ b. b < 256) bytes
      → unpack bytes ≡ some (layout bytes)
