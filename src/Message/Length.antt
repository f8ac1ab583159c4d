-- ===== src/Message/Length.antt =====
-- How long the published text is.
use esp_rf_ook.Prelude.{
  ℕ, suc, ◌+◌, ◌^◌, ◌≤◌, ◌<◌, ◌≡◌, refl, ap, ◌∙◌, Bool, true, false, List, [], ◌∷◌, arith, length,
  length-append, ℤ,
}
use esp_rf_ook.Text.Decimal.{decimal, length-decimal}
use esp_rf_ook.Sensor.{SensorData, model}
use esp_rf_ook.Message.{literal, display_bool, signed_text, temperature_text, join, parts, message}

abbrev total : List (List ℕ) → ℕ
total [] = 0
total (t ∷ ts) = length t + total ts

length-join : (ts : List (List ℕ)) → length (join ts) ≡ total ts
length-join [] = refl
length-join (t ∷ ts) = length-append t (join ts) ∙ ap (λ n. length t + n) (length-join ts)

length-display_bool : (b : Bool) → length (display_bool b) ≤ 5
unfolding display_bool
length-display_bool true = omega arith
length-display_bool false = omega arith

length-signed_text :
    (sign : ℤ) (whole digit k : ℕ)
    → whole < 10 ^ suc k
    → digit < 10 ^ 1
    → length (signed_text sign whole digit) ≤ 4 + k
unfolding signed_text literal
length-signed_text sign whole digit k h h' = ground (
  arith,
  length-append (decimal whole) (b'.' ∷ decimal digit),
  length-decimal whole k h,
  length-decimal digit 0 h',
)

-- The text adds 148 bytes at most to the time and the name, where the temperature is below a hundred
-- degrees, the uptime has at most thirteen digits, and the other values are bytes.
pub length-message :
    (date_time : List ℕ) (s : SensorData) (uptime : ℕ)
    → s.id < 10 ^ 3
    → s.channel < 10 ^ 3
    → s.temp_int < 10 ^ 2
    → s.temp_decimal < 10 ^ 1
    → s.humidity < 10 ^ 3
    → uptime < 10 ^ 13
    → length (message date_time s uptime) ≤ length date_time + length (model s) + 148
unfolding message literal temperature_text
length-message date_time s uptime id channel whole digit humidity up = omega (
  arith,
  length-join (parts date_time s uptime),
  length-decimal s.id 2 id,
  length-decimal s.channel 2 channel,
  length-display_bool s.battery_ok,
  length-signed_text s.sign s.temp_int s.temp_decimal 1 whole digit,
  length-decimal s.humidity 2 humidity,
  length-decimal uptime 12 up,
)
