-- ===== src/Publisher/Size.antt =====
-- The size of what is posted, against the 256 bytes of the buffer that src/mqtt.rs writes from.
use esp_rf_ook.Prelude.{ℕ, ◌+◌, ◌^◌, ◌≤◌, ◌<◌, ◌≡◌, ap, List, arith, length, ok}
use esp_rf_ook.Sensor.{PackedStruct}
use esp_rf_ook.Decoder.{PulseCode, decode}
use esp_rf_ook.Decoder.Measurement.{field-lt, decode_measurement}
use esp_rf_ook.Message.{topic, literal}
use esp_rf_ook.Message.Length.{length-message}
use esp_rf_ook.Publisher.{Jiff, Delivery, post}
use esp_rf_ook.Publisher.Content.{model-decode}

-- The topic and the text that are posted for a decoded measurement have at most 195 bytes together,
-- which leaves 61 of the 256 bytes of the write buffer, if the printed time has at most 23 bytes
-- and the uptime is below ten to the thirteenth milliseconds.
pub length-post :
    (jiff : Jiff) (p : PackedStruct) (pulses : List PulseCode) (ch len : ℕ) (d : Delivery)
    → length (jiff.date_time d.timestamp) ≤ 23
    → d.uptime < 10 ^ 13
    → decode p pulses ch len ≡ ok d.measurement
    → length (post jiff d).topic + length (post jiff d).text ≤ 195
unfolding post topic literal
length-post jiff p pulses ch len d short up e =
    let (bits, _, id, _, _, ranges, mild, _) = decode_measurement p pulses ch len e in
    let name = ap length (model-decode p pulses ch len e) in
    let text =
      length-message (jiff.date_time d.timestamp) d.measurement d.uptime
        (omega (arith, id, field-lt 0 7 bits)) (omega (arith, ranges.channel_high))
        (omega (arith, mild)) (omega (arith, ranges.decimal)) (omega (arith, ranges.humid)) up in
    omega (arith, text, name, short)
