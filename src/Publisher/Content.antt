-- ===== src/Publisher/Content.antt =====
-- What is posted for a measurement that the decoder returned.
use mathlib.Core.Path.{subst}
use esp_rf_ook.Prelude.{ℕ, min, ◌≡◌, refl, sym, ap, ◌∙◌, Bool, List, ◌++◌, arith, ok, some}
use esp_rf_ook.Text.{codes, from_utf8, is_utf8}
use esp_rf_ook.Sensor.{SensorData, NexusThPayload, PackedStruct, from, model}
use esp_rf_ook.Sensor.Temperature.{signed12}
use esp_rf_ook.Decoder.{PulseCode, decode}
use esp_rf_ook.Decoder.Fields.{field, payload_of}
use esp_rf_ook.Decoder.Frame.{IsFrame, Explains}
use esp_rf_ook.Decoder.Correct.{decode-Explains}
use esp_rf_ook.Decoder.Measurement.{decode_measurement}
use esp_rf_ook.Message.{topic, literal}
use esp_rf_ook.Message.Reader.{Report, read_message}
use esp_rf_ook.Message.RoundTrip.{HasNoQuote, report, read_message-message}
use esp_rf_ook.Publisher.{Jiff, Delivery, Post, post}

model-from : (pld : NexusThPayload) → model (from pld) ≡ codes "Nexus-TH"
unfolding from model from_utf8 is_utf8
model-from pld = refl

name_plain : HasNoQuote (codes "Nexus-TH")
name_plain = omega arith

pub model-decode :
    (p : PackedStruct) (pulses : List PulseCode) (ch len : ℕ) {res : SensorData}
    → decode p pulses ch len ≡ ok res
    → model res ≡ codes "Nexus-TH"
model-decode p pulses ch len e =
    let (bits, _, same, _, _) =
      subst (Explains pulses ch len) e (decode-Explains p pulses ch len) in
    ap model same ∙ model-from (payload_of bits)

-- What the post for a decoded measurement says of the frame.
abbrev pub Reports : Jiff → List PulseCode → ℕ → ℕ → Delivery → Post → Type 0
Reports jiff pulses ch len d posted =
    (bits : List Bool) × (r : Report) × IsFrame pulses len bits
    × (posted.topic ≡ codes "sensors/Nexus-TH")
    × (read_message posted.text ≡ some r)
    × (r.time ≡ jiff.date_time d.timestamp)
    × (r.model ≡ codes "Nexus-TH")
    × (r.id ≡ field 0 7 bits)
    × (r.temperature ≡ signed12 (field 12 23 bits))
    × (r.humidity ≡ min (field 28 35 bits) 100)
    × (r.channel ≡ ch)

-- A measurement that was decoded is posted under `sensors/Nexus-TH`, with a text whose reader finds
-- the time that jiff prints, the id, the signed temperature, and the humidity cut at 100, that the
-- bits of the frame stand for, and the channel that was asked for, if the printed time holds no
-- quote.
pub post-decode :
    (jiff : Jiff) (p : PackedStruct) (pulses : List PulseCode) (ch len : ℕ) (d : Delivery)
    → HasNoQuote (jiff.date_time d.timestamp)
    → decode p pulses ch len ≡ ok d.measurement
    → Reports jiff pulses ch len d (post jiff d)
unfolding post topic literal
post-decode jiff p pulses ch len d no_quote e =
    let (bits, f, id, temperature, humidity, ranges, _, channel) =
      decode_measurement p pulses ch len e in
    let name = model-decode p pulses ch len e in
    (
      bits,
      report (jiff.date_time d.timestamp) d.measurement d.uptime,
      f,
      ap (λ t. codes "sensors/" ++ t) name,
      read_message-message (jiff.date_time d.timestamp) d.measurement d.uptime no_quote
          (subst HasNoQuote (sym name) name_plain) ranges.decimal,
      refl,
      name,
      id,
      temperature,
      humidity,
      channel,
    )
