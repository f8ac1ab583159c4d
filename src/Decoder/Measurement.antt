-- ===== src/Decoder/Measurement.antt =====
-- What a measurement that `decode` returns is worth: its ranges, and its signed temperature.
use mathlib.Core.Path.{subst}
use native.Mathlib.Nat.{le_trans, pow-le-pow_right}
use esp_rf_ook.Prelude.{
  ℕ, ◌+◌, ◌-◌, ◌^◌, ◌<◌, min, ◌≡◌, refl, sym, ap, ◌∙◌, Bool, List, arith, take, drop, length-take,
  ok,
}
use esp_rf_ook.Prelude.Bytes.{value-lt}
use esp_rf_ook.Sensor.{SensorData, NexusThPayload, PackedStruct, from}
use esp_rf_ook.Sensor.Temperature.{signed12, tenths, tenths-from, IsInRange, from-IsInRange}
use esp_rf_ook.Decoder.{PulseCode, decode}
use esp_rf_ook.Decoder.Fields.{field, payload_of}
use esp_rf_ook.Decoder.Frame.{IsFrame, measured, Explains}
use esp_rf_ook.Decoder.Correct.{decode-Explains}

pub field-lt : (first last : ℕ) (bits : List Bool) → field first last bits < 2 ^ (last - first + 1)
field-lt first last bits =
    let w = last - first + 1 in
    le_trans (value-lt (take w (drop first bits)))
      (pow-le-pow_right (omega arith) (omega (arith, length-take w (drop first bits))))

-- Below 60 degrees the pattern 0x800 does not occur.
tenths-from_mild :
    (pld : NexusThPayload)
    → pld.temp_10x < 4096
    → (from pld).temp_int < 60
    → tenths (from pld) ≡ signed12 pld.temp_10x
unfolding from
tenths-from_mild pld h mild = ground (arith, tenths-from pld h)

id-from : (pld : NexusThPayload) → (from pld).id ≡ pld.id
unfolding from
id-from pld = refl

humidity-from : (pld : NexusThPayload) → (from pld).humidity ≡ min pld.humidity 100
unfolding from
humidity-from pld = ground arith

-- What `res` is worth, if it was decoded from the symbols on the channel `ch`.
abbrev pub Measures : List PulseCode → ℕ → ℕ → SensorData → Type 0
Measures pulses ch len res =
    (bits : List Bool) × IsFrame pulses len bits
    × (res.id ≡ field 0 7 bits)
    × (tenths res ≡ signed12 (field 12 23 bits))
    × (res.humidity ≡ min (field 28 35 bits) 100)
    × IsInRange res
    × (res.temp_int < 60)
    × (res.channel ≡ ch)

module _ (p : PackedStruct) where
  -- A measurement that is returned stands for the 36 bits of a frame: its id is theirs, its sign and
  -- digits are exactly the temperature that the bits 12 to 23 spell in two's complement, its
  -- humidity is that of the last byte cut at 100, and all its fields are in their ranges.
  pub decode_measurement :
      (pulses : List PulseCode) (ch len : ℕ) {res : SensorData}
      → decode p pulses ch len ≡ ok res
      → Measures pulses ch len res
  decode_measurement pulses ch len {res} e =
      let (bits, f, same, mild, chan) =
        subst (Explains pulses ch len) e (decode-Explains p pulses ch len) in
      let mild' : (measured bits).temp_int < 60 = subst (λ s. s.temp_int < 60) same mild in
      (
        bits,
        f,
        ap (λ (s : SensorData). s.id) same ∙ id-from (payload_of bits),
        ap tenths same ∙ tenths-from_mild (payload_of bits) (field-lt 12 23 bits) mild',
        ap (λ (s : SensorData). s.humidity) same ∙ humidity-from (payload_of bits),
        subst IsInRange (sym same) (from-IsInRange (payload_of bits) (field-lt 10 11 bits)),
        mild,
        chan,
      )
