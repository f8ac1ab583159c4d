-- ===== src/Tests/Sensors.antt =====
-- Examples of measurements.
use esp_rf_ook.Prelude.{
  List, ℕ, min, ◌≡◌, refl, ◌↔◌, true, false, arith, pos, negsuc, ◌==◌, if◌then◌else◌,
}
use esp_rf_ook.Text.{codes}
use esp_rf_ook.Sensor.{NexusThPayload, from, equal}
use esp_rf_ook.Sensor.Temperature.{signed12, tenths, tenths-from, equal-from}
use esp_rf_ook.Decoder.Encode.{frame_bits, payload_of-frame_bits}
use esp_rf_ook.Decoder.Fields.{payload_of}

-- 4091 is -5 in twelve bits.
abbrev cold : NexusThPayload
cold = record {
  id = 7;
  battery_ok = false;
  unknown_0 = 0;
  channel = 2;
  temp_10x = 4091;
  unknown_1 = 15;
  humidity = 130;
}

abbrev long_name_bytes : List ℕ
long_name_bytes = codes "A sensor with a name longer than its array"

tenths_of_cold : tenths (from cold) ≡ negsuc 4
unfolding from
tenths_of_cold = refl

tenths-from_example : tenths (from cold) ≡ (if 4091 == 2048 then pos 2048 else signed12 4091)
tenths-from_example = tenths-from cold (omega arith)

equal-from_example :
    (equal (from cold) (from cold) ≡ true)
    ↔ ((tenths (from cold) ≡ tenths (from cold)) × (min 130 100 ≡ min 130 100))
equal-from_example = equal-from cold cold (omega arith) (omega arith)

cold_read_back : payload_of (frame_bits cold) ≡ cold
cold_read_back = payload_of-frame_bits cold (omega arith)
