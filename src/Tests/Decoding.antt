-- ===== src/Tests/Decoding.antt =====
-- Examples of the decoder: one frame of a sensor that is at 10.1 degrees.
use esp_rf_ook.Prelude.{
  ℕ, ◌≡◌, refl, Bool, true, false, some, map, All, List, [], ◌∷◌, ◌++◌, pos, arith, ok,
}
use esp_rf_ook.Text.{codes}
use esp_rf_ook.Sensor.{NexusThPayload, PackedStruct, layout, new, from}
use esp_rf_ook.Decoder.{PulseCode, high, low, decode}
use esp_rf_ook.Decoder.Encode.{frame_bits}
use esp_rf_ook.Decoder.Frame.{IsFrame, Explains}
use esp_rf_ook.Decoder.Transmit.{Keying, IsPulse, IsNexus, transmit, transmit-IsFrame}
use esp_rf_ook.Decoder.Correct.{decode-Explains}
use esp_rf_ook.Decoder.Measurement.{Measures, decode_measurement}

abbrev pub unpacker : PackedStruct
unpacker = record { unpack = λ bytes. some (layout bytes); unpack_msb0 = λ bytes n h. refl }

abbrev symbol : ℕ → PulseCode
symbol n = record { level1 = high; length1 = 500; level2 = low; length2 = n }

abbrev pub zero_bit : PulseCode
zero_bit = symbol 950

abbrev one_bit : PulseCode
one_bit = symbol 1900

-- id 174, battery ok, channel 1, 101 tenths of a degree, humidity 91, and the terminator.
abbrev pub frame : List PulseCode
frame =
    one_bit
    ∷ zero_bit
    ∷ one_bit
    ∷ zero_bit
    ∷ one_bit
    ∷ one_bit
    ∷ one_bit
    ∷ zero_bit
    ∷ one_bit
    ∷ zero_bit
    ∷ zero_bit
    ∷ zero_bit
    ∷ zero_bit
    ∷ zero_bit
    ∷ zero_bit
    ∷ zero_bit
    ∷ zero_bit
    ∷ one_bit
    ∷ one_bit
    ∷ zero_bit
    ∷ zero_bit
    ∷ one_bit
    ∷ zero_bit
    ∷ one_bit
    ∷ one_bit
    ∷ one_bit
    ∷ one_bit
    ∷ one_bit
    ∷ zero_bit
    ∷ one_bit
    ∷ zero_bit
    ∷ one_bit
    ∷ one_bit
    ∷ zero_bit
    ∷ one_bit
    ∷ one_bit
    ∷ symbol 0
    ∷ zero_bit
    ∷ []

pub decoded_frame :
    decode unpacker frame 1 37 ≡ ok (new (codes "Nexus-TH") (pos 1) 10 1 91 true 1 174)
unfolding decode from layout
decoded_frame = refl

abbrev pub payload : NexusThPayload
payload = record {
  id = 174;
  battery_ok = true;
  unknown_0 = 0;
  channel = 0;
  temp_10x = 101;
  unknown_1 = 15;
  humidity = 91;
}

abbrev pub key : Bool → Keying
key true = record { bit = true; pulse = 500; pause = 1900 }
key false = record { bit = false; pulse = 510; pause = 950 }

key-IsNexus : (b : Bool) → IsNexus (key b)
key-IsNexus true = omega arith
key-IsNexus false = omega arith

keys-IsNexus : (bits : List Bool) → All IsNexus (map key bits)
keys-IsNexus [] = tt
keys-IsNexus (b ∷ bits) = (key-IsNexus b, keys-IsNexus bits)

abbrev pub keys : List Keying
keys = map key (frame_bits payload)

last-IsPulse : IsPulse 490
last-IsPulse = omega arith

abbrev pub sent : List PulseCode
sent = transmit keys 490 ++ []

pub sent-IsFrame : IsFrame sent 37 (frame_bits payload)
sent-IsFrame = transmit-IsFrame 490 last-IsPulse [] keys (keys-IsNexus (frame_bits payload)) refl

decode-Explains_example : Explains frame 1 37 (decode unpacker frame 1 37)
decode-Explains_example = decode-Explains unpacker frame 1 37

decode_measurement_example : Measures frame 1 37 (new (codes "Nexus-TH") (pos 1) 10 1 91 true 1 174)
decode_measurement_example = decode_measurement unpacker frame 1 37 decoded_frame
