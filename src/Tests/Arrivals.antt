-- ===== src/Tests/Arrivals.antt =====
-- The fourth frame comes through to the broker.
use esp_rf_ook.Prelude.{◌++◌, replicate, false, ℕ, ◌≡◌, refl, true, some, List, [], ◌∷◌, arith, ok}
use esp_rf_ook.Sensor.{layout, new, from}
use esp_rf_ook.Decoder.{PulseCode, decode}
use esp_rf_ook.Prelude.Words.{sub_u64, gt_i64}
use esp_rf_ook.Publisher.{silence_limit}
use esp_rf_ook.Station.{symbols}
use esp_rf_ook.System.{heard, delivered}
use esp_rf_ook.Device.{Device, client, Steps}
use esp_rf_ook.Device.Messages.{content}
use esp_rf_ook.Device.{Readings}
use esp_rf_ook.Device.{here}
use esp_rf_ook.Prelude.{none, ◌≤◌}
use esp_rf_ook.Device.Frames.{Hears}
use esp_rf_ook.Device.Accepting.{Accepts}
use esp_rf_ook.Device.Arrives.{confirmed_measurement_arrives}
use esp_rf_ook.Device.Logged.{messages}
use esp_rf_ook.Tests.Decoding.{zero_bit, frame, unpacker}
use esp_rf_ook.Tests.Stations.{at_time, mild_repeated, any_time, mild}
use esp_rf_ook.Tests.Publishing.{delivery, clock}
use esp_rf_ook.Tests.Systems.{the_post}
use esp_rf_ook.Tests.Queues.{Messages, queue, queue_laws}
use esp_rf_ook.Tests.Devices.{network, broker, reading, listening, not_due}

pub accepting : Accepts network
accepting = record { query = λ name world. (99, [], refl); attempt = λ call world. refl }

pub not_silent : gt_i64 (sub_u64 7000000 0) silence_limit ≡ false
not_silent = refl

-- The buffer of 64 pulse codes, of which the frame takes the first 37.
abbrev pub buffer : List PulseCode
buffer = frame ++ replicate 26 zero_bit

decoded_buffer : decode unpacker buffer 1 37 ≡ ok mild
unfolding decode from layout new
decoded_buffer = refl

confirmed_measurement_arrives_example :
    (d' : Device ℕ ℕ Messages) × Steps network queue any_time unpacker clock broker
      (listening 3)
      (delivered (delivery 7000000 true) the_post
        ∷ heard (at_time 7000000 (symbols buffer 37))
        ∷ [])
      d'
    × (messages d'.calls ≡ content the_post ∷ [])
    × (d'.channel ≡ [])
    × (d'.in_hand ≡ none)
    × (d'.station.last_publish ≡ 7000000)
    × (d'.last_publish ≡ 7000000)
confirmed_measurement_arrives_example =
    confirmed_measurement_arrives network queue queue_laws any_time unpacker clock broker
      (listening 3) (reading (at_time 7000000 (symbols buffer 37))) buffer 37 mild 0 12
      (client (some 99) (listening 3)) here accepting refl refl decoded_buffer refl
      (not_due 3 7000000 (omega arith)) refl mild_repeated refl (omega arith) refl refl not_silent
      refl

abbrev pub buffered : ℕ → Readings
buffered t = reading (at_time t (symbols buffer 37))

pub Hears-mild : (t : ℕ) → t ≤ 7000000 → Hears any_time unpacker mild 0 mild (buffered t)
Hears-mild t h = record {
  buffer = buffer;
  symbol_count = 37;
  received = refl;
  full = refl;
  decoded = decoded_buffer;
  same = mild_repeated;
  early = ground arith;
  shown = refl;
}
