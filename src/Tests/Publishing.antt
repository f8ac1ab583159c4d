-- ===== src/Tests/Publishing.antt =====
-- Examples of the publisher: what is posted, and when the task gives up.
use esp_rf_ook.Publisher.Size.{length-post}
use esp_rf_ook.Prelude.{
  ◌+◌, ◌≤◌, ◌<◌, length, ℕ, ◌≡◌, ◌≢◌, refl, Bool, true, false, none, some, List, [], ◌∷◌, ◌++◌,
  arith, map, pos, negsuc,
}
use esp_rf_ook.Text.{codes, from_utf8, is_utf8}
use esp_rf_ook.Text.Decimal.{decimal, read_number, read-decimal}
use esp_rf_ook.Sensor.{SensorData, new, model}
use esp_rf_ook.Message.{message, literal, display_bool, temperature_text}
use esp_rf_ook.Message.Reader.{read_message}
use esp_rf_ook.Message.RoundTrip.{HasNoQuote, report, read_message-message}
use esp_rf_ook.Publisher.{Jiff, Delivery, post, deliver_all}
use esp_rf_ook.Publisher.Silence.{Timely, last_of, deliver_all_survives, silence_panics}
use esp_rf_ook.Publisher.Content.{Reports, post-decode}
use esp_rf_ook.Tests.Decoding.{unpacker, frame, decoded_frame}

abbrev pub date_time : List ℕ
date_time = codes "2025-12-02 08:32:25 UTC"

abbrev pub clock : Jiff
clock = record { is_timestamp = λ t. true; date_time = λ t. date_time }

abbrev frosty : SensorData
frosty = new (codes "Nexus-TH") (negsuc 0) 0 5 91 true 1 174

abbrev frosty_json : List ℕ
frosty_json =
    codes
      "{\"time\" : \"2025-12-02 08:32:25 UTC\", \"model\" : \"Nexus-TH\", \"id\" : 174, \"channel\" : 1, \"battery_ok\" : true, \"temperature_C\" : -0.5, \"humidity\" : 91, \"uptime\" : 12 }"

frosty_text : message date_time frosty 12 ≡ frosty_json
unfolding message literal display_bool temperature_text model new decimal from_utf8 is_utf8
frosty_text = refl

frosty_plain : HasNoQuote (model frosty)
unfolding model new from_utf8 is_utf8
frosty_plain = omega arith

frosty_digit : frosty.temp_decimal < 10
unfolding new
frosty_digit = omega arith

read_message-message_example :
    read_message (message date_time frosty 12) ≡ some (report date_time frosty 12)
read_message-message_example =
    read_message-message date_time frosty 12 (omega arith) frosty_plain frosty_digit

abbrev pub delivery : ℕ → Bool → Delivery
delivery t published = record {
  measurement = new (codes "Nexus-TH") (pos 1) 10 1 91 true 1 174;
  timestamp = t;
  uptime = 12;
  published = published;
}

post-decode_example :
    Reports clock frame 1 37 (delivery 5000000 true) (post clock (delivery 5000000 true))
post-decode_example =
    post-decode clock unpacker frame 1 37 (delivery 5000000 true) (omega arith) decoded_frame

-- A failure between two successes.
abbrev deliveries : List Delivery
deliveries = delivery 5000000 true ∷ delivery 11000000 false ∷ delivery 300000000 true ∷ []

deliver_all_survives_example :
    (deliver_all clock 0 deliveries ≢ none → Timely clock 0 deliveries)
    × (Timely clock 0 deliveries
        → deliver_all clock 0 deliveries ≡ some (last_of 0 deliveries, map (post clock) deliveries))
deliver_all_survives_example = deliver_all_survives clock 0 deliveries

silence_panics_example :
    deliver_all clock 0 (delivery 5000000 true ∷ delivery 306000000 true ∷ []) ≡ none
silence_panics_example =
    silence_panics clock 0 (delivery 5000000 true ∷ []) (delivery 306000000 true) (refl, refl, tt)
      (refl, tt) (omega arith) (omega arith)

printed_number_read : read_number 0 (decimal 174 ++ codes ", ") ≡ read_number 174 (codes ", ")
printed_number_read = read-decimal 174 (codes ", ")

length-post_example :
    length (post clock (delivery 5000000 true)).topic
      + length (post clock (delivery 5000000 true)).text
    ≤ 195
length-post_example =
    length-post clock unpacker frame 1 37 (delivery 5000000 true) (omega arith) (omega arith)
      decoded_frame
