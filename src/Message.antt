-- ===== src/Message.antt =====
-- What the task `mqtt_publisher` of src/bin/main.rs publishes: the topic and the JSON text.
pub mod Reader
pub mod RoundTrip
pub mod Length
use Prim.Native.String.{String}
use esp_rf_ook.Prelude.{ℕ, Bool, true, false, List, [], ◌∷◌, ◌++◌, ℤ, is_negative, if◌then◌else◌}
use esp_rf_ook.Text.{codes}
use esp_rf_ook.Text.Decimal.{decimal}
use esp_rf_ook.Sensor.{SensorData, model}

-- The text between the values. It stays shut, so that proofs read it as a whole.
unfoldable pub literal : String → List ℕ
literal s = codes s

-- `{}` of a bool.
unfoldable pub display_bool : Bool → List ℕ
display_bool true = codes "true"
display_bool false = codes "false"

-- `{}{}.{}` of the sign, a minus or nothing, and the two parts of the temperature.
unfoldable pub signed_text : ℤ → ℕ → ℕ → List ℕ
signed_text sign temp_int temp_decimal =
    (if is_negative sign then b'-' ∷ [] else [])
    ++ (decimal temp_int ++ (literal "." ++ decimal temp_decimal))

unfoldable pub temperature_text : SensorData → List ℕ
unfolding signed_text
temperature_text s = signed_text s.sign s.temp_int s.temp_decimal

unfoldable pub topic : SensorData → List ℕ
topic s = literal "sensors/" ++ model s

abbrev pub join : List (List ℕ) → List ℕ
join [] = []
join (t ∷ ts) = t ++ join ts

-- The pieces of the format and its values. The time is the text that jiff makes of the timestamp.
abbrev pub parts : List ℕ → SensorData → ℕ → List (List ℕ)
parts date_time s uptime =
    literal "{\"time\" : \""
    ∷ date_time
    ∷ literal "\", \"model\" : \""
    ∷ model s
    ∷ literal "\", \"id\" : "
    ∷ decimal s.id
    ∷ literal ", \"channel\" : "
    ∷ decimal s.channel
    ∷ literal ", \"battery_ok\" : "
    ∷ display_bool s.battery_ok
    ∷ literal ", \"temperature_C\" : "
    ∷ temperature_text s
    ∷ literal ", \"humidity\" : "
    ∷ decimal s.humidity
    ∷ literal ", \"uptime\" : "
    ∷ decimal uptime
    ∷ literal " }"
    ∷ []

unfoldable pub message : List ℕ → SensorData → ℕ → List ℕ
message date_time s uptime = join (parts date_time s uptime)
