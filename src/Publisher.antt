-- ===== src/Publisher.antt =====
-- The task `mqtt_publisher` of src/bin/main.rs. Times are the bit patterns of i64 microseconds.
pub mod Silence
pub mod Content
pub mod Size
use esp_rf_ook.Prelude.{ℕ, Bool, true, false, Option, none, some, List, [], ◌∷◌, if◌then◌else◌}
use esp_rf_ook.Prelude.Options.{◌>>=◌}
use esp_rf_ook.Prelude.Words.{sub_u64, gt_i64}
use esp_rf_ook.Sensor.{SensorData}
use esp_rf_ook.Message.{topic, message}

abbrev pub silence_limit : ℕ
silence_limit = 300000000

-- What the task uses of jiff: whether microseconds are a timestamp, and its text.
pub record Jiff : Type 0 where
  pub is_timestamp : ℕ → Bool
  pub date_time : ℕ → List ℕ

-- A message taken from the channel, the uptime at that time, and whether `publish` returns `Ok`.
pub record Delivery : Type 0 where
  pub measurement : SensorData
  pub timestamp : ℕ
  pub uptime : ℕ
  pub published : Bool

-- What is handed to `Mqtt::publish`.
pub record Post : Type 0 where
  pub topic : List ℕ
  pub text : List ℕ

module _ (jiff : Jiff) where
  unfoldable pub post : Delivery → Post
  post d = record {
    topic = topic d.measurement;
    text = message (jiff.date_time d.timestamp) d.measurement d.uptime;
  }

  -- One turn of the loop; `none` is a panic.
  unfoldable pub deliver : ℕ → Delivery → Option (ℕ × Post)
  deliver last_publish d =
      if gt_i64 (sub_u64 d.timestamp last_publish) silence_limit
      then none
      else if jiff.is_timestamp d.timestamp
      then some (if d.published then d.timestamp else last_publish, post d)
      else none

  unfoldable pub deliver_all : ℕ → List Delivery → Option (ℕ × List Post)
  deliver_all last_publish [] = some (last_publish, [])
  deliver_all last_publish (d ∷ ds) = do
    (last, sent) ← deliver last_publish d
    (last', more) ← deliver_all last ds
    some (last', sent ∷ more)
