-- ===== src/Life/Carries.antt =====
-- From the antenna to the network, through all starts.
use esp_rf_ook.Prelude.{ℕ, Bool, List, ◌∷◌, All}
use esp_rf_ook.Sensor.{SensorData, PackedStruct}
use esp_rf_ook.Network.{Network, Call}
use esp_rf_ook.Message.RoundTrip.{HasNoQuote}
use esp_rf_ook.Publisher.{Jiff}
use esp_rf_ook.Channel.{Channel, IsChannel}
use esp_rf_ook.System.{capacity, Event}
use esp_rf_ook.Device.Logged.{messages}
use esp_rf_ook.Shared.{Mutex, IsMutex}
use esp_rf_ook.Life.{Phase, calls_of, Lives}
use esp_rf_ook.Life.Each.{Paired, Lives-Paired}
use esp_rf_ook.Device.Messages.{Carries}
use esp_rf_ook.Shared.Messages.{Steps-Carries}

module _ {Addr World C L : Type 0} (n : Network Addr World) (q : Channel (SensorData × ℕ) C)
    (laws : IsChannel capacity q) (x : Mutex L) (law : IsMutex x) (is_timestamp : ℕ → Bool)
    (p : PackedStruct) (jiff : Jiff) (mqtt_server : List ℕ) where
  -- Through all the starts of the device, whatever ends each of them and whenever, also in the middle of
  -- a call: every message that one start sends carries the topic and the text that report the frame
  -- which a round of this same start received; nothing is carried over from an earlier one, whatever
  -- the network answers and however the tasks interleave. No printed time is to hold a quote, and the
  -- channel and the mutex are to keep their laws.
  pub Lives-Carries :
      ((t : ℕ) → HasNoQuote (jiff.date_time t))
      → (world : World) {hs : List (List Event)} {past : List (List (Call Addr))}
        {s : Phase Addr World C L}
      → Lives n q x is_timestamp p jiff mqtt_server world hs past s
      → Paired (λ es made. All (Carries jiff es) (messages made)) hs (calls_of s ∷ past)
  Lives-Carries plain world lives =
      Lives-Paired n q x is_timestamp p jiff mqtt_server (λ es. All (Carries jiff es)) tt
        (λ a b c d e es f steps.
          Steps-Carries n q laws x law is_timestamp p jiff mqtt_server a b c d e plain steps)
        lives
