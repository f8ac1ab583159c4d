-- ===== src/Life/Logged.antt =====
-- What the network carries of each start.
use esp_rf_ook.Prelude.{ℕ, [], Bool, List, ◌∷◌, refl, inl}
use esp_rf_ook.Sensor.{SensorData, PackedStruct}
use esp_rf_ook.Network.{Network, Call}
use esp_rf_ook.Publisher.{Jiff}
use esp_rf_ook.Channel.{Channel}
use esp_rf_ook.System.{Event}
use esp_rf_ook.Device.Logged.{messages}
use esp_rf_ook.Shared.{Mutex, IsMutex}
use esp_rf_ook.Life.{Phase, calls_of, Lives}
use esp_rf_ook.Life.Each.{Paired, Lives-Paired}
use esp_rf_ook.Shared.Logged.{IsLogged, Steps-IsLogged}

module _ {Addr World C L : Type 0} (n : Network Addr World) (q : Channel (SensorData × ℕ) C)
    (x : Mutex L) (law : IsMutex x) (is_timestamp : ℕ → Bool) (p : PackedStruct) (jiff : Jiff)
    (mqtt_server : List ℕ) where
  -- Through all the starts of the device, whatever ends each of them and whenever, also in the middle of
  -- a call: the network carries what the publisher reports. The messages that one start sends are, in
  -- order, one for each delivery whose publication returned `Ok`, one or none for each other delivery,
  -- and at most one more after them, of a publication that is not at its end, whatever the network
  -- answers and however the tasks interleave. The mutex is to keep its laws.
  pub Lives-IsLogged :
      (world : World) {hs : List (List Event)} {past : List (List (Call Addr))}
      {s : Phase Addr World C L}
      → Lives n q x is_timestamp p jiff mqtt_server world hs past s
      → Paired (λ es made. IsLogged jiff es (messages made)) hs (calls_of s ∷ past)
  Lives-IsLogged world lives =
      Lives-Paired n q x is_timestamp p jiff mqtt_server (IsLogged jiff) ([], refl, inl refl)
        (λ a b c d e es f steps.
          Steps-IsLogged n q x law is_timestamp p jiff mqtt_server a b c d e steps)
        lives
