-- ===== src/Life/Recovers.antt =====
-- Whatever happened before, a good start brings the next measurement to the broker.
use mathlib.Core.List.{append-nil}
use esp_rf_ook.Prelude.{ℕ, ◌<◌, ◌≡◌, ap, ◌∙◌, Bool, true, false, none, List, [], ◌∷◌, ◌++◌, ok}
use esp_rf_ook.Prelude.Words.{sub_u64, gt_i64}
use esp_rf_ook.Sensor.{SensorData, PackedStruct}
use esp_rf_ook.Network.{Network, Call}
use esp_rf_ook.Network.Program.{call_all}
use esp_rf_ook.Ntpc
use esp_rf_ook.Ntpc.Calls.{time_calls, call_all-time_calls}
use esp_rf_ook.Station.{publish_after}
use esp_rf_ook.Boot.{Answers}
use esp_rf_ook.Publisher.{Jiff, post, silence_limit}
use esp_rf_ook.Channel.{Channel, IsChannel}
use esp_rf_ook.System.{Event, heard, delivered, capacity}
use esp_rf_ook.Device.{Readings, round_with, delivery_with, ntp_server}
use esp_rf_ook.Device.Logged.{messages, messages-append, messages-get_time}
use esp_rf_ook.Device.Messages.{content}
use esp_rf_ook.Device.Accepting.{Accepts}
use esp_rf_ook.Device.Frames.{Hears, four_frames_arrive}
use esp_rf_ook.Shared.{Mutex, IsMutex}
use esp_rf_ook.Shared.Ends.{sharing}
use esp_rf_ook.Shared.Reaches.{Steps-equivalent}
use esp_rf_ook.Life.{Phase, running, calls_of, world_of, Lives}
use esp_rf_ook.Life.Starts.{IsGood, TellsTime, starts_again}
use esp_rf_ook.Life.Runs.{runs_all}

module _ {Addr World C L : Type 0} (n : Network Addr World) (q : Channel (SensorData × ℕ) C)
    (laws : IsChannel capacity q) (x : Mutex L) (law : IsMutex x) (is_timestamp : ℕ → Bool)
    (p : PackedStruct) (jiff : Jiff) (mqtt_server : List ℕ) (world : World) where
  -- The first call of `get_time` sends no message.
  first_unsent : (w : World) → messages (call_all n (time_calls ntp_server none) w []).1.calls ≡ []
  unfolding Ntpc.new
  first_unsent w =
      ap (λ r. messages r.1.calls) (call_all-time_calls n ntp_server (Ntpc.new w))
      ∙ messages-get_time n ntp_server (Ntpc.new w)

  -- The device recovers. Whatever its starts were and however they ended, it can be reset and started
  -- again; if nothing fails in that start, the network accepts every call, knows every name and tells
  -- the time, the first four rounds fall into the first hour and each decodes a measurement that equals
  -- `m` from its buffer of 64 pulse codes, the fourth of them more than five seconds after the start of
  -- the loop and not more than 300 after that of the publisher, and the times that are shown and printed
  -- are timestamps, then this start can run, by single calls, so that it sends exactly one message to
  -- the broker, the one that reports the fourth measurement. The channel and the mutex are to keep
  -- their laws.
  pub Lives-recovers :
      {hs : List (List Event)} {past : List (List (Call Addr))} {s : Phase Addr World C L}
      (a : Answers) (m m₁ m₂ m₃ measured : SensorData) (h₁ h₂ h₃ h : Readings) (uptime : ℕ)
      → Lives n q x is_timestamp p jiff mqtt_server world hs past s
      → IsGood is_timestamp a
      → Accepts n
      → TellsTime n
      → Hears is_timestamp p m a.last_time_sync m₁ h₁
      → Hears is_timestamp p m a.last_time_sync m₂ h₂
      → Hears is_timestamp p m a.last_time_sync m₃ h₃
      → Hears is_timestamp p m a.last_time_sync measured h
      → publish_after < sub_u64 h.now a.last_publish
      → gt_i64 (sub_u64 h.now a.publisher_now) silence_limit ≡ false
      → jiff.is_timestamp h.now ≡ true
      → let delivery = delivery_with measured h.now uptime (ok tt) in
        let posted = post jiff delivery in
        (s' : Phase Addr World C L) × Lives n q x is_timestamp p jiff mqtt_server world
          ((delivered delivery posted
              ∷ heard (round_with h (ok 0))
              ∷ heard (round_with h₃ (ok 0))
              ∷ heard (round_with h₂ (ok 0))
              ∷ heard (round_with h₁ (ok 0))
              ∷ [])
            ∷ hs)
          (calls_of s ∷ past)
          s'
        × (messages (calls_of s') ≡ content posted ∷ [])
  Lives-recovers {s = s} a m m₁ m₂ m₃ measured h₁ h₂ h₃ h uptime lives good accepts tells f₁ f₂ f₃ f
        late timely printed =
      let c = (call_all n (time_calls ntp_server none) (world_of s) []).1 in
      let (d, steps, sent, _, _, _, _) =
        four_frames_arrive n q laws is_timestamp p jiff mqtt_server a.last_time_sync a.last_publish
          a.publisher_now c.addr c.world m m₁ m₂ m₃ measured h₁ h₂ h₃ h uptime accepts f₁ f₂ f₃ f
          late timely printed in
      let (l, _, run) =
        (Steps-equivalent n q x law is_timestamp p jiff mqtt_server a.last_time_sync a.last_publish
            a.publisher_now c.addr c.world _ d).0
          steps in
      (
        running (sharing d l none none) c.calls,
        runs_all n q x is_timestamp p jiff mqtt_server world c.calls
            (starts_again n q x is_timestamp p jiff mqtt_server world a good accepts tells lives)
            run,
        messages-append d.calls c.calls
            ∙ ap (λ l. messages d.calls ++ l) (first_unsent (world_of s))
            ∙ append-nil (messages d.calls)
            ∙ sent,
      )
