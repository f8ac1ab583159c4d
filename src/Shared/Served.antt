-- ===== src/Shared/Served.antt =====
-- A task that is to use the network gets to use it.
use mathlib.Core.Path.{subst}
use esp_rf_ook.Prelude.{refl, ℕ, sym, ◌∙◌, ◌⊎◌, inl, inr, Bool, Option, List, []}
use esp_rf_ook.Sensor.{SensorData, PackedStruct}
use esp_rf_ook.Network.{Network}
use esp_rf_ook.Publisher.{Jiff}
use esp_rf_ook.Channel.{Channel}
use esp_rf_ook.System.{Event}
use esp_rf_ook.Device.{Device}
use esp_rf_ook.Shared.{Mutex, IsMutex, Shared, shared_started, Steps, here}
use esp_rf_ook.Shared.Atomic.{Atomic, free, asking, publishing}
use esp_rf_ook.Shared.Runs.{Steps-Atomic}
use esp_rf_ook.Shared.Ends.{turn_ends}
use esp_rf_ook.Shared.Wants.{
  Wants, message, hour, Served, Failed, loop_ends_or_fails, turn_starts, loop_starts,
}

module _ {Addr World C L : Type 0} (n : Network Addr World) (q : Channel (SensorData × ℕ) C)
    (x : Mutex L) (law : IsMutex x) (is_timestamp : ℕ → Bool) (p : PackedStruct) (jiff : Jiff)
    (mqtt_server : List ℕ) where
  Atomic-Served :
      {s : Device Addr World C} {es : List Event} (f : Shared Addr World C L)
      → Atomic n q x law is_timestamp p jiff mqtt_server s es f
      → (w : Wants jiff f)
      → Served n q x law is_timestamp p jiff mqtt_server f w
        ⊎ Failed n q x law is_timestamp p jiff mqtt_server f w
  Atomic-Served f (free no_loop no_turn unlocked _) (message m timestamp i loud timed) =
      let (f', r, run) =
        turn_starts n q x law is_timestamp p jiff mqtt_server f m timestamp here no_turn unlocked i
          loud timed in
      inl ([], f', 0, r, run)
  Atomic-Served f (publishing m' timestamp' uptime rest i' h a) (message m timestamp i loud timed) =
      let run =
        turn_ends n q x is_timestamp p jiff mqtt_server rest f.device f.mutex f.loop m timestamp
          uptime _ _ i refl
          (subst
            (λ turn. Steps n q x is_timestamp p jiff mqtt_server f [] (record f { turn = turn })) h
            here) in
      inl ([], _, uptime, _, run)
  Atomic-Served f (asking checked rest h a) (message m timestamp i loud timed) =
      elim (loop_ends_or_fails n q x law is_timestamp p jiff mqtt_server rest f.device f.mutex
        f.turn checked
        (subst (λ loop. Steps n q x is_timestamp p jiff mqtt_server f [] (record f { loop = loop }))
          h here)) [
            | inl (_, _, run) ↦
                let (f', r, run') =
                  turn_starts n q x law is_timestamp p jiff mqtt_server _ m timestamp run a.no_turn
                    (law.locked-unlock f.mutex) i loud timed in
                inl ([], f', 0, r, run')
            | inr failed ↦ inr (checked, rest, h, failed)
          ]
  Atomic-Served f (free no_loop no_turn unlocked _) (hour checked off idle due) =
      elim (loop_starts n q x law is_timestamp p jiff mqtt_server f checked here off unlocked idle
        due) [ inl (f', time, run, e) ↦ inl ([], f', time, run, e) | inr failed ↦ inr ([], failed) ]
  Atomic-Served f (asking _ rest h a) (hour checked off idle due) = cc (sym off ∙ h)
  Atomic-Served f (publishing m timestamp uptime rest i h a) (hour checked off idle due) =
      let run =
        turn_ends n q x is_timestamp p jiff mqtt_server rest f.device f.mutex f.loop m timestamp
          uptime _ _ i refl
          (subst
            (λ turn. Steps n q x is_timestamp p jiff mqtt_server f [] (record f { turn = turn })) h
            here) in
      elim (loop_starts n q x law is_timestamp p jiff mqtt_server _ checked run off
        (law.locked-unlock f.mutex) idle due) [
          | inl (f', time, run', e) ↦ inl (_, f', time, run', e)
          | inr failed ↦ inr (_, failed)
        ]

  -- From every state that the two tasks can reach by single calls, whatever the network answers: a
  -- message in hand, of a time that jiff takes and at most 300 seconds after the last success, has
  -- steps by which it is delivered, and an hourly check that is due has steps by which the loop gets
  -- the time; or the `get_time` that the loop is at, or that of this check, comes to no time, where
  -- `main` panics.
  pub Steps-Served :
      (last_time_sync last_publish publisher_now : ℕ) (ntpc : Option Addr) (world : World)
      {es : List Event} (f : Shared Addr World C L)
      → Steps n q x is_timestamp p jiff mqtt_server
          (shared_started q x last_time_sync last_publish publisher_now ntpc world)
          es
          f
      → (w : Wants jiff f)
      → Served n q x law is_timestamp p jiff mqtt_server f w
        ⊎ Failed n q x law is_timestamp p jiff mqtt_server f w
  Steps-Served last_time_sync last_publish publisher_now ntpc world f steps = Atomic-Served f (
      Steps-Atomic n q x law is_timestamp p jiff mqtt_server last_time_sync last_publish
        publisher_now ntpc world steps)
