-- ===== src/Life.antt =====
-- The device through its starts: `main` of src/bin/main.rs from power-up or a reset to the panic, the
-- watchdog or the power that ends it, over and over. What is in memory begins anew; the network goes on.
pub mod Runs
pub mod Each
pub mod Carries
pub mod Logged
pub mod Starts
pub mod Recovers
pub mod Handled
use esp_rf_ook.Prelude.{
  ℕ, ◌≡◌, Bool, true, false, Option, none, some, List, [], ◌∷◌, ◌++◌, Outcome, ok, err, panic,
}
use esp_rf_ook.Sensor.{SensorData, PackedStruct}
use esp_rf_ook.Network.{Network, Call}
use esp_rf_ook.Network.Program.{Program, ends, call_next}
use esp_rf_ook.Ntpc.{NtpcError}
use esp_rf_ook.Ntpc.Calls.{time_calls}
use esp_rf_ook.Station.{Station, round}
use esp_rf_ook.Station.Panics.{HasBuffer}
use esp_rf_ook.Wifi.{Radio, connection}
use esp_rf_ook.Boot.{Answers, done, panicked, join_network, set_up}
use esp_rf_ook.Publisher.{Jiff}
use esp_rf_ook.Channel.{Channel}
use esp_rf_ook.System.{Event}
use esp_rf_ook.Device.{Readings, round_with, is_ok, ntp_server}
use esp_rf_ook.Shared
use esp_rf_ook.Shared.{Mutex, Shared, is_silent, shared_started}

-- Where the start is: before the network is there; in the first call of `get_time`, with what is left
-- of it; in its two tasks, with the calls of that first one; or in the panic handler.
pub data Phase (Addr World C L : Type 0) : Type 0 where
  off : World → Phase Addr World C L
  asking : Answers → Program Addr NtpcError ℕ → World → List (Call Addr) → Phase Addr World C L
  running : Shared Addr World C L → List (Call Addr) → Phase Addr World C L
  halted : World → List (Call Addr) → Phase Addr World C L

module _ {Addr World C L : Type 0} where
  -- The calls that this start has made, the latest first.
  abbrev pub calls_of : Phase Addr World C L → List (Call Addr)
  calls_of (off world) = []
  calls_of (asking a rest world calls) = calls
  calls_of (running f first) = f.device.calls ++ first
  calls_of (halted world calls) = calls

  abbrev pub world_of : Phase Addr World C L → World
  world_of (off world) = world
  world_of (asking a rest world calls) = world
  world_of (running f first) = f.device.world
  world_of (halted world calls) = world

  -- `Wifi::new` is done: the task that it has spawned goes on.
  abbrev pub IsUp : Phase Addr World C L → Type 0
  IsUp (off world) = ⊥
  IsUp (asking a rest world calls) = Unit
  IsUp (running f first) = Unit
  IsUp (halted world calls) = ⊥

  module _ (n : Network Addr World) (q : Channel (SensorData × ℕ) C) (x : Mutex L)
      (is_timestamp : ℕ → Bool) (p : PackedStruct) (jiff : Jiff) (mqtt_server : List ℕ) where
    -- The panics of the two tasks: `expect` on the time, a round that panics with the buffer of 64 pulse
    -- codes, a long silence, and a time that jiff does not take.
    pub data Panics (f : Shared Addr World C L) : Type 0 where
      no_time :
          (checked : ℕ) (r : Outcome NtpcError ℕ) (addr : Option Addr)
          → f.loop ≡ some (checked, ends r addr)
          → is_ok r ≡ false
          → Panics f
      bad_round :
          (h : Readings) (time : ℕ)
          → f.device.asked ≡ some (h.checked, time)
          → HasBuffer h.received
          → round is_timestamp p f.device.station (round_with h (ok time)) ≡ none
          → Panics f
      silence :
          (m : SensorData) (timestamp : ℕ)
          → f.turn ≡ none
          → f.device.in_hand ≡ some (m, timestamp)
          → is_silent timestamp f.device.last_publish ≡ true
          → Panics f
      no_date_time :
          (m : SensorData) (timestamp : ℕ)
          → f.turn ≡ none
          → f.device.in_hand ≡ some (m, timestamp)
          → jiff.is_timestamp timestamp ≡ false
          → Panics f

    -- A step within a start, with the events of its two tasks. A panic stops all tasks, also one of the
    -- task that keeps the connection.
    pub data Step : Phase Addr World C L → List Event → Phase Addr World C L → Type 0 where
      joins :
          (a : Answers) (world : World)
          → (join_network a).0 ≡ done tt
          → Step (off world) [] (asking a (time_calls ntp_server none) world [])
      fails_to_join :
          (a : Answers) (world : World)
          → (join_network a).0 ≡ panicked
          → Step (off world) [] (halted world [])
      awaits :
          (a : Answers) (rest later : Program Addr NtpcError ℕ) (world world' : World)
          (made made' : List (Call Addr))
          → call_next n rest world made ≡ some (later, world', made')
          → Step (asking a rest world made) [] (asking a later world' made')
      starts :
          (a : Answers) (r : Outcome NtpcError ℕ) (addr : Option Addr) (world : World)
          (made : List (Call Addr)) (station : Station)
          → (set_up is_timestamp (record a { ntp = r })).0 ≡ done station
          → Step (asking a (ends r addr) world made) [] (
              running
                (shared_started q x a.last_time_sync a.last_publish a.publisher_now addr world)
                made)
      fails_to_start :
          (a : Answers) (r : Outcome NtpcError ℕ) (addr : Option Addr) (world : World)
          (made : List (Call Addr))
          → (set_up is_timestamp (record a { ntp = r })).0 ≡ panicked
          → Step (asking a (ends r addr) world made) [] (halted world made)
      runs :
          (f f' : Shared Addr World C L) (new : List Event) (first : List (Call Addr))
          → Shared.Step n q x is_timestamp p jiff mqtt_server f new f'
          → Step (running f first) new (running f' first)
      panics :
          (f : Shared Addr World C L) (first : List (Call Addr))
          → Panics f
          → Step (running f first) [] (halted f.device.world (f.device.calls ++ first))
      loses_wifi :
          (r : Radio) (s : Phase Addr World C L)
          → IsUp s
          → connection r ≡ none
          → Step s [] (halted (world_of s) (calls_of s))

    -- The starts of a device that is powered up, each with its events, the latest first, and where the
    -- latest is; `past` has the calls of the others. The watchdog or the power may reset it at any time.
    pub data Lives (world : World)
        : List (List Event) → List (List (Call Addr)) → Phase Addr World C L → Type 0 where
      powers : Lives world ([] ∷ []) [] (off world)
      next :
          {es : List Event} {earlier : List (List Event)} {past : List (List (Call Addr))}
          {s s' : Phase Addr World C L} (new : List Event)
          → Lives world (es ∷ earlier) past s
          → Step s new s'
          → Lives world ((new ++ es) ∷ earlier) past s'
      resets :
          {hs : List (List Event)} {past : List (List (Call Addr))} {s : Phase Addr World C L}
          → Lives world hs past s
          → Lives world ([] ∷ hs) (calls_of s ∷ past) (off (world_of s))
