-- ===== src/Station.antt =====
-- The receive loop of `main` in src/bin/main.rs.
pub mod Cases
pub mod Effect
pub mod Publishing
pub mod Runs
pub mod Liveness
pub mod Panics
pub mod Clock
pub mod Spacing
pub mod Early
pub mod Widths
use esp_rf_ook.Prelude.{
  ℕ, suc, ◌+◌, Bool, true, false, not, ◌&&◌, Option, none, some, List, [], ◌∷◌, ◌++◌, ltb, ◌==◌,
  if◌then◌else◌, Outcome, ok, err, panic, length,
}
use esp_rf_ook.Prelude.Options.{◌>>=◌}
use esp_rf_ook.Prelude.Words.{sub_u64, mul_u64}
use esp_rf_ook.Sensor.{SensorData, PackedStruct, default, equal}
use esp_rf_ook.Decoder.{PulseCode, DecodeError, decode}
use esp_rf_ook.Ntpc.{NtpcError}

-- The variables that live across the rounds of the loop. Times are in microseconds.
pub record Station : Type 0 where
  pub measurement : SensorData
  pub measurement_cnt : ℕ  -- i32
  pub last_publish : ℕ  -- u64
  pub last_time_sync : ℕ  -- u64

-- What a round does to the devices and the channel, in order.
pub data Action : Type 0 where
  feed : Action
  set_current_time_us : ℕ → Action
  send : SensorData → ℕ → Action

-- What `select` on the receiver and the one-second timer comes back with.
pub data Received : Type 0 where
  symbols : List PulseCode → ℕ → Received
  receive_error : Received
  timer : Received

-- What the hardware and the network answer in one round: the clock where the round asks for it, the
-- reply of `get_time` if it is called, and what was received.
pub record Round : Type 0 where
  pub checked : ℕ
  pub ntp : Outcome NtpcError ℕ
  pub synced : ℕ
  pub shown : ℕ
  pub received : Received
  pub now : ℕ

abbrev pub resync_after : ℕ
resync_after = 3600000000

abbrev pub publish_after : ℕ
publish_after = 5000000

unfoldable pub start : ℕ → ℕ → Station
start last_time_sync last_publish = record {
  measurement = default;
  measurement_cnt = 0;
  last_publish = last_publish;
  last_time_sync = last_time_sync;
}

-- A measurement that was decoded. The loop asks for the time only if it equals the last one.
unfoldable pub on_measurement : Station → ℕ → SensorData → Station × List Action
on_measurement s now parsed =
    if not (equal s.measurement parsed)
    then (record s { measurement = parsed; measurement_cnt = 1 }, [])
    else if s.measurement_cnt == 3 && ltb publish_after (sub_u64 now s.last_publish)
    then (record s { last_publish = now }, send parsed now ∷ [])
    else if ltb s.measurement_cnt 3
    then (record s { measurement_cnt = s.measurement_cnt + 1 }, [])
    else (s, [])

-- `none` is a panic. Whether jiff takes a time in microseconds for a timestamp is a parameter.
module _ (is_timestamp : ℕ → Bool) where
  sync_time : Station → Round → Outcome NtpcError ℕ → Option (Station × List Action)
  sync_time s r (ok time) =
      if is_timestamp r.shown
      then some
          (record s { last_time_sync = r.synced }, set_current_time_us (mul_u64 time 1000000) ∷ [])
      else none
  sync_time s r (err e) = none
  sync_time s r panic = none

  unfoldable pub resync : Station → Round → Option (Station × List Action)
  unfolding sync_time
  resync s r =
      if ltb resync_after (sub_u64 r.checked s.last_time_sync)
      then sync_time s r r.ntp
      else some (s, [])

-- Decode errors are only logged.
on_decoded : Station → ℕ → Outcome DecodeError SensorData → Option (Station × List Action)
on_decoded s now (ok parsed) = some (on_measurement s now parsed)
on_decoded s now (err e) = some (s, [])
on_decoded s now panic = none

module _ (p : PackedStruct) where
  -- A receive error is dropped, and so is a round in which the timer comes first.
  unfoldable pub on_received : Station → ℕ → Received → Option (Station × List Action)
  unfolding on_decoded
  on_received s now (symbols buffer symbol_count) =
      on_decoded s now (decode p buffer 1 symbol_count)
  on_received s now receive_error = some (s, [])
  on_received s now timer = some (s, [])

module _ (is_timestamp : ℕ → Bool) (p : PackedStruct) where
  -- One round of the loop: the watchdog is fed at its start and behind the wait.
  unfoldable pub round : Station → Round → Option (Station × List Action)
  round s r = do
    (s', synced) ← resync is_timestamp s r
    (s'', sent) ← on_received p s' r.now r.received
    some (s'', feed ∷ (synced ++ (feed ∷ sent)))

  unfoldable pub run : Station → List Round → Option (Station × List Action)
  run s [] = some (s, [])
  run s (r ∷ rs) = do
    (s', actions) ← round s r
    (s'', more) ← run s' rs
    some (s'', actions ++ more)
