-- ===== src/Tests/Stations.antt =====
-- Examples of the receive loop: a sensor that repeats its frame.
use esp_rf_ook.Station.Widths.{FitsStation, FitsAction, run-start-Fits}
use esp_rf_ook.Station.Spacing.{Ascending, Spaced, sends-run-Spaced}
use esp_rf_ook.Prelude.{
  ℕ, ◌<◌, ◌≤◌, ◌≡◌, ◌≢◌, refl, ◌↔◌, Bool, true, none, some, List, [], ◌∷◌, ◌++◌, arith, All, pos,
  ok, err, replicate,
}
use esp_rf_ook.Prelude.Words.{sub_u64, mul_u64}
use esp_rf_ook.Text.{codes}
use esp_rf_ook.Sensor.{SensorData, layout, new, default, from, equal}
use esp_rf_ook.Decoder.{decode}
use esp_rf_ook.Ntpc.{timeout}
use esp_rf_ook.Station.{
  set_current_time_us, Station, Action, feed, send, Received, symbols, receive_error, timer, Round,
  resync_after, publish_after, start, on_measurement, on_received, resync, round, run,
}
use esp_rf_ook.Station.Effect.{sends, accepted}
use esp_rf_ook.Station.Runs.{Published, run-start-Published}
use esp_rf_ook.Station.Liveness.{Repeats, heard, stable_measurement_sent}
use esp_rf_ook.Station.Clock.{clock_steps_back}
use esp_rf_ook.Station.Panics.{LacksTime, round_panics, run_served}
use esp_rf_ook.Tests.Decoding.{unpacker, frame, zero_bit}

abbrev pub any_time : ℕ → Bool
any_time t = true

abbrev pub at_time : ℕ → Received → Round
at_time t received = record {
  checked = t;
  ntp = ok 0;
  synced = t;
  shown = t;
  received = received;
  now = t;
}

abbrev pub mild : SensorData
mild = new (codes "Nexus-TH") (pos 1) 10 1 91 true 1 174

abbrev pub heard_at : ℕ → Round
heard_at t = at_time t (symbols frame 37)

-- Three frames, a quiet second and noise between.
abbrev before : List Round
before =
    heard_at 1000000
    ∷ heard_at 1100000
    ∷ at_time 2000000 timer
    ∷ at_time 2500000 receive_error
    ∷ heard_at 3000000
    ∷ []

-- The fourth frame, seven seconds after the start.
abbrev last_round : Round
last_round = heard_at 7000000

abbrev after_run : Station
after_run = record {
  measurement = mild;
  measurement_cnt = 3;
  last_publish = 7000000;
  last_time_sync = 0;
}

abbrev actions : List Action
actions =
    feed
    ∷ feed
    ∷ feed
    ∷ feed
    ∷ feed
    ∷ feed
    ∷ feed
    ∷ feed
    ∷ feed
    ∷ feed
    ∷ feed
    ∷ feed
    ∷ send mild 7000000
    ∷ []

full_run : run any_time unpacker (start 0 0) (before ++ last_round ∷ []) ≡ some (after_run, actions)
unfolding run round resync on_received on_measurement start decode from layout new default equal
full_run = refl

decodes_mild : accepted unpacker last_round ≡ mild ∷ []
unfolding accepted decode from layout new
decodes_mild = refl

run-start-Published_example :
    Published unpacker 0 [] (before ++ last_round ∷ []) ((mild, 7000000) ∷ [])
run-start-Published_example =
    run-start-Published any_time unpacker (before ++ last_round ∷ []) 0 0 full_run

Repeats-mild : All (Repeats unpacker mild) before
unfolding accepted decode from layout new equal
Repeats-mild = ((refl, tt), ((refl, tt), (tt, (tt, ((refl, tt), tt)))))

heard_three : 3 ≤ heard unpacker before
unfolding accepted decode from layout new
heard_three = omega arith

start_capped : (start 0 0).measurement_cnt ≤ 3
unfolding start
start_capped = omega arith

start_late : publish_after < sub_u64 7000000 (start 0 0).last_publish
unfolding start
start_late = omega arith

pub mild_repeated : equal mild mild ≡ true
unfolding equal new
mild_repeated = refl

stable_measurement_sent_example : sends actions ≢ []
stable_measurement_sent_example =
    stable_measurement_sent any_time unpacker mild before last_round mild (start 0 0) start_capped
      Repeats-mild heard_three decodes_mild mild_repeated start_late full_run

-- An hour after the last answer, the time server is silent.
abbrev unanswered : Round
unanswered = record {
  checked = 4000000000;
  ntp = err timeout;
  synced = 0;
  shown = 0;
  received = timer;
  now = 0;
}

round_panics_example : (round any_time unpacker (start 0 0) unanswered ≡ none) ↔ (
    (resync_after < sub_u64 4000000000 (start 0 0).last_time_sync)
    × LacksTime any_time 0 (err timeout))
round_panics_example = round_panics any_time unpacker (start 0 0) unanswered tt

-- The clock was set back behind the last message and the last synchronisation.
abbrev set_back : Station
set_back = record {
  measurement = mild;
  measurement_cnt = 3;
  last_publish = 9000000;
  last_time_sync = 8000000;
}

abbrev early : Round
early = at_time 7000000 timer

clock_steps_back_example :
    (on_measurement set_back 7000000 mild
      ≡ (record set_back { last_publish = 7000000 }, send mild 7000000 ∷ []))
    × (resync any_time set_back early
        ≡ some (
          record set_back { last_time_sync = 7000000 },
          set_current_time_us (mul_u64 0 1000000) ∷ [],
        ))
clock_steps_back_example =
    clock_steps_back any_time set_back early 7000000 mild 0 (omega arith) (omega arith)
      (omega arith) (omega arith) refl mild_repeated refl refl

-- A round whose buffer is full, and one in which nothing is received.
abbrev served : List Round
served =
    at_time 1000000 (symbols (frame ++ replicate 26 zero_bit) 37) ∷ at_time 4000000000 timer ∷ []

run_served_example :
    (s' : Station) × (acts : List Action) × (run any_time unpacker (start 0 0) served
      ≡ some (s', acts))
run_served_example =
    run_served any_time unpacker served (start 0 0)
      ((refl, (0, refl, refl)), ((tt, (0, refl, refl)), tt))

ascending : Ascending 0 (before ++ last_round ∷ [])
ascending = omega arith

sends-run-Spaced_example : Spaced 0 ((mild, 7000000) ∷ [])
sends-run-Spaced_example =
    sends-run-Spaced any_time unpacker (before ++ last_round ∷ []) 0 0 ascending full_run

run-start-Fits_example : FitsStation after_run × All FitsAction actions
run-start-Fits_example =
    run-start-Fits any_time unpacker (before ++ last_round ∷ []) 0 0 (omega arith) (omega arith)
      (omega arith) full_run
