-- ===== src/Boot.antt =====
-- The start of `main` in src/bin/main.rs, up to its loop, and `Wifi::new` of src/wifi.rs.
pub mod Link
pub mod SetUp
pub mod Start
use esp_rf_ook.Prelude.{
  ℕ, Bool, true, false, Option, none, some, List, [], ◌∷◌, ◌++◌, Outcome, ok, err, panic,
}
use esp_rf_ook.Prelude.Words.{mul_u64}
use esp_rf_ook.Wifi.{Radio, WifiAction, connection, connections, wait_for_link}
use esp_rf_ook.Wifi.Link.{signals}
use esp_rf_ook.Ntpc.{NtpcError}
use esp_rf_ook.Station.{Station, start}

-- What the start does to the devices, in order.
pub data BootAction : Type 0 where
  set_timeout : ℕ → BootAction  -- in milliseconds
  enable feed spawn_connection spawn_net_task : BootAction
  set_current_time_us : ℕ → BootAction
  configure_rx : ℕ → ℕ → ℕ → BootAction  -- divider, idle and filter threshold
  spawn_mqtt_publisher : ℕ → BootAction

-- The answers it gets: which calls return `Ok`, the rounds of the connection task while the start waits
-- for the link, for the address and for the time, whether `select` comes back with the address before
-- the twenty-second timer, and the clock where it is read.
pub record Answers : Type 0 where
  pub radio_init : Bool
  pub wifi_controller : Bool
  pub connecting : List Radio
  pub addressing : List Radio
  pub got_ip : Bool
  pub time_asking : List Radio
  pub ntp : Outcome NtpcError ℕ
  pub last_time_sync : ℕ
  pub shown : ℕ
  pub rmt : Bool
  pub rx_channel : Bool
  pub publisher_now : ℕ
  pub publisher_spawned : Bool
  pub last_publish : ℕ

-- It is done, or panics, or waits for good.
pub data Booting (A : Type 0) : Type 0 where
  done : A → Booting A
  panicked waiting : Booting A

abbrev pub W : Type 0 → Type 0
W A = Booting A × List BootAction

abbrev pub with_before : {A : Type 0} → List BootAction → W A → W A
with_before acts (r, more) = (r, acts ++ more)

infixl 5 ◌>>=◌ ◌>>◌
abbrev pub ◌>>=◌ : {A B : Type 0} → W A → (A → W B) → W B
◌>>=◌ (done a, acts) f = with_before acts (f a)
◌>>=◌ (panicked, acts) f = (panicked, acts)
◌>>=◌ (waiting, acts) f = (waiting, acts)

abbrev pub ◌>>◌ : {B : Type 0} → W (Unit {0}) → W B → W B
m >> k = m >>= λ _. k

abbrev pub act : BootAction → W (Unit {0})
act a = (done tt, a ∷ [])

-- `expect` and `unwrap` of a result that is `Ok` or not.
abbrev pub expect : Bool → W (Unit {0})
expect true = (done tt, [])
expect false = (panicked, [])

abbrev pub expect_time : Outcome NtpcError ℕ → W ℕ
expect_time (ok time) = (done time, [])
expect_time (err e) = (panicked, [])
expect_time panic = (panicked, [])

-- The wait of `Wifi::new`, beside the connection task. It takes each value that this task signals before
-- the next one, and a panic of the task ends the start.
abbrev pub unless_linked : Option ℕ → Booting (Unit {0}) → Booting (Unit {0})
unless_linked (some n) later = done tt
unless_linked none later = later

abbrev pub after_round : Option (List WifiAction) → Booting (Unit {0}) → Booting (Unit {0})
after_round none later = panicked
after_round (some acts) later = unless_linked (wait_for_link (signals acts)) later

unfoldable pub wait_connected : List Radio → Booting (Unit {0})
wait_connected [] = waiting
wait_connected (r ∷ rs) = after_round (connection r) (wait_connected rs)

abbrev pub wait_until : Booting (Unit {0}) → W (Unit {0})
wait_until w = (w, [])

-- The start waits for something else, with these rounds of the connection task beside it.
abbrev pub beside : Option (List WifiAction) → W (Unit {0})
beside (some acts) = (done tt, [])
beside none = (panicked, [])

-- `Wifi::new`: the spawn results are not looked at, and its own error type has no value.
unfoldable pub new : Bool → List Radio → W (Unit {0})
new wifi_controller connecting = do
  expect wifi_controller
  act spawn_connection
  wait_until (wait_connected connecting)
  act spawn_net_task

-- Up to the call of `get_time`.
unfoldable pub join_network : Answers → W (Unit {0})
join_network a = do
  act (set_timeout 30000)
  act enable
  act feed
  expect a.radio_init
  new a.wifi_controller a.connecting
  act feed
  act feed
  beside (connections a.addressing)
  expect a.got_ip
  act feed

module _ (is_timestamp : ℕ → Bool) where
  -- What follows the network: the time, the clock, the receiver and the publisher.
  unfoldable pub set_up : Answers → W Station
  set_up a = do
    beside (connections a.time_asking)
    time ← expect_time a.ntp
    act (set_current_time_us (mul_u64 time 1000000))
    expect (is_timestamp a.shown)
    expect a.rmt
    act (configure_rx 80 3000 100)
    expect a.rx_channel
    expect a.publisher_spawned
    act (spawn_mqtt_publisher a.publisher_now)
    (done (start a.last_time_sync a.last_publish), [])

  unfoldable pub boot : Answers → W Station
  unfolding join_network set_up
  boot a = do join_network a; set_up a
