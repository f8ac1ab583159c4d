-- ===== src/Wifi.antt =====
-- src/wifi.rs: the task that keeps the connection, and the two waits of the start-up.
pub mod Link
pub mod Signal
pub mod Address
use esp_rf_ook.Prelude.{
  ℕ, suc, ◌+◌, Bool, true, false, Option, none, some, List, [], ◌∷◌, ◌++◌, if◌then◌else◌,
}
use esp_rf_ook.Prelude.Options.{◌>>=◌}

-- What a round of `connection` asks of esp-radio. `is_started` is `none` on an error; the Booleans
-- say which calls return `Ok`.
pub record Radio : Type 0 where
  pub is_connected : Bool
  pub is_started : Option Bool
  pub set_config : Bool
  pub start : Bool
  pub scan : Bool
  pub connect : Bool

pub data WifiAction : Type 0 where
  wait_for_disconnect set_config start scan connect : WifiAction
  sleep : ℕ → WifiAction
  signal : Bool → WifiAction

-- `matches!(controller.is_started(), Ok(true))`
abbrev pub is_running : Option Bool → Bool
is_running (some true) = true
is_running (some false) = false
is_running none = false

-- `unwrap` of a call's result: `none` is a panic.
abbrev unwrapped : Bool → WifiAction → Option (List WifiAction)
unwrapped true action = some (action ∷ [])
unwrapped false action = none

-- Configure, start and scan, unless the controller is started.
unfoldable pub set_up : Radio → Option (List WifiAction)
set_up r = if is_running r.is_started then some [] else (do
  a ← unwrapped r.set_config set_config
  b ← unwrapped r.start start
  c ← unwrapped r.scan scan
  some (a ++ (b ++ c)))

-- One round of the loop of `connection`.
unfoldable pub connection : Radio → Option (List WifiAction)
connection r = do
  let before = if r.is_connected then wait_for_disconnect ∷ sleep 5000 ∷ [] else []
  started ← set_up r
  let after =
      if r.connect then connect ∷ signal true ∷ [] else connect ∷ signal false ∷ sleep 5000 ∷ []
  some (before ++ (started ++ after))

unfoldable pub connections : List Radio → Option (List WifiAction)
connections [] = some []
connections (r ∷ rs) = do now ← connection r; later ← connections rs; some (now ++ later)

-- The loop of `Wifi::new` over the values of LINK_STATE that it takes: how many it takes until the
-- link is up, each with a sleep of half a second; `none` if it still waits.
unfoldable pub wait_for_link : List Bool → Option ℕ
wait_for_link [] = none
wait_for_link (up ∷ ups) = do
  let rest = wait_for_link ups
  if up then some 1 else (do n ← rest; some (suc n))

-- A loop that asks until it is told yes, and sleeps `ms` after each no: how long it sleeps.
unfoldable pub poll : ℕ → List Bool → Option ℕ
poll ms [] = none
poll ms (yes' ∷ answers) = do
  let rest = poll ms answers
  if yes' then some 0 else (do t ← rest; some (ms + t))

-- `wait_for_ip`: the answers of `is_link_up`, then whether `config_v4` has an address.
unfoldable pub wait_for_ip : List Bool → List Bool → Option ℕ
unfolding poll
wait_for_ip link config = do a ← poll 500 link; b ← poll 1000 config; some (a + b)
