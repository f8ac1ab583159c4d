-- ===== src/Wifi/Address.antt =====
-- How long `wait_for_ip` waits.
use esp_rf_ook.Prelude.{
  ℕ, zero, suc, ◌+◌, ◌*◌, ◌≡◌, Bool, true, false, some, List, ◌∷◌, ◌++◌, arith, replicate,
}
use esp_rf_ook.Wifi.{poll, wait_for_ip}

-- `n` times no, then yes.
abbrev pub no_then_yes : ℕ → List Bool → List Bool
no_then_yes n rest = replicate n false ++ true ∷ rest

poll_lem : (ms n : ℕ) (rest : List Bool) → poll ms (no_then_yes n rest) ≡ some (n * ms)
unfolding poll
poll_lem ms zero rest = ground arith
poll_lem ms (suc n) rest = rw (poll_lem ms n rest) (ground arith)

-- `wait_for_ip` returns once the link is up and then an address is there: it sleeps half a second for
-- each time the link is down, and a second for each time there is no address.
pub wait_for_ip_lem :
    (a b : ℕ) (link config : List Bool)
    → wait_for_ip (no_then_yes a link) (no_then_yes b config) ≡ some (a * 500 + b * 1000)
unfolding wait_for_ip
wait_for_ip_lem a b link config = rw (poll_lem 500 a link, poll_lem 1000 b config)
