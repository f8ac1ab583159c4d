-- ===== src/Ntpc.antt =====
-- `Ntpc` of src/ntpc.rs: the time in seconds, from a server whose address is cached.
pub mod Answered
pub mod Outcomes
pub mod Clock
pub mod Calls
use esp_rf_ook.Prelude.{ℕ, ◌/◌, ◌%◌, ◌^◌, Option, none, some, List, [], ◌∷◌, Outcome, ok, err}
use esp_rf_ook.Network.{
  Network, TimeReply, seconds, request_failed, timed_out, ask_time, bind, flush, wait, close,
  Client, M, ◌>>=◌, ◌>>◌, unwrap_addr, attempt_or, effect, resolve,
}

pub data NtpcError : Type 0 where
  dns_resolve_failed socket_bind_failed network_error timeout : NtpcError

-- The timestamp generator that is handed to sntpc.
pub record Timestamp : Type 0 where
  pub current_time_us : ℕ  -- u64

unfoldable pub init : Timestamp → Timestamp
init t = record { current_time_us = 0 }

unfoldable pub timestamp_sec : Timestamp → ℕ
timestamp_sec t = t.current_time_us / 1000000

-- `as u32`
unfoldable pub timestamp_subsec_micros : Timestamp → ℕ
timestamp_subsec_micros t = t.current_time_us % 1000000 % 2 ^ 32

abbrev pub ntp_port : ℕ
ntp_port = 123

module _ {Addr World : Type 0} where
  unfoldable pub new : World → Client Addr World
  new world = record { addr = none; world = world; calls = [] }

  -- The request against the five-second timer. Its result is a value: the socket is still to be
  -- closed. The address is cleared where the request fails, and kept where the timer comes first.
  reply_of : Addr → TimeReply → Client Addr World → Outcome NtpcError ℕ × Client Addr World
  reply_of addr (seconds t) c = (ok t, c)
  reply_of addr request_failed c = (err timeout, record c { addr = none })
  reply_of addr timed_out c = (err timeout, c)

  ask : Network Addr World → Addr → M Addr World NtpcError (Outcome NtpcError ℕ)
  unfolding reply_of
  ask n addr c =
      let (reply, world) = n.request addr ntp_port c.world in
      let (result, c') =
        reply_of addr reply
          (record c { world = world; calls = ask_time addr ntp_port ∷ c.calls }) in
      (ok result, c')

  abbrev return : Outcome NtpcError ℕ → M Addr World NtpcError ℕ
  return result c = (result, c)

  -- What `get_time` does once it has an address.
  unfoldable pub exchange : Network Addr World → Addr → M Addr World NtpcError ℕ
  unfolding ask
  exchange n addr = do
    attempt_or n (bind ntp_port) socket_bind_failed
    result ← ask n addr
    effect n flush
    effect n (wait 100)
    effect n close
    effect n (wait 100)
    return result

  unfoldable pub get_time : Network Addr World → List ℕ → M Addr World NtpcError ℕ
  get_time n server = do resolve n server dns_resolve_failed; addr ← unwrap_addr; exchange n addr
