-- ===== src/Ntpc/Calls.antt =====
-- `get_time`, call by call.
use esp_rf_ook.Prelude.{ℕ, ◌≡◌, refl, Option, none, some, List, ◌∷◌, Outcome, ok, err}
use esp_rf_ook.Network.{
  Network, Call, bind, ask_time, flush, wait, close, TimeReply, seconds, request_failed, timed_out,
  Client, effect, ◌>>◌,
}
use esp_rf_ook.Network.Program.{
  Program, ends, attempts, requests, or_fail, resolves, call_all, call_all-attempts,
  call_all-resolves,
}
use esp_rf_ook.Ntpc.{
  NtpcError, dns_resolve_failed, socket_bind_failed, timeout, ntp_port, reply_of, ask, return,
  exchange, get_time,
}

module _ {Addr : Type 0} where
  -- The socket is closed, whatever came.
  abbrev closing_calls : Outcome NtpcError ℕ → Option Addr → Program Addr NtpcError ℕ
  closing_calls r addr =
      attempts flush
        λ _. attempts (wait 100) λ _. attempts close λ _. attempts (wait 100) λ _. ends r addr

  unfoldable pub replied_calls : Addr → TimeReply → Program Addr NtpcError ℕ
  replied_calls a (seconds t) = closing_calls (ok t) (some a)
  replied_calls a request_failed = closing_calls (err timeout) none
  replied_calls a timed_out = closing_calls (err timeout) (some a)

  unfoldable pub exchange_calls : Addr → Program Addr NtpcError ℕ
  exchange_calls a =
      attempts (bind ntp_port) (or_fail socket_bind_failed (requests a ntp_port (replied_calls a)))

  unfoldable pub time_calls : List ℕ → Option Addr → Program Addr NtpcError ℕ
  unfolding exchange_calls
  time_calls server = resolves server dns_resolve_failed exchange_calls

  module _ {World : Type 0} (n : Network Addr World) where
    call_all-exchange_calls :
        (a : Addr) (world : World) (calls : List (Call Addr))
        → call_all n (exchange_calls a) world calls
          ≡ exchange n a (record { addr = some a; world = world; calls = calls })
    unfolding exchange ask reply_of exchange_calls replied_calls call_all
    call_all-exchange_calls a world calls =
        call_all-attempts n (bind ntp_port) socket_bind_failed _ _ (some a) world calls λ w₁ c₁.
          answered (n.request a ntp_port w₁).0 (n.request a ntp_port w₁).1
            (ask_time a ntp_port ∷ c₁)
      where
        answered :
            (reply : TimeReply) (world' : World) (calls' : List (Call Addr))
            → call_all n (replied_calls a reply) world' calls' ≡ (
                let (result, c') =
                  reply_of a reply (record { addr = some a; world = world'; calls = calls' }) in
                (effect n flush
                    >> (effect n (wait 100)
                        >> (effect n close >> (effect n (wait 100) >> return result))))
                  c')
        answered (seconds t) world' calls' = refl
        answered request_failed world' calls' = refl
        answered timed_out world' calls' = refl

    -- Made one after the other, they are `get_time`.
    pub call_all-time_calls :
        (server : List ℕ) (c : Client Addr World)
        → call_all n (time_calls server c.addr) c.world c.calls ≡ get_time n server c
    unfolding get_time time_calls
    call_all-time_calls server c =
        call_all-resolves n server dns_resolve_failed exchange_calls (exchange n)
          call_all-exchange_calls c.addr c.world c.calls
