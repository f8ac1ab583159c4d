-- ===== src/Ntpc/Outcomes.antt =====
-- The calls of `get_time`, by its result.
use mathlib.Core.Path.{subst}
use esp_rf_ook.Prelude.{
  ℕ, ◌≡◌, sym, ap, ◌∙◌, ◌⊎◌, inl, inr, Option, none, some, List, ◌∷◌, ◌++◌, arith, Outcome, ok, err,
  panic,
}
use esp_rf_ook.Network.{
  Network, Call, dns_query, ask_time, bind, flush, wait, close, Client, ◌>>=◌, after, unwrap_addr,
  resolve,
}
use esp_rf_ook.Network.Resolve.{asked, Resolved, resolve_cases}
use esp_rf_ook.Ntpc.{
  NtpcError, dns_resolve_failed, socket_bind_failed, network_error, timeout, ntp_port, reply_of,
  ask, exchange, get_time,
}

module _ {Addr : Type 0} where
  -- The socket is bound, asked, flushed and closed; the latest call first.
  abbrev pub closed_calls : Addr → List (Call Addr) → List (Call Addr)
  closed_calls a before =
      wait 100 ∷ close ∷ wait 100 ∷ flush ∷ ask_time a ntp_port ∷ bind ntp_port ∷ before

  -- The calls of an exchange, and the address behind it.
  abbrev pub Exchanged :
      Addr → List (Call Addr) → Outcome NtpcError ℕ → List (Call Addr) → Option Addr → Type 0
  Exchanged a before (ok t) calls addr = (calls ≡ closed_calls a before) × (addr ≡ some a)
  Exchanged a before (err socket_bind_failed) calls addr =
      (calls ≡ bind ntp_port ∷ before) × (addr ≡ none)
  Exchanged a before (err timeout) calls addr =
      (calls ≡ closed_calls a before) × ((addr ≡ none) ⊎ (addr ≡ some a))
  Exchanged a before (err _) calls addr = ⊥
  Exchanged a before panic calls addr = ⊥

module _ {Addr World : Type 0} (n : Network Addr World) where
  pub exchange_ends :
      (a : Addr) (c : Client Addr World)
      → c.addr ≡ some a
      → let (r, c') = exchange n a c in Exchanged a c.calls r c'.calls c'.addr
  unfolding exchange ask reply_of
  exchange_ends a c h = ground arith

  -- How `get_time` ends, for a result and the client behind it.
  abbrev pub Ends : Client Addr World → List ℕ → Outcome NtpcError ℕ → Client Addr World → Type 0
  Ends c server (err dns_resolve_failed) c' =
      (c.addr ≡ none) × (c'.addr ≡ none) × (c'.calls ≡ dns_query server ∷ c.calls)
  Ends c server r c' = (a : Addr) × Exchanged a (asked c.addr server ++ c.calls) r c'.calls c'.addr

  Ends_of_exchange :
      (c : Client Addr World) (server : List ℕ) (a : Addr) (r : Outcome NtpcError ℕ)
      (c' : Client Addr World)
      → Exchanged a (asked c.addr server ++ c.calls) r c'.calls c'.addr
      → Ends c server r c'
  Ends_of_exchange c server a (ok t) c' h = (a, h)
  Ends_of_exchange c server a (err dns_resolve_failed) c' h = absurd h
  Ends_of_exchange c server a (err socket_bind_failed) c' h = (a, h)
  Ends_of_exchange c server a (err network_error) c' h = absurd h
  Ends_of_exchange c server a (err timeout) c' h = (a, h)
  Ends_of_exchange c server a panic c' h = absurd h

  abbrev finish :
      Outcome NtpcError (Unit {0}) × Client Addr World → Outcome NtpcError ℕ × Client Addr World
  finish q = after q (λ _. unwrap_addr >>= λ a. exchange n a)

  with_address :
      (c : Client Addr World) (a : Addr) → c.addr ≡ some a → finish (ok tt, c) ≡ exchange n a c
  with_address c a h = ground arith

  of_address :
      (c c' : Client Addr World) (server : List ℕ) (a : Addr)
      → c'.addr ≡ some a
      → c'.calls ≡ asked c.addr server ++ c.calls
      → let (r, c'') = finish (ok tt, c') in Ends c server r c''
  of_address c c' server a h k =
      let r = (exchange n a c').0 in
      let c'' = (exchange n a c').1 in
      let exchanged = subst (λ l. Exchanged a l r c''.calls c''.addr) k (exchange_ends a c' h) in
      subst (λ x. Ends c server x.0 x.1) (sym (with_address c' a h))
        (Ends_of_exchange c server a r c'' exchanged)

  finish_ends :
      (c : Client Addr World) (server : List ℕ)
      (q : Outcome NtpcError (Unit {0}) × Client Addr World)
      → Resolved n server dns_resolve_failed c q
      → Ends c server (finish q).0 (finish q).1
  finish_ends c server (ok u, c') (inl (a, _, h, k)) = of_address c c' server a h k
  finish_ends c server (ok u, c') (inr (e, _, _, _)) = cc
  finish_ends c server (err x, c') (inl (a, e, _, _)) = cc
  finish_ends c server (err dns_resolve_failed, c') (inr (_, h, h', k)) =
      (h, h', k ∙ ap (λ o. asked o server ++ c.calls) h)
  finish_ends c server (err socket_bind_failed, c') (inr (e, _, _, _)) = cc
  finish_ends c server (err network_error, c') (inr (e, _, _, _)) = cc
  finish_ends c server (err timeout, c') (inr (e, _, _, _)) = cc
  finish_ends c server (panic, c') (inl (a, e, _, _)) = cc
  finish_ends c server (panic, c') (inr (e, _, _, _)) = cc

  -- The calls that `get_time` has made and the address that it keeps, by its result alone.
  pub get_time-Ends :
      (server : List ℕ) (c : Client Addr World)
      → let (r, c') = get_time n server c in Ends c server r c'
  unfolding get_time
  get_time-Ends server c =
      finish_ends c server (resolve n server dns_resolve_failed c)
        (resolve_cases n server dns_resolve_failed c)
