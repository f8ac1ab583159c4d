-- ===== src/Ntpc/Answered.antt =====
-- What `get_time` returns, does and keeps, by the network's answers.
use esp_rf_ook.Prelude.{ℕ, ◌≡◌, refl, true, ◌⊎◌, inl, inr, List, [], ◌∷◌, Outcome, ok, err, panic}
use esp_rf_ook.Network.{
  Network, TimeReply, seconds, request_failed, timed_out, ask_time, bind, flush, wait, close,
  Client,
}
use esp_rf_ook.Network.Answered.{
  called, forgotten, through, RefusedAt, Found, NotFound, attempt_or_lem, resolve_lem,
}
use esp_rf_ook.Ntpc.{
  NtpcError, dns_resolve_failed, socket_bind_failed, network_error, timeout, ntp_port, reply_of,
  ask, exchange, get_time,
}

module _ {Addr World : Type 0} (n : Network Addr World) where
  -- The socket is bound and the time asked for, with this reply; then it is flushed and closed.
  abbrev pub Replied : Addr → Client Addr World → TimeReply → Client Addr World → Type 0
  Replied a c reply c' =
      (bound w : World) × (n.attempt (bind ntp_port) c.world ≡ (true, bound))
      × (n.request a ntp_port bound ≡ (reply, w))
      × (c'
          ≡ through n (flush ∷ wait 100 ∷ close ∷ wait 100 ∷ [])
              (called (ask_time a ntp_port) w (called (bind ntp_port) bound c)))

  -- How the calls after the look-up end.
  abbrev pub Exchanged : Addr → Client Addr World → Outcome NtpcError ℕ → Client Addr World → Type 0
  Exchanged a c (ok t) c' = Replied a c (seconds t) c'
  Exchanged a c (err socket_bind_failed) c' = RefusedAt n [] (bind ntp_port) c c'
  Exchanged a c (err timeout) c' =
      Replied a c timed_out c'
      ⊎ ((c₁ : Client Addr World) × Replied a c request_failed c₁ × (c' ≡ forgotten c₁))
  Exchanged a c (err dns_resolve_failed) c' = ⊥
  Exchanged a c (err network_error) c' = ⊥
  Exchanged a c panic c' = ⊥

  -- How `get_time` ends.
  abbrev pub Answered :
      List ℕ → Client Addr World → Outcome NtpcError ℕ → Client Addr World → Type 0
  Answered server c (err dns_resolve_failed) c' = NotFound n server c c'
  Answered server c r c' =
      (a : Addr) × (c₀ : Client Addr World) × Found n server c a c₀ × Exchanged a c₀ r c'

  -- Behind the bound socket, by the reply.
  replied :
      (a : Addr) (c : Client Addr World) (bound w : World) (reply : TimeReply)
      → n.attempt (bind ntp_port) c.world ≡ (true, bound)
      → n.request a ntp_port bound ≡ (reply, w)
      → (let (r, c') =
            reply_of a reply (called (ask_time a ntp_port) w (called (bind ntp_port) bound c)) in
          Exchanged a c r (through n (flush ∷ wait 100 ∷ close ∷ wait 100 ∷ []) c'))
  unfolding reply_of
  replied a c bound w (seconds t) b q = (bound, w, b, q, refl)
  replied a c bound w request_failed b q = inr (_, (bound, w, b, q, refl), refl)
  replied a c bound w timed_out b q = inl (bound, w, b, q, refl)

  exchange-Exchanged :
      (a : Addr) (c : Client Addr World) → let (r, c') = exchange n a c in Exchanged a c r c'
  unfolding exchange ask
  exchange-Exchanged a c =
      attempt_or_lem n (λ x. Exchanged a c x.0 x.1) (bind ntp_port) socket_bind_failed _ c
        (λ bound b. replied a c bound _ _ b refl) (λ w b. (w, b, refl))

  Found-Answered :
      (server : List ℕ) (a : Addr) (c c₀ : Client Addr World) (r : Outcome NtpcError ℕ)
      (c' : Client Addr World)
      → Found n server c a c₀
      → Exchanged a c₀ r c'
      → Answered server c r c'
  Found-Answered server a c c₀ (ok t) c' f h = (a, c₀, f, h)
  Found-Answered server a c c₀ (err dns_resolve_failed) c' f h = absurd h
  Found-Answered server a c c₀ (err socket_bind_failed) c' f h = (a, c₀, f, h)
  Found-Answered server a c c₀ (err network_error) c' f h = absurd h
  Found-Answered server a c c₀ (err timeout) c' f h = (a, c₀, f, h)
  Found-Answered server a c c₀ panic c' f h = absurd h

  -- Every way that `get_time` can end, by the network's answers. It never panics, and never returns
  -- `NetworkError`. It looks the server up only if no address is cached; where the look-up fails or
  -- brings none, nothing else is called. Where the socket cannot be bound, no call follows and no
  -- address is left. Once it is bound, the time is asked for, and the socket is flushed and closed,
  -- whatever the reply: the time of the reply is returned, and the address stays cached; a request that
  -- fails is a `Timeout`, and no address is left; where the five-second timer comes first it is a
  -- `Timeout` too, but the address stays cached.
  pub get_time-Answered :
      (server : List ℕ) (c : Client Addr World)
      → let (r, c') = get_time n server c in Answered server c r c'
  unfolding get_time
  get_time-Answered server c =
      resolve_lem n (λ x. Answered server c x.0 x.1) server dns_resolve_failed (λ a. exchange n a) c
        (λ a c₀ f. Found-Answered server a c c₀ _ _ f (exchange-Exchanged a c₀)) (λ c' h. h)
