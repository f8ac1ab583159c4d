-- ===== src/Network.antt =====
-- What src/mqtt.rs and src/ntpc.rs use of embassy-net, rust-mqtt, sntpc and the timers, as a
-- parameter, and the state of a client that calls it.
pub mod Answered
pub mod Resolve
pub mod Program
use esp_rf_ook.Prelude.{
  ℕ, Bool, true, false, Option, none, some, List, [], ◌∷◌, Outcome, ok, err, panic,
}

-- The calls that are made, with what matters of their arguments.
pub data Call (Addr : Type 0) : Type 0 where
  dns_query : List ℕ → Call Addr
  connect : Addr → ℕ → Call Addr
  connect_to_broker : Call Addr
  send_message : List ℕ → List ℕ → Call Addr
  disconnect : Call Addr
  bind : ℕ → Call Addr
  ask_time : Addr → ℕ → Call Addr
  flush : Call Addr
  wait : ℕ → Call Addr
  close : Call Addr
  abort : Call Addr

-- What `select` on the time request and the five-second timer comes back with.
pub data TimeReply : Type 0 where
  seconds : ℕ → TimeReply
  request_failed : TimeReply
  timed_out : TimeReply

-- The answers, and how they leave the world. `none` and `false` are errors.
pub record Network (Addr World : Type 0) : Type 0 where
  pub query : List ℕ → World → Option (List Addr) × World
  pub attempt : Call Addr → World → Bool × World
  pub request : Addr → ℕ → World → TimeReply × World

-- A client's cached address, the world, and the calls made so far, the latest first.
pub record Client (Addr World : Type 0) : Type 0 where
  pub addr : Option Addr
  pub world : World
  pub calls : List (Call Addr)

abbrev pub M : Type 0 → Type 0 → Type 0 → Type 0 → Type 0
M Addr World E A = Client Addr World → Outcome E A × Client Addr World

module _ {Addr World : Type 0} where
  abbrev pub after :
      {E A B : Type 0}
      → Outcome E A × Client Addr World
      → (A → M Addr World E B)
      → Outcome E B × Client Addr World
  after (ok a, c) f = f a c
  after (err e, c) f = (err e, c)
  after (panic, c) f = (panic, c)

  infixl 5 ◌>>=◌ ◌>>◌
  abbrev pub ◌>>=◌ : {E A B : Type 0} → M Addr World E A → (A → M Addr World E B) → M Addr World E B
  ◌>>=◌ m f c = after (m c) f

  abbrev pub ◌>>◌ : {E B : Type 0} → M Addr World E (Unit {0}) → M Addr World E B → M Addr World E B
  m >> k = m >>= λ _. k

  abbrev pub pure : {E A : Type 0} → A → M Addr World E A
  pure a c = (ok a, c)

  abbrev pub fail : {E A : Type 0} → E → M Addr World E A
  fail e c = (err e, c)

  abbrev pub remember : {E : Type 0} → Option Addr → M Addr World E (Unit {0})
  remember addr c = (ok tt, record c { addr = addr })

  -- `self.addr.unwrap()`
  abbrev pub unwrap_addr : {E : Type 0} → M Addr World E Addr
  unwrap_addr c = (elim c.addr [ none ↦ panic | some a ↦ ok a ], c)

  module _ (n : Network Addr World) where
    -- A call whose error clears the cached address and is returned as `e`.
    abbrev pub attempt_or : {E : Type 0} → Call Addr → E → M Addr World E (Unit {0})
    attempt_or call e c =
        let (done, world) = n.attempt call c.world in
        elim done [
          | true ↦ (ok tt, record c { world = world; calls = call ∷ c.calls })
          | false ↦ (err e, record { addr = none; world = world; calls = call ∷ c.calls })
        ]

    -- A call whose result is not looked at.
    abbrev pub effect : {E : Type 0} → Call Addr → M Addr World E (Unit {0})
    effect call c =
        let (_, world) = n.attempt call c.world in
        (ok tt, record c { world = world; calls = call ∷ c.calls })

    abbrev pub first_addr : {E : Type 0} → Option (List Addr) → E → M Addr World E (Unit {0})
    first_addr none e = fail e
    first_addr (some []) e = fail e
    first_addr (some (a ∷ as')) e = remember (some a)

    -- "Cache address after first resolution": a query for the name, unless an address is cached.
    unfoldable pub resolve : {E : Type 0} → List ℕ → E → M Addr World E (Unit {0})
    resolve name e c = elim c.addr [
      | some a ↦ (ok tt, c)
      | none ↦
          let (reply, world) = n.query name c.world in
          first_addr reply e (record c { world = world; calls = dns_query name ∷ c.calls })
    ]
