-- ===== src/Network/Answered.antt =====
-- What a client's calls come to by the network's answers, call by call.
use mathlib.Core.Path.{subst}
use esp_rf_ook.Prelude.{
  ℕ, ◌≡◌, refl, sym, ap, ◌⊎◌, inl, inr, Bool, true, false, Option, none, some, List, [], ◌∷◌,
  Outcome, ok, err, panic,
}
use esp_rf_ook.Network.{
  Network, Call, dns_query, Client, M, ◌>>=◌, after, unwrap_addr, attempt_or, first_addr, resolve,
}

module _ {Addr World : Type 0} where
  -- The client behind a call that changes nothing but the world.
  abbrev pub called : Call Addr → World → Client Addr World → Client Addr World
  called call world c = record c { world = world; calls = call ∷ c.calls }

  abbrev pub forgotten : Client Addr World → Client Addr World
  forgotten c = record c { addr = none }

  module _ (n : Network Addr World) where
    -- Calls whose answers do not matter.
    abbrev pub through : List (Call Addr) → Client Addr World → Client Addr World
    through [] c = c
    through (call ∷ more) c = through more (called call (n.attempt call c.world).1 c)

    -- These calls in turn, each accepted.
    abbrev pub Accepted : List (Call Addr) → Client Addr World → Client Addr World → Type 0
    Accepted [] c c' = c ≡ c'
    Accepted (call ∷ more) c c' =
        (w : World) × (n.attempt call c.world ≡ (true, w)) × Accepted more (called call w c) c'

    -- These calls in turn, each accepted but the last, which is refused; no address is left.
    abbrev pub RefusedAt :
        List (Call Addr) → Call Addr → Client Addr World → Client Addr World → Type 0
    RefusedAt [] call c c' =
        (w : World) × (n.attempt call c.world ≡ (false, w)) × (c' ≡ forgotten (called call w c))
    RefusedAt (first ∷ more) call c c' =
        (w : World) × (n.attempt first c.world ≡ (true, w))
        × RefusedAt more call (called first w c) c'

    -- The address is the cached one, or the first that the look-up brings.
    abbrev pub Found : List ℕ → Client Addr World → Addr → Client Addr World → Type 0
    Found name c a c' =
        ((c.addr ≡ some a) × (c' ≡ c))
        ⊎ ((c.addr ≡ none)
            × ((others : List Addr) × (w : World) × (n.query name c.world ≡ (some (a ∷ others), w))
                × (c' ≡ record (called (dns_query name) w c) { addr = some a })))

    -- None is cached, and the look-up fails or brings none.
    abbrev pub NotFound : List ℕ → Client Addr World → Client Addr World → Type 0
    NotFound name c c' =
        (c.addr ≡ none)
        × ((w : World) × ((n.query name c.world ≡ (none, w))
              ⊎ (n.query name c.world ≡ (some [], w)))
            × (c' ≡ called (dns_query name) w c))

    abbrev answered_with :
        {E : Type 0}
        → Call Addr
        → E
        → Client Addr World
        → Bool × World
        → Outcome E (Unit {0}) × Client Addr World
    answered_with call e c r =
        let (done, world) = r in
        elim done [
          | true ↦ (ok tt, record c { world = world; calls = call ∷ c.calls })
          | false ↦ (err e, record { addr = none; world = world; calls = call ∷ c.calls })
        ]

    module _ {E A : Type 0} (Q : Outcome E A × Client Addr World → Type 0) where
      -- A call that is accepted or refused, and what follows it.
      pub attempt_or_lem :
          (call : Call Addr) (e : E) (f : Unit {0} → M Addr World E A) (c : Client Addr World)
          → ((w : World) → n.attempt call c.world ≡ (true, w) → Q (f tt (called call w c)))
          → ((w : World)
              → n.attempt call c.world ≡ (false, w)
              → Q (err e, forgotten (called call w c)))
          → Q (after (attempt_or n call e c) f)
      attempt_or_lem call e f c yes' no' = by_answer (n.attempt call c.world) refl
        where
          by_answer :
              (r : Bool × World) → n.attempt call c.world ≡ r → Q (after (attempt_or n call e c) f)
          by_answer (true, w) h =
              subst (λ r. Q (after (answered_with call e c r) f)) (sym h) (yes' w h)
          by_answer (false, w) h =
              subst (λ r. Q (after (answered_with call e c r) f)) (sym h) (no' w h)

      -- The address is there.
      unwrapped :
          (a : Addr) (f : Addr → M Addr World E A) (c : Client Addr World)
          → c.addr ≡ some a
          → Q (f a c)
          → Q (after (ok tt, c) (λ _. unwrap_addr >>= f))
      unwrapped a f c h q =
          subst Q (ap (λ o. after (elim o [ none ↦ panic | some a ↦ ok a ], c) f) (sym h)) q

      module _ (name : List ℕ) (e : E) (f : Addr → M Addr World E A) (c : Client Addr World)
          (found : (a : Addr) (c' : Client Addr World) → Found name c a c' → Q (f a c'))
          (missing : (c' : Client Addr World) → NotFound name c c' → Q (err e, c')) where
        by_reply :
            (r : Option (List Addr) × World)
            → c.addr ≡ none
            → n.query name c.world ≡ r
            → Q (
                after (first_addr n r.0 e (called (dns_query name) r.1 c)) (λ _. unwrap_addr >>= f))
        by_reply (some (a ∷ others), w) h k =
            unwrapped a f (record (called (dns_query name) w c) { addr = some a }) refl
              (found a _ (inr (h, (others, w, k, refl))))
        by_reply (some [], w) h k = missing _ (h, (w, inr k, refl))
        by_reply (none, w) h k = missing _ (h, (w, inl k, refl))

        abbrev resolved : Option Addr → Outcome E (Unit {0}) × Client Addr World
        resolved addr = elim addr [
          | some a ↦ (ok tt, c)
          | none ↦
              let (reply, world) = n.query name c.world in
              first_addr n reply e (record c { world = world; calls = dns_query name ∷ c.calls })
        ]

        by_cache :
            (addr : Option Addr)
            → c.addr ≡ addr
            → Q (after (resolved addr) (λ _. unwrap_addr >>= f))
        by_cache (some a) h = unwrapped a f c h (found a c (inl (h, refl)))
        by_cache none h = by_reply (n.query name c.world) h refl

        -- A look-up, and what follows it with the address.
        pub resolve_lem : Q (after (resolve n name e c) (λ _. unwrap_addr >>= f))
        unfolding resolve
        resolve_lem = by_cache c.addr refl
