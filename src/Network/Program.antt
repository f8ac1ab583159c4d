-- ===== src/Network/Program.antt =====
-- A client's call of `publish` or `get_time` as the single calls that it makes of the network, one after
-- the other, since it awaits each of them.
use mathlib.Core.List.{append_assoc}
use mathlib.Core.Option.{some-injective}
use esp_rf_ook.Prelude.{
  ◌∙◌, ℕ, ◌≡◌, refl, sym, ap, Bool, true, false, Option, none, some, List, [], ◌∷◌, ◌++◌, Outcome,
  ok, err,
}
use esp_rf_ook.Network.{
  Network, Call, dns_query, ask_time, TimeReply, Client, M, after, attempt_or, ◌>>=◌, ◌>>◌,
  unwrap_addr, first_addr, resolve,
}

-- The next call, and how it goes on with the answer; or the result, with the address that is cached.
pub data Program (Addr E A : Type 0) : Type 0 where
  ends : Outcome E A → Option Addr → Program Addr E A
  queries : List ℕ → (Option (List Addr) → Program Addr E A) → Program Addr E A
  attempts : Call Addr → (Bool → Program Addr E A) → Program Addr E A
  requests : Addr → ℕ → (TimeReply → Program Addr E A) → Program Addr E A

module _ {Addr E A : Type 0} where
  -- An error ends the program, with no address cached.
  abbrev pub or_fail : E → Program Addr E A → Bool → Program Addr E A
  or_fail e p true = p
  or_fail e p false = ends (err e) none

  -- The address that is cached, or the first that a query for the name gives.
  unfoldable pub first_of : E → (Addr → Program Addr E A) → Option (List Addr) → Program Addr E A
  first_of e go none = ends (err e) none
  first_of e go (some []) = ends (err e) none
  first_of e go (some (a ∷ others)) = go a

  unfoldable pub resolves : List ℕ → E → (Addr → Program Addr E A) → Option Addr → Program Addr E A
  resolves name e go (some a) = go a
  resolves name e go none = queries name (first_of e go)

  module _ {World : Type 0} (n : Network Addr World) where
    -- One call; `none` at the end.
    unfoldable pub call_next :
        Program Addr E A
        → World
        → List (Call Addr)
        → Option (Program Addr E A × World × List (Call Addr))
    call_next (ends r addr) world calls = none
    call_next (queries name go) world calls =
        let (reply, world') = n.query name world in some (go reply, world', dns_query name ∷ calls)
    call_next (attempts call go) world calls =
        let (done, world') = n.attempt call world in some (go done, world', call ∷ calls)
    call_next (requests addr port go) world calls =
        let (reply, world') = n.request addr port world in
        some (go reply, world', ask_time addr port ∷ calls)

    -- All of them.
    unfoldable pub call_all :
        Program Addr E A → World → List (Call Addr) → Outcome E A × Client Addr World
    call_all (ends r addr) world calls = (r, record { addr = addr; world = world; calls = calls })
    call_all (queries name go) world calls =
        let (reply, world') = n.query name world in
        call_all (go reply) world' (dns_query name ∷ calls)
    call_all (attempts call go) world calls =
        let (done, world') = n.attempt call world in call_all (go done) world' (call ∷ calls)
    call_all (requests addr port go) world calls =
        let (reply, world') = n.request addr port world in
        call_all (go reply) world' (ask_time addr port ∷ calls)

    -- One call more or less comes to the same.
    pub call_all-call_next :
        (p : Program Addr E A) (world : World) (calls : List (Call Addr)) {p' : Program Addr E A}
        {world' : World} {calls' : List (Call Addr)}
        → call_next p world calls ≡ some (p', world', calls')
        → call_all p' world' calls' ≡ call_all p world calls
    unfolding call_next call_all
    call_all-call_next (ends r addr) world calls e = cc
    call_all-call_next (queries name go) world calls e =
        ap (λ x. call_all x.0 x.1 x.2) (sym (some-injective _ _ e))
    call_all-call_next (attempts call go) world calls e =
        ap (λ x. call_all x.0 x.1 x.2) (sym (some-injective _ _ e))
    call_all-call_next (requests addr port go) world calls e =
        ap (λ x. call_all x.0 x.1 x.2) (sym (some-injective _ _ e))

    -- It is noted.
    pub call_next-calls :
        (p : Program Addr E A) (world : World) (calls : List (Call Addr)) {p' : Program Addr E A}
        {world' : World} {calls' : List (Call Addr)}
        → call_next p world calls ≡ some (p', world', calls')
        → (call : Call Addr) × (calls' ≡ call ∷ calls)
    unfolding call_next
    call_next-calls (ends r addr) world calls e = cc e
    call_next-calls (queries name go) world calls e =
        (dns_query name, ap (λ x. x.2) (sym (some-injective _ _ e)))
    call_next-calls (attempts call go) world calls e =
        (call, ap (λ x. x.2) (sym (some-injective _ _ e)))
    call_next-calls (requests addr port go) world calls e =
        (ask_time addr port, ap (λ x. x.2) (sym (some-injective _ _ e)))

    -- The calls to come are added to those before.
    pub call_all-calls :
        (p : Program Addr E A) (world : World) (calls : List (Call Addr))
        → (later : List (Call Addr)) × ((call_all p world calls).1.calls ≡ later ++ calls)
    unfolding call_all
    call_all-calls (ends r addr) world calls = ([], refl)
    call_all-calls (queries name go) world calls =
        let (later, e) = call_all-calls (go _) _ (dns_query name ∷ calls) in
        (later ++ dns_query name ∷ [], e ∙ sym (append_assoc later (dns_query name ∷ []) calls))
    call_all-calls (attempts call go) world calls =
        let (later, e) = call_all-calls (go _) _ (call ∷ calls) in
        (later ++ call ∷ [], e ∙ sym (append_assoc later (call ∷ []) calls))
    call_all-calls (requests addr port go) world calls =
        let (later, e) = call_all-calls (go _) _ (ask_time addr port ∷ calls) in
        (
          later ++ ask_time addr port ∷ [],
          e ∙ sym (append_assoc later (ask_time addr port ∷ []) calls),
        )

    -- `attempt_or` is one call, and the end if it fails.
    pub call_all-attempts :
        (call : Call Addr) (e : E) (p : Program Addr E A) (f : Unit {0} → M Addr World E A)
        (addr : Option Addr) (world : World) (calls : List (Call Addr))
        → ((world' : World) (calls' : List (Call Addr))
            → call_all p world' calls'
              ≡ f tt (record { addr = addr; world = world'; calls = calls' }))
        → call_all (attempts call (or_fail e p)) world calls
          ≡ after (attempt_or n call e (record { addr = addr; world = world; calls = calls })) f
    unfolding call_all
    call_all-attempts call e p f addr world calls same = answered (n.attempt call world).0
      where
        world' : World
        world' = (n.attempt call world).1

        answered :
            (done : Bool)
            → call_all (or_fail e p done) world' (call ∷ calls)
              ≡ after
                  (elim done as (λ x. Outcome E (Unit {0}) × Client Addr World) [
                    | true ↦ (ok tt, record { addr = addr; world = world'; calls = call ∷ calls })
                    | false ↦ (err e, record { addr = none; world = world'; calls = call ∷ calls })
                  ])
                  f
        answered true = same world' (call ∷ calls)
        answered false = refl

    -- `resolves` is `resolve`, and then what is done with the address.
    pub call_all-resolves :
        (name : List ℕ) (e : E) (go : Addr → Program Addr E A) (f : Addr → M Addr World E A)
        → ((a : Addr) (world' : World) (calls' : List (Call Addr))
            → call_all (go a) world' calls'
              ≡ f a (record { addr = some a; world = world'; calls = calls' }))
        → (addr : Option Addr) (world : World) (calls : List (Call Addr))
        → call_all (resolves name e go addr) world calls
          ≡ (resolve n name e >> (unwrap_addr >>= f))
              (record { addr = addr; world = world; calls = calls })
    unfolding call_all resolves first_of resolve
    call_all-resolves name e go f same (some a) world calls = same a world calls
    call_all-resolves name e go f same none world calls = with_reply (n.query name world).0
      where
        world' : World
        world' = (n.query name world).1

        with_reply :
            (reply : Option (List Addr))
            → call_all (first_of e go reply) world' (dns_query name ∷ calls)
              ≡ after
                  (first_addr n reply e
                    (record { addr = none; world = world'; calls = dns_query name ∷ calls }))
                  (λ _. unwrap_addr >>= f)
        with_reply none = refl
        with_reply (some []) = refl
        with_reply (some (a ∷ others)) = same a world' (dns_query name ∷ calls)
