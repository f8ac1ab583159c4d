-- ===== src/Network/Resolve.antt =====
-- The address cache: a name is looked up only where no address is cached.
use esp_rf_ook.Prelude.{
  ℕ, ◌≡◌, refl, ◌⊎◌, inl, inr, Option, none, some, Option-cases, List, [], ◌∷◌, ◌++◌, arith,
  Outcome, ok, err,
}
use esp_rf_ook.Network.{Network, Call, dns_query, Client, resolve}

-- The look-up that is made.
abbrev pub asked : {Addr : Type 0} → Option Addr → List ℕ → List (Call Addr)
asked none name = dns_query name ∷ []
asked (some a) name = []

module _ {Addr World E : Type 0} (n : Network Addr World) (name : List ℕ) (e : E)
    (c : Client Addr World) where
  abbrev pub Resolved : Outcome E (Unit {0}) × Client Addr World → Type 0
  Resolved (r, c') =
      ((a : Addr) × (r ≡ ok tt) × (c'.addr ≡ some a) × (c'.calls ≡ asked c.addr name ++ c.calls))
      ⊎ ((r ≡ err e)
          × (c.addr ≡ none)
          × (c'.addr ≡ none)
          × (c'.calls ≡ asked c.addr name ++ c.calls))

  answered :
      (reply : Option (List Addr))
      → c.addr ≡ none
      → (n.query name c.world).0 ≡ reply
      → Resolved (resolve n name e c)
  unfolding resolve
  answered none h q = inr (ground arith, h, ground arith, ground arith)
  answered (some []) h q = inr (ground arith, h, ground arith, ground arith)
  answered (some (a ∷ others)) h q = inl (a, ground arith, ground arith, ground arith)

  -- The look-up gives an address, or its error leaves none.
  pub resolve_cases : Resolved (resolve n name e c)
  unfolding resolve
  resolve_cases = elim (Option-cases c.addr) [
    | inl h ↦ answered (n.query name c.world).0 h refl
    | inr (a, h) ↦ inl (a, ground arith, ground arith, ground arith)
  ]
