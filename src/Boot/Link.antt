-- ===== src/Boot/Link.antt =====
-- The connection task of src/wifi.rs beside the start: when `Wifi::new` goes on, waits, or goes down with it.
use mathlib.Core.Path.{subst}
use esp_rf_ook.Prelude.{
  ◌≡◌, ◌≢◌, sym, ap, ◌∙◌, ◌⊎◌, inl, inr, true, false, Bool-cases, none, some, Option-cases, List,
  [], ◌∷◌, All, arith,
}
use esp_rf_ook.Prelude.Options.{>>=-eq-some}
use esp_rf_ook.Wifi.{Radio, WifiAction, is_running, connection, connections, wait_for_link}
use esp_rf_ook.Wifi.Link.{signals-connection, connection_panics}
use esp_rf_ook.Boot.{Booting, done, panicked, waiting, unless_linked, after_round, wait_connected}

-- A round has to set the controller up, and fails to.
abbrev pub Breaks : Radio → Type 0
Breaks r =
    (is_running r.is_started ≡ false)
    × ((r.set_config ≡ false) ⊎ (r.start ≡ false) ⊎ (r.scan ≡ false))

abbrev pub Survives : Radio → Type 0
Survives r =
    (is_running r.is_started ≡ true) ⊎ ((r.set_config ≡ true) × (r.start ≡ true) × (r.scan ≡ true))

abbrev pub StaysDown : Radio → Type 0
StaysDown r = Survives r × (r.connect ≡ false)

-- Some rounds that do not connect, and one that does.
abbrev pub Connects : List Radio → Type 0
Connects [] = ⊥
Connects (r ∷ rs) = Survives r × ((r.connect ≡ true) ⊎ ((r.connect ≡ false) × Connects rs))

-- Some rounds that do not connect, and one that breaks.
abbrev pub BreaksDown : List Radio → Type 0
BreaksDown [] = ⊥
BreaksDown (r ∷ rs) = Breaks r ⊎ (StaysDown r × BreaksDown rs)

abbrev pub SomeBreaks : List Radio → Type 0
SomeBreaks [] = ⊥
SomeBreaks (r ∷ rs) = Breaks r ⊎ SomeBreaks rs

abbrev pub Linked : List Radio → Booting (Unit {0}) → Type 0
Linked rs (done u) = Connects rs
Linked rs panicked = BreaksDown rs
Linked rs waiting = All StaysDown rs

connection-Survives : (r : Radio) (acts : List WifiAction) → connection r ≡ some acts → Survives r
connection-Survives r acts e =
    let lasts : (connection r ≢ none) = λ h. cc (sym e ∙ h) in
    let no : Breaks r → ⊥ = λ b. lasts ((connection_panics r).1 b) in
    elim (Bool-cases (is_running r.is_started)) [
      | inl up ↦ inl up
      | inr down ↦ elim (Bool-cases r.set_config) [
        | inr f ↦ absurd (no (down, inl f))
        | inl a ↦ elim (Bool-cases r.start) [
          | inr f ↦ absurd (no (down, inr (inl f)))
          | inl b ↦ elim (Bool-cases r.scan) [
            | inr f ↦ absurd (no (down, inr (inr f)))
            | inl c ↦ inr (a, b, c)
          ]
        ]
      ]
    ]

module _ (r : Radio) (rs : List Radio) where
  wait_broken : connection r ≡ none → wait_connected (r ∷ rs) ≡ panicked
  unfolding wait_connected
  wait_broken e = ap (λ o. after_round o (wait_connected rs)) e

  wait_up :
      (acts : List WifiAction)
      → connection r ≡ some acts
      → r.connect ≡ true
      → wait_connected (r ∷ rs) ≡ done tt
  unfolding wait_connected wait_for_link
  wait_up acts e up =
      ap (λ o. after_round o (wait_connected rs)) e
      ∙ ap (λ ups. unless_linked (wait_for_link ups) (wait_connected rs))
          (signals-connection r e ∙ ap (λ up. up ∷ []) up)

  wait_down :
      (acts : List WifiAction)
      → connection r ≡ some acts
      → r.connect ≡ false
      → wait_connected (r ∷ rs) ≡ wait_connected rs
  unfolding wait_connected wait_for_link
  wait_down acts e down =
      ap (λ o. after_round o (wait_connected rs)) e
      ∙ ap (λ ups. unless_linked (wait_for_link ups) (wait_connected rs))
          (signals-connection r e ∙ ap (λ up. up ∷ []) down)

  add_down :
      (w : Booting (Unit {0})) → Survives r → r.connect ≡ false → Linked rs w → Linked (r ∷ rs) w
  add_down (done u) survives down h = (survives, inr (down, h))
  add_down panicked survives down h = inr ((survives, down), h)
  add_down waiting survives down h = ((survives, down), h)

-- What the wait comes to, by the rounds alone.
pub wait_connected-Linked : (rs : List Radio) → Linked rs (wait_connected rs)
unfolding wait_connected
wait_connected-Linked [] = tt
wait_connected-Linked (r ∷ rs) = elim (Option-cases (connection r)) [
  | inl broken ↦
      subst (Linked (r ∷ rs)) (sym (wait_broken r rs broken)) (inl ((connection_panics r).0 broken))
  | inr (acts, e) ↦
      let survives = connection-Survives r acts e in
      elim (Bool-cases r.connect) [
        | inl up ↦ subst (Linked (r ∷ rs)) (sym (wait_up r rs acts e up)) (survives, inl up)
        | inr down ↦
            subst (Linked (r ∷ rs)) (sym (wait_down r rs acts e down))
              (add_down r rs (wait_connected rs) survives down (wait_connected-Linked rs))
      ]
]

pub connections-Survives :
    (rs : List Radio) (acts : List WifiAction) → connections rs ≡ some acts → All Survives rs
unfolding connections
connections-Survives [] acts e = tt
connections-Survives (r ∷ rs) acts e =
    let (now, e', h) = >>=-eq-some (connection r) _ e in
    let (later, e'', h') = >>=-eq-some (connections rs) _ h in
    (connection-Survives r now e', connections-Survives rs later e'')

pub connections-SomeBreaks : (rs : List Radio) → connections rs ≡ none → SomeBreaks rs
unfolding connections
connections-SomeBreaks [] e = cc
connections-SomeBreaks (r ∷ rs) e = elim (Option-cases (connection r)) [
  | inl broken ↦ inl ((connection_panics r).0 broken)
  | inr (now, e') ↦ elim (Option-cases (connections rs)) [
    | inl broken ↦ inr (connections-SomeBreaks rs broken)
    | inr (later, e'') ↦ absurd (ground arith)
  ]
]
