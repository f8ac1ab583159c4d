-- ===== src/Wifi/Signal.antt =====
-- LINK_STATE of src/wifi.rs between the connection task and `Wifi::new`: it keeps the latest value
-- only, so that a value may be lost, and the two tasks interleave.
use mathlib.Core.Option.{some-injective}
use esp_rf_ook.Prelude.{
  ◌≡◌, refl, sym, ap, ◌∙◌, ◌⊎◌, inl, inr, Bool, true, false, Option, none, some, List, [], ◌∷◌,
  if◌then◌else◌,
}
use esp_rf_ook.Wifi.{Radio, WifiAction, connection}
use esp_rf_ook.Wifi.Link.{signals, signals-connection}

-- Where `Wifi::new` stands: at `LINK_STATE.wait()`, in the half second behind it, or past the loop.
pub data Waiter : Type 0 where
  waiting finished : Waiter
  sleeping : Bool → Waiter

-- What the two tasks use of embassy's `Signal`, as a parameter. `take` is what `wait` comes back with,
-- and the state behind it; `none` while there is no value.
pub record Signal (S : Type 0) : Type 0 where
  pub empty : S
  pub signal : Bool → S → S
  pub take : S → Option (Bool × S)

-- Its documentation: a new value takes the place of the one that is there, and is taken once.
pub record IsSignal {S : Type 0} (g : Signal S) : Type 0 where
  pub take-empty : g.take g.empty ≡ none
  pub take-signal : (up : Bool) (s : S) → g.take (g.signal up s) ≡ some (up, g.empty)

pub record Link (S : Type 0) : Type 0 where
  pub link_state : S
  pub waiter : Waiter

-- `if link_is_up { break; }`
abbrev pub woken : Bool → Waiter
woken link_is_up = if link_is_up then finished else waiting

module _ {S : Type 0} (g : Signal S) where
  abbrev pub unlinked : Link S
  unlinked = record { link_state = g.empty; waiter = waiting }

  abbrev pub signalled : List Bool → S → S
  signalled [] state = state
  signalled (up ∷ ups) state = signalled ups (g.signal up state)

  -- A step of `Wifi::new`.
  pub data Wakes (l : Link S) : Link S → Type 0 where
    takes :
        (up : Bool) (state : S)
        → l.waiter ≡ waiting
        → g.take l.link_state ≡ some (up, state)
        → Wakes l (record { link_state = state; waiter = sleeping up })
    sleeps : (up : Bool) → l.waiter ≡ sleeping up → Wakes l (record l { waiter = woken up })

  -- Some steps of `Wifi::new`, with none of the connection task between them.
  pub data WakesOn : Link S → Link S → Type 0 where
    here : {l : Link S} → WakesOn l l
    next : {l l' l'' : Link S} → Wakes l l' → WakesOn l' l'' → WakesOn l l''

  -- `Wifi::new` gets to its end by itself.
  abbrev pub Finishes : Link S → Type 0
  Finishes l = (l' : Link S) × WakesOn l l' × (l'.waiter ≡ finished)

  -- Any sequence of steps of both, with the rounds of the connection task, the latest first.
  pub data Links (l : Link S) : List Radio → Link S → Type 0 where
    start : Links l [] l
    connects :
        {rs : List Radio} {l' : Link S} (r : Radio) (acts : List WifiAction)
        → Links l rs l'
        → connection r ≡ some acts
        → Links l (r ∷ rs) (record l' { link_state = signalled (signals acts) l'.link_state })
    wakes : {rs : List Radio} {l' l'' : Link S} → Links l rs l' → Wakes l' l'' → Links l rs l''

-- A round that connects.
abbrev pub Connected : List Radio → Type 0
Connected [] = ⊥
Connected (r ∷ rs) = (r.connect ≡ true) ⊎ Connected rs

abbrev pub LastConnected : List Radio → Type 0
LastConnected [] = ⊥
LastConnected (r ∷ rs) = r.connect ≡ true

module _ {S : Type 0} (g : Signal S) (law : IsSignal g) where
  -- There is no value, or one of a round.
  abbrev Holds : List Radio → S → Type 0
  Holds rs state =
      (state ≡ g.empty)
      ⊎ ((up : Bool) × (before : S) × (state ≡ g.signal up before) × (up ≡ true → Connected rs))

  -- Whoever has the value `true` has it from a round that connects.
  record IsSound (rs : List Radio) (l : Link S) : Type 0 where
    holds : Holds rs l.link_state
    taken_up : l.waiter ≡ sleeping true → Connected rs
    up : l.waiter ≡ finished → Connected rs

  -- After a round that connects, the news is on its way.
  abbrev Told : Link S → Type 0
  Told l =
      ((before : S) × (l.link_state ≡ g.signal true before))
      ⊎ (l.waiter ≡ sleeping true)
      ⊎ (l.waiter ≡ finished)

  abbrev ToldOf : List Radio → Link S → Type 0
  ToldOf [] l = Unit
  ToldOf (r ∷ rs) l = r.connect ≡ true → Told l

  signalled_lem :
      (r : Radio) {acts : List WifiAction} (state : S)
      → connection r ≡ some acts
      → signalled g (signals acts) state ≡ g.signal r.connect state
  signalled_lem r state e = ap (λ ups. signalled g ups state) (signals-connection r e)

  -- What is taken is what was signalled.
  taken_value :
      (rs : List Radio) (state state' : S) (up : Bool)
      → Holds rs state
      → g.take state ≡ some (up, state')
      → (up ≡ true → Connected rs) × (state' ≡ g.empty)
  taken_value rs state state' up (inl e) h = cc (sym h ∙ ap g.take e ∙ law.take-empty)
  taken_value rs state state' up (inr (up', before, e, k)) h =
      let same : ◌≡◌ {A = Option (Bool × S)} (some (up', g.empty)) (some (up, state')) =
        sym (law.take-signal up' before) ∙ sym (ap g.take e) ∙ h in
      let pair = some-injective _ _ same in
      (λ t. k (ap (λ x. x.0) pair ∙ t), sym (ap (λ x. x.1) pair))

  Links-IsSound : {rs : List Radio} {l : Link S} → Links g (unlinked g) rs l → IsSound rs l
  Links-IsSound start = record { holds = inl refl; taken_up = λ e. cc; up = λ e. cc }
  Links-IsSound (connects {rs} {l'} r acts links e) =
      let k = Links-IsSound links in
      record {
        holds = inr (r.connect, l'.link_state, signalled_lem r l'.link_state e, λ t. inl t);
        taken_up = λ h. inr (k.taken_up h);
        up = λ h. inr (k.up h);
      }
  Links-IsSound (wakes {rs} {l'} links (takes up state w s)) =
      let (risen, gone) = taken_value rs l'.link_state state up (Links-IsSound links).holds s in
      record { holds = inl gone; taken_up = λ e. risen (cc e); up = λ e. cc }
  Links-IsSound (wakes links (sleeps true w)) =
      let k = Links-IsSound links in
      record { holds = k.holds; taken_up = λ e. cc; up = λ e. k.taken_up w }
  Links-IsSound (wakes links (sleeps false w)) =
      let k = Links-IsSound links in record { holds = k.holds; taken_up = λ e. cc; up = λ e. cc }

  take_told :
      (state state' before : S) (up : Bool)
      → state ≡ g.signal true before
      → g.take state ≡ some (up, state')
      → up ≡ true
  take_told state state' before up e h =
      let same : ◌≡◌ {A = Option (Bool × S)} (some (true, g.empty)) (some (up, state')) =
        sym (law.take-signal true before) ∙ sym (ap g.take e) ∙ h in
      sym (ap (λ x. x.0) (some-injective _ _ same))

  Wakes-Told : {l l' : Link S} → Wakes g l l' → Told l → Told l'
  Wakes-Told {l} (takes up state w s) (inl (before, t)) =
      inr (inl (ap sleeping (take_told l.link_state state before up t s)))
  Wakes-Told (takes up state w s) (inr (inl t)) = cc (sym w ∙ t)
  Wakes-Told (takes up state w s) (inr (inr t)) = cc (sym w ∙ t)
  Wakes-Told (sleeps up w) (inl t) = inl t
  Wakes-Told (sleeps true w) (inr (inl t)) = inr (inr refl)
  Wakes-Told (sleeps false w) (inr (inl t)) = cc (sym w ∙ t)
  Wakes-Told (sleeps up w) (inr (inr t)) = cc (sym w ∙ t)

  Wakes-ToldOf : (rs : List Radio) {l l' : Link S} → Wakes g l l' → ToldOf rs l → ToldOf rs l'
  Wakes-ToldOf [] step k = tt
  Wakes-ToldOf (r ∷ rs) step k = λ up. Wakes-Told step (k up)

  Links-ToldOf : {rs : List Radio} {l : Link S} → Links g (unlinked g) rs l → ToldOf rs l
  Links-ToldOf start = tt
  Links-ToldOf (connects {rs} {l'} r acts links e) = λ up.
      inl (l'.link_state, signalled_lem r l'.link_state e ∙ ap (λ b. g.signal b l'.link_state) up)
  Links-ToldOf (wakes {rs} links step) = Wakes-ToldOf rs step (Links-ToldOf links)

  news_of_last : (rs : List Radio) (l : Link S) → ToldOf rs l → LastConnected rs → Told l
  news_of_last [] l k up = absurd up
  news_of_last (r ∷ rs) l k up = k up

  from_waiting :
      (l : Link S) (before : S)
      → l.waiter ≡ waiting
      → l.link_state ≡ g.signal true before
      → Finishes g l
  from_waiting l before w s = (
    _,
    next (takes true g.empty w (ap g.take s ∙ law.take-signal true before))
        (next (sleeps true refl) here),
    refl,
  )

  finishes : (l : Link S) (w : Waiter) → l.waiter ≡ w → Told l → Finishes g l
  finishes l waiting e (inl (before, t)) = from_waiting l before e t
  finishes l waiting e (inr (inl t)) = cc (sym e ∙ t)
  finishes l waiting e (inr (inr t)) = cc (sym e ∙ t)
  finishes l finished e t = (l, here, e)
  finishes l (sleeping true) e t = (_, next (sleeps true e) here, refl)
  finishes l (sleeping false) e (inl (before, t)) =
      let (l', on, done) = from_waiting (record l { waiter = waiting }) before refl t in
      (l', next (sleeps false e) on, done)
  finishes l (sleeping false) e (inr (inl t)) = cc (sym e ∙ t)
  finishes l (sleeping false) e (inr (inr t)) = cc (sym e ∙ t)

  -- However the two tasks interleave, and though a value that is not taken in time is lost: if the signal
  -- keeps its law, `Wifi::new` goes on only after a round of the connection task has connected; and if
  -- the last round has connected, it can go on by its own steps alone.
  pub Links-Finishes :
      {rs : List Radio} {l : Link S}
      → Links g (unlinked g) rs l
      → (l.waiter ≡ finished → Connected rs) × (LastConnected rs → Finishes g l)
  Links-Finishes {rs} {l} links = (
    (Links-IsSound links).up,
    λ up. finishes l l.waiter refl (news_of_last rs l (Links-ToldOf links) up),
  )
