-- ===== src/Life/Each.antt =====
-- What each start sends, by what its two tasks send.
use mathlib.Core.Path.{subst}
use mathlib.Core.List.{append-nil}
use esp_rf_ook.Prelude.{Option, ℕ, ◌≡◌, refl, sym, ap, ◌∙◌, Bool, List, [], ◌∷◌, ◌++◌, All}
use esp_rf_ook.Sensor.{SensorData, PackedStruct}
use esp_rf_ook.Network.{Network, Call, Client}
use esp_rf_ook.Network.Program.{Program, ends, call_all, call_all-call_next}
use esp_rf_ook.Ntpc
use esp_rf_ook.Ntpc.{NtpcError, get_time}
use esp_rf_ook.Ntpc.Calls.{call_all-time_calls}
use esp_rf_ook.Publisher.{Jiff}
use esp_rf_ook.Channel.{Channel}
use esp_rf_ook.System.{Event}
use esp_rf_ook.Device.{ntp_server}
use esp_rf_ook.Device.Logged.{messages, messages-get_time, messages-append}
use esp_rf_ook.Shared
use esp_rf_ook.Shared.{Shared, shared_started, Mutex, IsMutex}
use esp_rf_ook.Shared.Messages.{All-messages-call_all}
use esp_rf_ook.Life.Runs.{IsRun, Step-IsRun}
use esp_rf_ook.Life.{
  Phase, off, asking, running, halted, calls_of, Step, joins, fails_to_join, awaits, starts,
  fails_to_start, runs, panics, loses_wifi, Lives, powers, next, resets,
}

-- Each start with its own events.
abbrev pub Paired :
    {Addr : Type 0}
    → (List Event → List (Call Addr) → Type 0)
    → List (List Event)
    → List (List (Call Addr))
    → Type 0
Paired P [] [] = Unit
Paired P [] (calls ∷ past) = ⊥
Paired P (es ∷ earlier) [] = ⊥
Paired P (es ∷ earlier) (calls ∷ past) = P es calls × Paired P earlier past

All-none : {A : Type 0} (l : List A) → All (λ a. ⊥) l → l ≡ []
All-none [] h = refl
All-none (a ∷ l) (h, _) = absurd h

module _ {Addr World C L : Type 0} (n : Network Addr World) (q : Channel (SensorData × ℕ) C)
    (x : Mutex L) (is_timestamp : ℕ → Bool) (p : PackedStruct) (jiff : Jiff) (mqtt_server : List ℕ)
    (Q : List Event → List (List ℕ × List ℕ) → Type 0) (silent : Q [] [])
    (ran : (last_time_sync last_publish publisher_now : ℕ) (ntpc : Option Addr) (world : World)
        (es : List Event) (f : Shared Addr World C L)
      → Shared.Steps n q x is_timestamp p jiff mqtt_server
          (shared_started q x last_time_sync last_publish publisher_now ntpc world)
          es
          f
      → Q es (messages f.device.calls)) where
  -- Nothing is sent before the two tasks run.
  abbrev IsSound : List Event → Phase Addr World C L → Type 0
  IsSound es (off world) = Unit
  IsSound es (asking a rest world made) =
      (c : Client Addr World) × (call_all n rest world made ≡ get_time n ntp_server c)
      × (c.calls ≡ [])
  IsSound es (running f first) = messages first ≡ []
  IsSound es (halted world made) = Q es (messages made)

  -- Asking for the time sends nothing, also where it is not at its end.
  unsent :
      (rest : Program Addr NtpcError ℕ) (world : World) (made : List (Call Addr))
      (c : Client Addr World)
      → call_all n rest world made ≡ get_time n ntp_server c
      → c.calls ≡ []
      → messages made ≡ []
  unsent rest world made c same new = All-none (messages made) (
      All-messages-call_all n (λ m. ⊥) rest world made
        (subst (All (λ m. ⊥))
          (sym (
            ap (λ r. messages r.1.calls) same ∙ messages-get_time n ntp_server c ∙ ap messages new))
          tt))

  IsSound-Q :
      (es : List Event) (s : Phase Addr World C L)
      → IsRun n q x is_timestamp p jiff mqtt_server es s
      → IsSound es s
      → Q es (messages (calls_of s))
  IsSound-Q es (off world) run h = subst (λ es. Q es []) (sym run) silent
  IsSound-Q es (asking a rest world made) run (c, same, new) =
      subst (Q es) (sym (unsent rest world made c same new))
        (subst (λ es. Q es []) (sym run) silent)
  IsSound-Q es (running f first) (a, b, c, d, e, steps) none_first =
      subst (Q es)
        (sym (
          messages-append f.device.calls first
          ∙ ap (λ l. messages f.device.calls ++ l) none_first
          ∙ append-nil (messages f.device.calls)))
        (ran a b c d e es f steps)
  IsSound-Q es (halted world made) run h = h

  Step-IsSound :
      (es : List Event) {new : List Event} {s s' : Phase Addr World C L}
      → Step n q x is_timestamp p jiff mqtt_server s new s'
      → IsRun n q x is_timestamp p jiff mqtt_server es s
      → IsSound es s
      → IsSound (new ++ es) s'
  unfolding call_all Ntpc.new
  Step-IsSound es (joins a world joined) run h =
      (Ntpc.new world, call_all-time_calls n ntp_server (Ntpc.new world), refl)
  Step-IsSound es (fails_to_join a world failed) run h = IsSound-Q es (off world) run h
  Step-IsSound es (awaits a rest later world world' made made' e) run (c, same, new) =
      (c, call_all-call_next n rest world made e ∙ same, new)
  Step-IsSound es (starts a r addr world made station set) run (c, same, new) =
      unsent (ends r addr) world made c same new
  Step-IsSound es (fails_to_start a r addr world made failed) run h =
      IsSound-Q es (asking a (ends r addr) world made) run h
  Step-IsSound es (runs f f' new first step) run h = h
  Step-IsSound es (panics f first why) run h = IsSound-Q es (running f first) run h
  Step-IsSound es (loses_wifi r s up broken) run h = IsSound-Q es s run h

  abbrev AllSound : List (List Event) → List (List (Call Addr)) → Phase Addr World C L → Type 0
  AllSound [] past s = ⊥
  AllSound (es ∷ earlier) past s =
      IsRun n q x is_timestamp p jiff mqtt_server es s
      × IsSound es s
      × Paired (λ es made. Q es (messages made)) earlier past

  AllSound-Paired :
      (hs : List (List Event)) (past : List (List (Call Addr))) (s : Phase Addr World C L)
      → AllSound hs past s
      → Paired (λ es made. Q es (messages made)) hs (calls_of s ∷ past)
  AllSound-Paired [] past s h = h
  AllSound-Paired (es ∷ earlier) past s (run, sound, before) = (IsSound-Q es s run sound, before)

  Lives-AllSound :
      {world : World} {hs : List (List Event)} {past : List (List (Call Addr))}
      {s : Phase Addr World C L}
      → Lives n q x is_timestamp p jiff mqtt_server world hs past s
      → AllSound hs past s
  Lives-AllSound powers = (refl, tt, tt)
  Lives-AllSound (next {es} new lives step) =
      let (run, sound, before) = Lives-AllSound lives in
      (
        Step-IsRun n q x is_timestamp p jiff mqtt_server es step run,
        Step-IsSound es step run sound,
        before,
      )
  Lives-AllSound (resets {hs} {past} {s} lives) =
      (refl, tt, AllSound-Paired hs past s (Lives-AllSound lives))

  -- What holds of the messages of the two tasks, whenever they stop, holds of those of each start.
  pub Lives-Paired :
      {world : World} {hs : List (List Event)} {past : List (List (Call Addr))}
      {s : Phase Addr World C L}
      → Lives n q x is_timestamp p jiff mqtt_server world hs past s
      → Paired (λ es made. Q es (messages made)) hs (calls_of s ∷ past)
  Lives-Paired {hs = hs} {past} {s} lives = AllSound-Paired hs past s (Lives-AllSound lives)
