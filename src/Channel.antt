-- ===== src/Channel.antt =====
-- What src/bin/main.rs uses of embassy's `Channel` for MQTT_CHANNEL, as a parameter with its laws.
use native.Mathlib.Decide.{dec_lt}
use mathlib.Core.List.{append_assoc, append-nil}
use mathlib.Core.Option.{some-injective}
use esp_rf_ook.Prelude.{
  ℕ, ◌≤◌, ◌<◌, ◌≡◌, refl, sym, ap, ◌∙◌, Option, none, some, List, [], ◌∷◌, ◌++◌, arith, length,
  length-append,
}
use esp_rf_ook.Prelude.Options.{◌>>=◌, >>=-eq-some}

-- `send` and `receive` at the moment at which they are done; `none` while they wait.
pub record Channel (A C : Type 0) : Type 0 where
  pub empty : C
  pub send : A → C → Option C
  pub receive : C → Option (A × C)

-- Its documentation: a queue of so many messages, whose `send` waits for room and whose `receive`
-- waits for a message.
pub record IsChannel {A C : Type 0} (capacity : ℕ) (q : Channel A C) : Type 0 where
  pub held : C → List A
  pub held-empty : held q.empty ≡ []
  pub send_room :
      (a : A) (c : C)
      → length (held c) < capacity
      → (c' : C) × (q.send a c ≡ some c') × (held c' ≡ held c ++ a ∷ [])
  pub send_full : (a : A) (c : C) → capacity ≤ length (held c) → q.send a c ≡ none
  pub receive_nil : (c : C) → held c ≡ [] → q.receive c ≡ none
  pub receive_cons :
      (c : C) (a : A) (rest : List A)
      → held c ≡ a ∷ rest
      → (c' : C) × (q.receive c ≡ some (a, c')) × (held c' ≡ rest)

-- The messages of a round, one after the other.
unfoldable pub send_all : {A C : Type 0} → Channel A C → List A → C → Option C
send_all q [] c = some c
send_all q (a ∷ more) c = do c' ← q.send a c; send_all q more c'

module _ {A C : Type 0} (capacity : ℕ) (q : Channel A C) (law : IsChannel capacity q) where
  -- A message that is sent found room, and is the last.
  pub send_inv :
      (a : A) (c c' : C)
      → q.send a c ≡ some c'
      → (length (law.held c) < capacity) × (law.held c' ≡ law.held c ++ a ∷ [])
  send_inv a c c' e = elim (dec_lt (length (law.held c)) capacity) [
    | yes room ↦
        let (c'', e', last) = law.send_room a c room in
        (room, ap law.held (some-injective _ _ (sym e ∙ e')) ∙ last)
    | no full ↦ cc (sym (law.send_full a c (omega arith)) ∙ e)
  ]

  -- Messages that are sent stand at the end, in order, and the channel holds no more than it can.
  pub send_all_inv :
      (more : List A) (c c' : C)
      → length (law.held c) ≤ capacity
      → send_all q more c ≡ some c'
      → (law.held c' ≡ law.held c ++ more) × (length (law.held c') ≤ capacity)
  unfolding send_all
  send_all_inv [] c c' small e =
      let same = some-injective _ _ e in
      (
        ap law.held (sym same) ∙ sym (append-nil (law.held c)),
        omega (arith, ap (λ x. length (law.held x)) same, small),
      )
  send_all_inv (a ∷ more) c c' small e =
      let (d, sent, e') = >>=-eq-some (q.send a c) _ e in
      let (room, last) = send_inv a c d sent in
      let longer = length-append (law.held c) (a ∷ []) in
      let (all, small') = send_all_inv more d c' (omega (arith, room, ap length last, longer)) e' in
      (all ∙ ap (λ l. l ++ more) last ∙ append_assoc (law.held c) (a ∷ []) more, small')

  -- Where there is room for one, one is sent.
  pub send_all_one :
      (a : A) (c : C)
      → length (law.held c) < capacity
      → (c' : C) × (send_all q (a ∷ []) c ≡ some c') × (law.held c' ≡ law.held c ++ a ∷ [])
  unfolding send_all
  send_all_one a c room = let (c', e, last) = law.send_room a c room in (c', rw e, last)

  -- So is one at most.
  pub send_all_room :
      (more : List A) (c : C)
      → length more ≤ 1
      → length (law.held c) < capacity
      → (c' : C) × (send_all q more c ≡ some c')
  unfolding send_all
  send_all_room [] c few room = (c, refl)
  send_all_room (a ∷ []) c few room = let (c', e, _) = send_all_one a c room in (c', e)
  send_all_room (a ∷ b ∷ more) c few room = absurd (omega arith)

  -- Where there is a message, one is received.
  pub receive_some :
      (c : C) → 0 < length (law.held c) → (a : A) × (c' : C) × (q.receive c ≡ some (a, c'))
  receive_some c h = at_held (law.held c) refl
    where
      at_held : (l : List A) → law.held c ≡ l → (a : A) × (c' : C) × (q.receive c ≡ some (a, c'))
      at_held [] e = absurd (omega (arith, ap length e))
      at_held (a ∷ rest) e = let (c', e', _) = law.receive_cons c a rest e in (a, c', e')

  -- What is received was the first.
  pub receive_inv : (a : A) (c c' : C) → q.receive c ≡ some (a, c') → law.held c ≡ a ∷ law.held c'
  receive_inv a c c' e = at_held (law.held c) refl
    where
      at_held : (l : List A) → law.held c ≡ l → law.held c ≡ a ∷ law.held c'
      at_held [] h = cc (sym (law.receive_nil c h) ∙ e)
      at_held (b ∷ rest) h =
          let (d, e', same) = law.receive_cons c b rest h in
          let pair = some-injective _ _ (sym e' ∙ e) in
          h ∙ ap (◌∷◌ b) (sym same) ∙ ap (λ x. x.0 ∷ law.held x.1) pair
