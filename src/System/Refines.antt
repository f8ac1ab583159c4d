-- ===== src/System/Refines.antt =====
-- Any interleaving of the two tasks is a run of the loop, and the deliveries of what it sends.
use mathlib.Core.List.{append-nil, append_assoc}
use mathlib.Core.Option.{some-injective}
use mathlib.Core.Path.{subst}
use esp_rf_ook.Prelude.{
  ℕ, ◌≤◌, ◌≡◌, refl, sym, ap, ◌∙◌, Bool, Option, none, some, List, [], ◌∷◌, ◌++◌, arith, map,
  length,
}
use esp_rf_ook.Prelude.Options.{>>=-eq-some}
use esp_rf_ook.Sensor.{SensorData, PackedStruct}
use esp_rf_ook.Channel.{Channel, IsChannel, send_all_inv, receive_inv}
use esp_rf_ook.Station.{Station, Action, Round, start, round, run}
use esp_rf_ook.Station.Effect.{sends, sends-append}
use esp_rf_ook.Publisher.{Jiff, Delivery, Post, deliver, deliver_all}
use esp_rf_ook.System.{
  capacity, System, taken, Event, heard, delivered, fresh, Step, receives, takes, publishes, Steps,
  here, next,
}

-- The rounds, the deliveries and the posts among the events, in order.
abbrev pub rounds_of : List Event → List Round
rounds_of [] = []
rounds_of (heard r ∷ es) = rounds_of es ++ r ∷ []
rounds_of (delivered d posted ∷ es) = rounds_of es

abbrev pub deliveries_of : List Event → List Delivery
deliveries_of [] = []
deliveries_of (heard r ∷ es) = deliveries_of es
deliveries_of (delivered d posted ∷ es) = deliveries_of es ++ d ∷ []

abbrev pub posts_of : List Event → List Post
posts_of [] = []
posts_of (heard r ∷ es) = posts_of es
posts_of (delivered d posted ∷ es) = posts_of es ++ posted ∷ []

module _ (is_timestamp : ℕ → Bool) (p : PackedStruct) where
  run_last :
      (rs : List Round) (s t u : Station) (r : Round) (acts more : List Action)
      → run is_timestamp p s rs ≡ some (t, acts)
      → round is_timestamp p t r ≡ some (u, more)
      → run is_timestamp p s (rs ++ r ∷ []) ≡ some (u, acts ++ more)
  unfolding run
  run_last [] s t u r acts more h e =
      let q = some-injective _ _ h in
      let e' : round is_timestamp p s r ≡ some (u, more) =
        subst (λ x. round is_timestamp p x.0 r ≡ some (u, more)) (sym q) e in
      rw e' (ap (λ l. some (u, l)) (append-nil more ∙ ap (λ x. x.1 ++ more) q))
  run_last (r' ∷ rs) s t u r acts more h e =
      let ((v, first), e₁, h') = >>=-eq-some (round is_timestamp p s r') _ h in
      let ((w, later), e₂, h'') = >>=-eq-some (run is_timestamp p v rs) _ h' in
      let q = some-injective _ _ h'' in
      let e' : run is_timestamp p v rs ≡ some (t, later) = e₂ ∙ ap (λ x. some (x.0, later)) q in
      rw (e₁, run_last rs v t u r later more e' e)
        (ap (λ l. some (u, l)) (sym (append_assoc first later more) ∙ ap (λ x. x.1 ++ more) q))

module _ (jiff : Jiff) where
  deliver_last :
      (ds : List Delivery) (a b c : ℕ) (d : Delivery) (posted : Post) (posts : List Post)
      → deliver_all jiff a ds ≡ some (b, posts)
      → deliver jiff b d ≡ some (c, posted)
      → deliver_all jiff a (ds ++ d ∷ []) ≡ some (c, posts ++ posted ∷ [])
  unfolding deliver_all
  deliver_last [] a b c d posted posts h e =
      let q = some-injective _ _ h in
      let e' : deliver jiff a d ≡ some (c, posted) =
        subst (λ x. deliver jiff x.0 d ≡ some (c, posted)) (sym q) e in
      rw e' (ap (λ x. some (c, x.1 ++ posted ∷ [])) q)
  deliver_last (d' ∷ ds) a b c d posted posts h e =
      let ((v, first), e₁, h') = >>=-eq-some (deliver jiff a d') _ h in
      let ((w, later), e₂, h'') = >>=-eq-some (deliver_all jiff v ds) _ h' in
      let q = some-injective _ _ h'' in
      let e' : deliver_all jiff v ds ≡ some (b, later) = e₂ ∙ ap (λ x. some (x.0, later)) q in
      rw (e₁, deliver_last ds v b c d posted later e' e) (ap (λ x. some (c, x.1 ++ posted ∷ [])) q)

regroup : {A : Type 0} (a b c d : List A) → a ++ (b ++ (c ++ d)) ≡ (a ++ (b ++ c)) ++ d
regroup a b c d = simp append_assoc

map-append : (ds es : List Delivery) → map taken (ds ++ es) ≡ map taken ds ++ map taken es
map-append [] es = refl
map-append (d ∷ ds) es = ap (◌∷◌ (taken d)) (map-append ds es)

-- The message of the turn that the publisher is at.
abbrev pub hand : Option (SensorData × ℕ) → List (SensorData × ℕ)
hand none = []
hand (some m) = m ∷ []

module _ {C : Type 0} (q : Channel (SensorData × ℕ) C) (law : IsChannel capacity q)
    (is_timestamp : ℕ → Bool) (p : PackedStruct) (jiff : Jiff)
    (last_time_sync last_publish publisher_now : ℕ) where
  -- The state behind the events is that of one run of the loop and of one sequence of deliveries. The
  -- messages of the run are those delivered, in order, then the one that the publisher has received,
  -- and then those in the channel.
  pub record IsRefined (es : List Event) (s : System C) : Type 0 where
    pub actions : List Action
    pub ran :
        run is_timestamp p (start last_time_sync last_publish) (rounds_of es)
        ≡ some (s.station, actions)
    pub published :
        deliver_all jiff publisher_now (deliveries_of es) ≡ some (s.last_publish, posts_of es)
    pub in_order :
        map taken (deliveries_of es) ++ (hand s.in_hand ++ law.held s.channel) ≡ sends actions
    pub bounded : length (law.held s.channel) ≤ capacity

  fresh-IsRefined : IsRefined [] (fresh q last_time_sync last_publish publisher_now)
  unfolding run deliver_all
  fresh-IsRefined = record {
    actions = [];
    ran = refl;
    published = refl;
    in_order = law.held-empty;
    bounded = omega (arith, ap length law.held-empty);
  }

  Step-IsRefined :
      {es new : List Event} {s t : System C}
      → IsRefined es s
      → Step q is_timestamp p jiff s new t
      → IsRefined (new ++ es) t
  Step-IsRefined {es} k (receives s r station more channel e sent) =
      let (joined, small) =
        send_all_inv capacity q law (sends more) s.channel channel k.bounded sent in
      let before = map taken (deliveries_of es) in
      record {
        actions = k.actions ++ more;
        ran =
            run_last is_timestamp p (rounds_of es) (start last_time_sync last_publish) s.station
              station r k.actions more k.ran e;
        published = k.published;
        in_order =
            ap (λ l. before ++ (hand s.in_hand ++ l)) joined
            ∙ regroup before (hand s.in_hand) (law.held s.channel) (sends more)
            ∙ ap (λ l. l ++ sends more) k.in_order
            ∙ sym (sends-append k.actions more);
        bounded = small;
      }
  Step-IsRefined {es} k (takes s m channel idle e) =
      let first = receive_inv capacity q law m s.channel channel e in
      record {
        actions = k.actions;
        ran = k.ran;
        published = k.published;
        in_order =
            ap (λ l. map taken (deliveries_of es) ++ l) (sym first)
            ∙ ap (λ o. map taken (deliveries_of es) ++ (hand o ++ law.held s.channel)) (sym idle)
            ∙ k.in_order;
        bounded = omega (arith, k.bounded, ap length first);
      }
  Step-IsRefined {es} k (publishes s d last posted front e) = record {
    actions = k.actions;
    ran = k.ran;
    published =
        deliver_last jiff (deliveries_of es) publisher_now s.last_publish last d posted
          (posts_of es) k.published e;
    in_order =
        ap (λ l. l ++ law.held s.channel) (map-append (deliveries_of es) (d ∷ []))
        ∙ append_assoc (map taken (deliveries_of es)) (taken d ∷ []) (law.held s.channel)
        ∙ ap (λ o. map taken (deliveries_of es) ++ (hand o ++ law.held s.channel)) (sym front)
        ∙ k.in_order;
    bounded = k.bounded;
  }

  -- However the two tasks interleave, the system refines the two taken apart: its state is that of
  -- one run of the loop over its rounds and of one sequence of deliveries, no message is lost,
  -- doubled or overtaken between them, and the channel holds at most two besides the one that the
  -- publisher has received; for every channel that keeps the laws of a queue.
  pub Steps-IsRefined :
      {es : List Event} {s : System C}
      → Steps q is_timestamp p jiff (fresh q last_time_sync last_publish publisher_now) es s
      → IsRefined es s
  Steps-IsRefined here = fresh-IsRefined
  Steps-IsRefined (next new steps step) = Step-IsRefined (Steps-IsRefined steps) step
