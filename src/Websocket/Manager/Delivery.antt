-- ===== src/Websocket/Manager/Delivery.antt =====
-- internal/websocket/manager.go: what BroadcastEvent delivers to the user of one channel.
use discord_lite_server.Base.{
  ℕ, zero, suc, ◌≤◌, ◌≡◌, refl, sym, ap, ◌∙◌, Bool, true, false, String, Option, none, some, List,
  [], ◌∷◌, ◌++◌, nat_eq, string_eq, arith, ltb, if◌then◌else◌, inl, inr, Bool-cases,
}
use discord_lite_server.Base.Lists.{
  length, length-append, take, take-append, get_elem?, set, get_elem?-append_last,
  get_elem?-set_self,
}
use discord_lite_server.Base.Assoc.{lookup, delete, lookup-insert}
use discord_lite_server.Websocket.Channels.{
  Chan, Outcome, done, capacity, new_chan, send, close, ◌>>=◌,
}
use discord_lite_server.Websocket.Manager.{
  slot_eq, Manager, register, subscribe_each, with_user, drop_each, close_each, unsubscribe,
  broadcast_each, broadcast_event,
}
use discord_lite_server.Websocket.Manager.Sharing.{drop_each-same}

module _ {E : Type 0} where
  -- A full buffer stays as it is.
  abbrev add_event : ℕ → List E → E → List E
  add_event n buffer event = if ltb (length buffer) n then buffer ++ event ∷ [] else buffer

  add_events : ℕ → List E → List E → List E
  add_events n buffer [] = buffer
  add_events n buffer (e ∷ es) = add_events n (add_event n buffer e) es

  append_nil : (xs : List E) → xs ++ [] ≡ xs
  append_nil [] = refl
  append_nil (x ∷ xs) = ap (◌∷◌ x) (append_nil xs)

  append_assoc : (xs : List E) (y : E) (ys : List E) → (xs ++ y ∷ []) ++ ys ≡ xs ++ y ∷ ys
  append_assoc [] y ys = refl
  append_assoc (x ∷ xs) y ys = ap (◌∷◌ x) (append_assoc xs y ys)

  take_all : (n : ℕ) (xs : List E) → length xs ≤ n → take n xs ≡ xs
  take_all zero [] h = refl
  take_all zero (x ∷ xs) h = absurd (omega arith)
  take_all (suc n) [] h = refl
  take_all (suc n) (x ∷ xs) h = ap (◌∷◌ x) (take_all n xs (omega arith))

  add_events-take :
      (n : ℕ) (buffer es : List E)
      → length buffer ≤ n
      → add_events n buffer es ≡ take n (buffer ++ es)
  unfolding add_events
  add_events-take n buffer [] h = sym (ap (take n) (append_nil buffer) ∙ take_all n buffer h)
  add_events-take n buffer (e ∷ es) h = elim (Bool-cases (ltb (length buffer) n)) [
    | inl less ↦ rw less (
        add_events-take n (buffer ++ e ∷ []) es
          (ground (arith, less, length-append buffer (e ∷ [])))
        ∙ ap (take n) (append_assoc buffer e es))
    | inr full ↦
        let len : length buffer ≡ n = ground (arith, h, full) in
        rw full (
          add_events-take n buffer es h
          ∙ take-append n buffer es len
          ∙ sym (take-append n buffer (e ∷ es) len))
  ]

  -- The one subscriber of a channel, and what its event channel holds.
  record Holds (uid : ℕ) (c : String) (id : ℕ) (buffer : List E) (m : Manager E) : Type 0 where
    known : lookup (uid, c) m.event_channels ≡ some id
    subscribed : lookup c m.subscriptions ≡ some (uid ∷ [])
    there : get_elem? m.channels id ≡ some (record { buffer = buffer; closed = false })

  -- BroadcastEvent of one event after the other.
  pub broadcast_all : String → List E → Manager E → Outcome (Manager E)
  broadcast_all c [] m = done m
  broadcast_all c (e ∷ es) m = broadcast_event c e m >>= broadcast_all c es

  buffer_of :
      (xs ys : List E) (b : Bool)
      → ◌≡◌ {A = Option (Chan E)}
          (some (
            if b
            then record { buffer = xs; closed = false }
            else record { buffer = ys; closed = false }))
          (some (record { buffer = if b then xs else ys; closed = false }))
  buffer_of xs ys true = refl
  buffer_of xs ys false = refl

  broadcast_event-Holds :
      (uid id : ℕ) (c : String) (buffer : List E) (event : E) (m : Manager E)
      → Holds uid c id buffer m
      → (m' : Manager E) × (broadcast_event c event m ≡ done m')
        × Holds uid c id (add_event capacity buffer event) m'
  unfolding broadcast_event broadcast_each send
  broadcast_event-Holds uid id c buffer event m h =
      let ch : Chan E =
        if ltb (length buffer) capacity
        then record { buffer = buffer ++ event ∷ []; closed = false }
        else record { buffer = buffer; closed = false } in
      (
        record m { channels = set m.channels id ch },
        rw (h.subscribed, h.known, h.there) refl,
        record {
          known = h.known;
          subscribed = h.subscribed;
          there =
              get_elem?-set_self m.channels id ch _ h.there
              ∙ buffer_of _ _ (ltb (length buffer) capacity);
        },
      )

  broadcast_all-Holds :
      (uid id : ℕ) (c : String) (es buffer : List E) (m : Manager E)
      → Holds uid c id buffer m
      → (m' : Manager E) × (broadcast_all c es m ≡ done m')
        × Holds uid c id (add_events capacity buffer es) m'
  unfolding broadcast_all add_events
  broadcast_all-Holds uid id c [] buffer m h = (m, refl, h)
  broadcast_all-Holds uid id c (e ∷ es) buffer m h =
      let (m1, r1, h1) = broadcast_event-Holds uid id c buffer e m h in
      let (m2, r2, h2) = broadcast_all-Holds uid id c es (add_event capacity buffer e) m1 h1 in
      (m2, rw r1 r2, h2)

  register-Holds :
      (uid : ℕ) (c : String) (m : Manager E)
      → lookup c m.subscriptions ≡ none
      → Holds uid c (length m.channels) [] (register uid (c ∷ []) m)
  unfolding register subscribe_each
  register-Holds uid c m e = record {
    known = ground (
      arith,
      slot_eq.beq_iff (uid, c) (uid, c),
      lookup-insert (uid, c) (uid, c) (length m.channels) m.event_channels,
    );
    subscribed = ground (
      arith,
      e,
      string_eq.beq_iff c c,
      lookup-insert c c (with_user uid (lookup c m.subscriptions)) m.subscriptions,
    );
    there = get_elem?-append_last m.channels new_chan;
  }

  unsubscribe-Holds :
      (uid id : ℕ) (c : String) (buffer : List E) (m : Manager E)
      → Holds uid c id buffer m
      → (m' : Manager E) × (unsubscribe uid (c ∷ []) m ≡ done m')
        × (get_elem? m'.channels id ≡ some (record { buffer = buffer; closed = true }))
  unfolding unsubscribe close_each close
  unsubscribe-Holds uid id c buffer m h =
      let (e, f) = drop_each-same uid (c ∷ []) m in
      let d = drop_each uid (c ∷ []) m in
      let shut : Chan E = record { buffer = buffer; closed = true } in
      (
        record d {
          channels = set m.channels id shut;
          event_channels = delete (uid, c) m.event_channels;
        },
        rw (e, h.known, f, h.there) refl,
        get_elem?-set_self m.channels id shut _ h.there,
      )

  -- When a user subscribes to one channel that has no other subscriber, the events of the channel
  -- are delivered in their order, the first 100 of them when none is read in between, and
  -- the unsubscription closes the event channel, which still holds them, without a panic.
  pub subscription_of_one :
      (uid : ℕ) (c : String) (es : List E) (m : Manager E)
      → lookup c m.subscriptions ≡ none
      → (m' : Manager E) × (broadcast_all c es (register uid (c ∷ []) m)
            >>= unsubscribe uid (c ∷ [])
          ≡ done m')
        × (get_elem? m'.channels (length m.channels)
            ≡ some (record { buffer = take 100 es; closed = true }))
  subscription_of_one uid c es m e =
      let id = length m.channels in
      let (m1, r1, h1) = broadcast_all-Holds uid id c es [] _ (register-Holds uid c m e) in
      let (m2, r2, there) = unsubscribe-Holds uid id c _ m1 h1 in
      (
        m2,
        rw r1 r2,
        there
            ∙ ap (λ b. some (record { buffer = b; closed = true }))
                (add_events-take capacity [] es (omega arith)),
      )
