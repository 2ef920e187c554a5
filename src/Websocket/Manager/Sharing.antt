-- ===== src/Websocket/Manager/Sharing.antt =====
-- internal/websocket/manager.go: Subscribe makes one event channel for all of its channels, and
-- Unsubscribe closes the event channel of each.
use discord_lite_server.Base.{
  ℕ, ◌≡◌, ◌≢◌, refl, ap, ◌∙◌, true, String, Option, none, some, List, [], ◌∷◌, ◌++◌, nat_eq,
  string_eq, arith,
}
use discord_lite_server.Base.Lists.{length, get_elem?, get_elem?-append_last, get_elem?-set_self}
use discord_lite_server.Base.Assoc.{lookup, delete, lookup-insert, lookup-delete}
use discord_lite_server.Websocket.Channels.{panics, new_chan, close}
use discord_lite_server.Websocket.Manager.{
  slot_eq, Manager, register, subscribe_each, subscribe_one, drop_each, drop_from, close_each,
  unsubscribe,
}

module _ {E : Type 0} where
  -- An event channel that is open and known under a slot.
  pub record IsOpen (uid : ℕ) (c : String) (id : ℕ) (m : Manager E) : Type 0 where
    pub known : lookup (uid, c) m.event_channels ≡ some id
    pub there : get_elem? m.channels id ≡ some new_chan

  subscribe_each-channels :
      (uid id : ℕ) (cs : List String) (m : Manager E)
      → (subscribe_each uid id cs m).channels ≡ m.channels
  unfolding subscribe_each
  subscribe_each-channels uid id [] m = refl
  subscribe_each-channels uid id (c ∷ cs) m =
      subscribe_each-channels uid id cs (subscribe_one uid id m c)

  subscribe_each-keeps :
      (uid id : ℕ) (c : String) (cs : List String) (m : Manager E)
      → lookup (uid, c) m.event_channels ≡ some id
      → lookup (uid, c) (subscribe_each uid id cs m).event_channels ≡ some id
  unfolding subscribe_each
  subscribe_each-keeps uid id c [] m e = e
  subscribe_each-keeps uid id c (d ∷ cs) m e =
      subscribe_each-keeps uid id c cs (subscribe_one uid id m d)
        (ground (arith, e, lookup-insert (uid, d) (uid, c) id m.event_channels))

  subscribe_each-known :
      (uid id : ℕ) (before : List String) (c : String) (cs : List String) (m : Manager E)
      → lookup (uid, c) (subscribe_each uid id (before ++ c ∷ cs) m).event_channels ≡ some id
  unfolding subscribe_each
  subscribe_each-known uid id [] c cs m =
      subscribe_each-keeps uid id c cs (subscribe_one uid id m c) (
        ground (
          arith,
          slot_eq.beq_iff (uid, c) (uid, c),
          lookup-insert (uid, c) (uid, c) id m.event_channels,
        ))
  subscribe_each-known uid id (d ∷ before) c cs m =
      subscribe_each-known uid id before c cs (subscribe_one uid id m d)

  -- After Subscribe every channel of the request is known, under the one new event channel.
  pub register-IsOpen :
      (uid : ℕ) (before : List String) (c : String) (cs : List String) (m : Manager E)
      → IsOpen uid c (length m.channels) (register uid (before ++ c ∷ cs) m)
  unfolding register
  register-IsOpen uid before c cs m = record {
    known = subscribe_each-known uid (length m.channels) before c cs _;
    there =
        ap (λ h. get_elem? h (length m.channels))
          (subscribe_each-channels uid _ (before ++ c ∷ cs) _)
        ∙ get_elem?-append_last m.channels new_chan;
  }

  drop_from-same :
      (uid : ℕ) (c : String) (m : Manager E) (users : Option (List ℕ))
      → ((drop_from uid c m users).event_channels ≡ m.event_channels)
        × ((drop_from uid c m users).channels ≡ m.channels)
  drop_from-same uid c m none = (refl, refl)
  drop_from-same uid c m (some users) = (refl, refl)

  pub drop_each-same :
      (uid : ℕ) (cs : List String) (m : Manager E)
      → ((drop_each uid cs m).event_channels ≡ m.event_channels)
        × ((drop_each uid cs m).channels ≡ m.channels)
  unfolding drop_each
  drop_each-same uid [] m = (refl, refl)
  drop_each-same uid (c ∷ cs) m =
      let users = lookup c m.subscriptions in
      let one = drop_from-same uid c m users in
      let rest = drop_each-same uid cs (drop_from uid c m users) in (rest.0 ∙ one.0, rest.1 ∙ one.1)

  IsOpen-drop :
      (uid id : ℕ) (c : String) (cs : List String) (m : Manager E)
      → IsOpen uid c id m
      → IsOpen uid c id (drop_each uid cs m)
  IsOpen-drop uid id c cs m o =
      let (e, f) = drop_each-same uid cs m in record { known = rw e o.known; there = rw f o.there }

  close_each-panics :
      (uid id : ℕ) (a b : String) (rest : List String) (m : Manager E)
      → a ≢ b
      → IsOpen uid a id m
      → IsOpen uid b id m
      → close_each uid (a ∷ b ∷ rest) m ≡ panics
  unfolding close_each close
  close_each-panics uid id a b rest m ne oa ob =
      let kept : lookup (uid, b) (delete (uid, a) m.event_channels) ≡ some id = ground (
        arith,
        ne,
        ob.known,
        slot_eq.beq_iff (uid, a) (uid, b),
        lookup-delete (uid, a) (uid, b) m.event_channels,
      ) in
      rw
        (
          oa.known,
          oa.there,
          kept,
          get_elem?-set_self m.channels id (record new_chan { closed = true }) new_chan oa.there,
        )
        refl

  pub unsubscribe_shared :
      (uid id : ℕ) (a b : String) (rest : List String) (m : Manager E)
      → a ≢ b
      → IsOpen uid a id m
      → IsOpen uid b id m
      → unsubscribe uid (a ∷ b ∷ rest) m ≡ panics
  unfolding unsubscribe
  unsubscribe_shared uid id a b rest m ne oa ob =
      close_each-panics uid id a b rest _ ne (IsOpen-drop uid id a (a ∷ b ∷ rest) m oa)
        (IsOpen-drop uid id b (a ∷ b ∷ rest) m ob)
