-- ===== src/Websocket/Manager.antt =====
-- internal/websocket/manager.go. A sync.Map is an association list; the event channels, a map of
-- maps in the source, have one key of a user and a channel. Channels and connections are shared
-- objects: the maps hold their indices in two heaps.
pub mod Connections
pub mod Sharing
pub mod Delivery
pub mod Staleness
pub mod Subscribed
use discord_lite_server.Base.{
  ℕ, suc, Bool, true, false, ◌&&◌, not, String, Option, none, some, List, [], ◌∷◌, ◌++◌, ◌==◌,
  nat_eq, string_eq, Eq, ◌↔◌, ◌≡◌, arith,
}
use discord_lite_server.Base.Lists.{length}
use discord_lite_server.Base.Rows.{remove}
use discord_lite_server.Base.Assoc.{lookup, insert, delete}
use discord_lite_server.Websocket.Channels.{Chan, Outcome, done, new_chan, send, close, ◌>>=◌}
use discord_lite_server.Websocket.Gateway.{GatewayConnection}

abbrev pub Slot : Type 0
Slot = ℕ × String

abbrev slot_beq : Slot → Slot → Bool
slot_beq (u, c) (v, d) = u == v && c == d

pub slot_beq_iff : (a b : Slot) → (slot_beq a b ≡ true) ↔ (a ≡ b)
slot_beq_iff (u, c) (v, d) = ground (arith, nat_eq.beq_iff u v, string_eq.beq_iff c d)

instance abbrev pub slot_eq : Eq Slot
slot_eq = record { beq = slot_beq; beq_iff = slot_beq_iff }

pub record Manager (E : Type 0) : Type 0 where
  pub enabled : Bool
  pub max_connections_per_user : ℕ
  -- userID -> connection
  pub connections : List (ℕ × ℕ)
  -- channelID -> users
  pub subscriptions : List (String × List ℕ)
  -- userID and channelID -> event channel
  pub event_channels : List (Slot × ℕ)
  pub gateways : List GatewayConnection
  pub channels : List (Chan E)

abbrev pub new_manager : {E : Type 0} → ℕ → Bool → Manager E
new_manager max_connections enabled = record {
  enabled = enabled;
  max_connections_per_user = max_connections;
  connections = [];
  subscriptions = [];
  event_channels = [];
  gateways = [];
  channels = [];
}

-- users[userID] = true, and delete(users, userID)
abbrev pub without : ℕ → List ℕ → List ℕ
without uid users = remove (λ u. u == uid) users

abbrev pub with_user : ℕ → Option (List ℕ) → List ℕ
with_user uid none = uid ∷ []
with_user uid (some users) = uid ∷ without uid users

abbrev users_of : Option (List ℕ) → List ℕ
users_of none = []
users_of (some users) = users

module _ {E : Type 0} where
  abbrev pub subscribe_one : ℕ → ℕ → Manager E → String → Manager E
  subscribe_one uid id m channel_id = record m {
    event_channels = insert (uid, channel_id) id m.event_channels;
    subscriptions =
        insert channel_id (with_user uid (lookup channel_id m.subscriptions)) m.subscriptions;
  }

  unfoldable pub subscribe_each : ℕ → ℕ → List String → Manager E → Manager E
  subscribe_each uid id [] m = m
  subscribe_each uid id (c ∷ cs) m = subscribe_each uid id cs (subscribe_one uid id m c)

  -- The part of Subscribe before the connection: a new event channel, known under every channel.
  unfoldable pub register : ℕ → List String → Manager E → Manager E
  register uid channel_ids m =
      subscribe_each uid (length m.channels) channel_ids
        (record m { channels = m.channels ++ new_chan ∷ [] })

  abbrev pub drop_from : ℕ → String → Manager E → Option (List ℕ) → Manager E
  drop_from uid channel_id m none = m
  drop_from uid channel_id m (some users) = record m {
    subscriptions = elim (without uid users) [
      | [] ↦ delete channel_id m.subscriptions
      | u ∷ us ↦ insert channel_id (u ∷ us) m.subscriptions
    ];
  }

  unfoldable pub drop_each : ℕ → List String → Manager E → Manager E
  drop_each uid [] m = m
  drop_each uid (c ∷ cs) m = drop_each uid cs (drop_from uid c m (lookup c m.subscriptions))

  abbrev pub close_slot : ℕ → String → Manager E → Option ℕ → Outcome (Manager E)
  close_slot uid channel_id m none = done m
  close_slot uid channel_id m (some id) = close m.channels id >>= λ heap.
      done
        (record m { channels = heap; event_channels = delete (uid, channel_id) m.event_channels })

  unfoldable pub close_each : ℕ → List String → Manager E → Outcome (Manager E)
  close_each uid [] m = done m
  close_each uid (c ∷ cs) m =
      close_slot uid c m (lookup (uid, c) m.event_channels) >>= λ m'. close_each uid cs m'

  unfoldable pub unsubscribe : ℕ → List String → Manager E → Outcome (Manager E)
  unsubscribe uid channel_ids m = close_each uid channel_ids (drop_each uid channel_ids m)

  abbrev pub send_slot : Manager E → E → Option ℕ → Outcome (Manager E)
  send_slot m event none = done m
  send_slot m event (some id) =
      send m.channels id event >>= λ heap. done (record m { channels = heap })

  unfoldable pub broadcast_each : String → E → List ℕ → Manager E → Outcome (Manager E)
  broadcast_each channel_id event [] m = done m
  broadcast_each channel_id event (u ∷ us) m =
      send_slot m event (lookup (u, channel_id) m.event_channels) >>= λ m'.
      broadcast_each channel_id event us m'

  unfoldable pub broadcast_event : String → E → Manager E → Outcome (Manager E)
  broadcast_event channel_id event m =
      broadcast_each channel_id event (users_of (lookup channel_id m.subscriptions)) m
