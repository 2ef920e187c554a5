-- ===== src/Websocket/Manager/Connections.antt =====
-- internal/websocket/manager.go: the Gateway connections, and what opens and closes them.
use discord_lite_server.Base.{
  ℕ, Bool, false, String, Option, none, some, List, [], ◌∷◌, ◌++◌, nat_eq, if◌then◌else◌,
}
use discord_lite_server.Base.Lists.{length, get_elem?, set}
use discord_lite_server.Base.Assoc.{lookup, insert, delete}
use discord_lite_server.Effect.{
  Env, Action, Result, ok, err, message, wrapped, wrap, attempt, pure, ◌>>=◌, ◌>>◌,
}
use discord_lite_server.Database.Tokens.{get_oauth_token, store_oauth_token}
use discord_lite_server.Auth.Services.{Crypto, Remote, Settings}
use discord_lite_server.Auth.Discord.{Refreshed, refresh_if_needed}
use discord_lite_server.Websocket.Channels
use discord_lite_server.Websocket.Channels.{Chan, Outcome, done, close}
use discord_lite_server.Websocket.Gateway.{
  GatewayConnection, new_gateway_connection, close_connection, is_stale,
}
use discord_lite_server.Websocket.Manager.{Slot, Manager, register}

abbrev pub close_gateway : List GatewayConnection → ℕ → List GatewayConnection
close_gateway heap id = elim (get_elem? heap id) [
  | none ↦ heap
  | some gc ↦ set heap id (close_connection gc)
]

unfoldable pub close_gateways : List (ℕ × ℕ) → List GatewayConnection → List GatewayConnection
close_gateways [] heap = heap
close_gateways ((uid, id) ∷ rest) heap = close_gateways rest (close_gateway heap id)

abbrev pub stale_at : ℕ → ℕ → Option GatewayConnection → Bool
stale_at now stale_duration none = false
stale_at now stale_duration (some gc) = is_stale now stale_duration gc

module _ (env : Env) (remote : Remote) (c : Crypto) (s : Settings) where
  -- A failure to store the refreshed token is logged.
  abbrev pub store_if_refreshed : Refreshed → Action (Unit {0})
  store_if_refreshed r =
      if r.was_refreshed
      then (do attempt (store_oauth_token env r.oauth_token); pure tt)
      else pure tt

  unfoldable pub access_token_of : ℕ → Action String
  access_token_of uid = do
    oauth_token ← wrap "failed to get OAuth token" (get_oauth_token env uid)
    r ← wrap "failed to refresh token" (refresh_if_needed env remote c s oauth_token)
    store_if_refreshed r
    pure r.access_token

module _ {E : Type 0} where
  unfoldable pub disconnect_user : ℕ → Manager E → Result (Unit {0}) × Manager E
  disconnect_user uid m = elim (lookup uid m.connections) [
    | none ↦ (err (message "no connection found for user"), m)
    | some id ↦ (
      ok tt,
      record m { gateways = close_gateway m.gateways id; connections = delete uid m.connections },
    )
  ]

  -- The two counts of GetConnectionStats.
  unfoldable pub get_connection_stats : Manager E → ℕ × ℕ
  get_connection_stats m = (length m.connections, length m.subscriptions)

  unfoldable pub close_channels : List (Slot × ℕ) → List (Chan E) → Outcome (List (Chan E))
  close_channels [] heap = done heap
  close_channels ((slot, id) ∷ rest) heap = Channels.◌>>=◌ (close heap id) (close_channels rest)

  -- The maps keep what is closed.
  unfoldable pub shutdown : Manager E → Outcome (Manager E)
  shutdown m = Channels.◌>>=◌ (close_channels m.event_channels m.channels) (λ heap.
      done (record m { channels = heap; gateways = close_gateways m.connections m.gateways }))

  abbrev pub clean_up_one : ℕ → ℕ → ℕ → ℕ → Manager E → Manager E
  clean_up_one now stale_duration uid id m =
      if stale_at now stale_duration (get_elem? m.gateways id)
      then record m {
        gateways = close_gateway m.gateways id;
        connections = delete uid m.connections;
      }
      else m

  -- Every connection is compared with the same instant.
  unfoldable pub cleanup_each : ℕ → ℕ → List (ℕ × ℕ) → Manager E → Manager E
  cleanup_each now stale_duration [] m = m
  cleanup_each now stale_duration ((uid, id) ∷ rest) m =
      cleanup_each now stale_duration rest (clean_up_one now stale_duration uid id m)

  unfoldable pub cleanup_stale_connections : ℕ → ℕ → Manager E → Manager E
  cleanup_stale_connections now stale_duration m = cleanup_each now stale_duration m.connections m

  -- m.connections.Store of a new connection, whose Connect runs in the background.
  abbrev pub add_gateway : ℕ → String → Manager E → Manager E
  add_gateway uid token m = record m {
    gateways = m.gateways ++ new_gateway_connection uid token ∷ [];
    connections = insert uid (length m.gateways) m.connections;
  }

  -- What Subscribe returns, an error or the new event channel, and the manager that it leaves:
  -- without a connection the registrations stay.
  abbrev pub subscribed : ℕ → Manager E → Result (Manager E) → Result ℕ × Manager E
  subscribed id registered (ok m) = (ok id, m)
  subscribed id registered (err e) =
      (err (wrapped "failed to establish Gateway connection" e), registered)

  module _ (env : Env) (remote : Remote) (c : Crypto) (s : Settings) where
    unfoldable pub ensure_connection : ℕ → Manager E → Action (Manager E)
    ensure_connection uid m = elim (lookup uid m.connections) [
      | some id ↦ pure m
      | none ↦ do token ← access_token_of env remote c s uid; pure (add_gateway uid token m)
    ]

    unfoldable pub subscribe : ℕ → List String → Manager E → Action (Result ℕ × Manager E)
    subscribe uid channel_ids m =
        if m.enabled
        then (do
          r ← attempt (ensure_connection uid (register uid channel_ids m))
          pure (subscribed (length m.channels) (register uid channel_ids m) r))
        else pure (err (message "WebSocket support is not enabled"), m)
