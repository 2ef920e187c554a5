-- ===== src/Tests/Sockets.antt =====
-- Subscriptions of one channel and of two.
use discord_lite_server.Base.{
  ℕ, nat_eq, String, [], ◌∷◌, some, none, true, ◌≡◌, ◌≢◌, refl, arith, string_eq,
}
use discord_lite_server.Base.Lists.{length, take, get_elem?}
use discord_lite_server.Base.Assoc.{lookup}
use discord_lite_server.Websocket.Channels.{done, panics, ◌>>=◌}
use discord_lite_server.Websocket.Manager.{
  Manager, new_manager, register, subscribe_each, unsubscribe,
}
use discord_lite_server.Websocket.Manager.Subscribed.{unsubscribe-subscribe}
use discord_lite_server.Websocket.Manager.Connections.{
  cleanup_stale_connections, add_gateway, access_token_of, ensure_connection, subscribe,
}
use discord_lite_server.Models.{migrated}
use discord_lite_server.Effect.{World, ok, statement, query, now}
use discord_lite_server.Effect
use discord_lite_server.Base.Rows.{find, All}
use discord_lite_server.Database.Tokens.{get_oauth_token}
use discord_lite_server.Auth.Cipher.{decrypt_token}
use discord_lite_server.Auth.Discord.{refresh_if_needed, reuse}
use discord_lite_server.Tests.Services.{env, remote, crypto, settings}
use discord_lite_server.Websocket.Gateway.{GatewayConnection, new_gateway_connection}
use discord_lite_server.Websocket.Manager.Staleness.{
  IsRecent, Holds, cleanup_stale_connections-AllFresh,
}
use discord_lite_server.Websocket.Manager.Delivery.{broadcast_all, subscription_of_one}

abbrev fresh : Manager String
fresh = new_manager 5 true

different : ◌≢◌ {A = String} "general" "random"
different e = ground (arith, (string_eq.beq_iff "general" "random").1 e)

-- The user 1 has a token, twelve zeros of the nonce and the code of "!", that does not expire soon.
abbrev known : World
known = record {
  tables = record migrated {
    oauth_tokens =
        record {
          id = 1;
          user_id = 1;
          access_token = ",,,,,,,,,,,,IIIIIIIIIIIIIIIIIIIIIIIIIIIIIIIII,";
          refresh_token = "";
          token_type = "Bearer";
          expiry = 1000000000000;
          scope = "identify";
          created_at = 0;
          updated_at = 0;
        }
        ∷ [];
  };
  step = 0;
}

abbrev connected : Manager String
connected = add_gateway 1 "!" (register 1 ("general" ∷ "random" ∷ []) fresh)

abbrev after : World
after = (subscribe env remote crypto settings 1 ("general" ∷ "random" ∷ []) fresh known).1

subscribes :
    subscribe env remote crypto settings 1 ("general" ∷ "random" ∷ []) fresh known
    ≡ (ok (ok 0, connected), after)
unfolding subscribe ensure_connection access_token_of get_oauth_token refresh_if_needed reuse
    decrypt_token register subscribe_each statement query now find lookup Effect.◌>>=◌
subscribes = refl

unsubscribe-subscribe_example : unsubscribe 1 ("general" ∷ "random" ∷ []) connected ≡ panics
unsubscribe-subscribe_example =
    unsubscribe-subscribe env remote crypto settings 1 "general" "random" [] fresh connected (ok 0)
      known after refl different subscribes

no_subscriber : lookup "general" fresh.subscriptions ≡ none
unfolding lookup
no_subscriber = refl

subscription_of_one_example :
    (m' : Manager String) × (broadcast_all "general"
          ("hello" ∷ "bye" ∷ [])
          (register 1 ("general" ∷ []) fresh)
        >>= unsubscribe 1 ("general" ∷ [])
      ≡ done m')
    × (get_elem? m'.channels (length fresh.channels)
        ≡ some (record { buffer = take 100 ("hello" ∷ "bye" ∷ []); closed = true }))
subscription_of_one_example =
    subscription_of_one 1 "general" ("hello" ∷ "bye" ∷ []) fresh no_subscriber

-- Of two connections, the one of user 1 had its last heartbeat at 500 and the other had none.
abbrev beating : GatewayConnection
beating = record (new_gateway_connection 1 "!") { last_heartbeat_at = 500 }

abbrev two_connections : Manager String
two_connections = record fresh {
  connections = (1, 0) ∷ (2, 1) ∷ [];
  gateways = beating ∷ new_gateway_connection 2 "?" ∷ [];
}

one_of_user : lookup 1 two_connections.connections ≡ some 0
unfolding lookup
one_of_user = refl

other_user : ◌≢◌ {A = ℕ} 2 1
other_user e = omega (arith, e)

-- At the instant 1000, with a duration of 900.
cleanup_stale_connections-AllFresh_example :
    All
      (λ e.
        IsRecent 1000 900
          (get_elem? (cleanup_stale_connections 1000 900 two_connections).gateways e.1))
      (cleanup_stale_connections 1000 900 two_connections).connections
    × Holds 1000 900 1 0 beating (cleanup_stale_connections 1000 900 two_connections)
unfolding get_elem?
cleanup_stale_connections-AllFresh_example =
    cleanup_stale_connections-AllFresh 1000 900 two_connections 1 0 beating (omega arith)
      (λ e. refl, (λ e. absurd (other_user e), tt)) one_of_user refl (omega arith)
