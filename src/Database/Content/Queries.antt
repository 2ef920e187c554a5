-- ===== src/Database/Content/Queries.antt =====
-- The functions of internal/database keep the invariants of the content, whatever the database
-- and the clock do.
use discord_lite_server.Base.{
  ℕ, refl, String, Option, List, inl, inr, Option-cases, Bool-cases, ltb,
}
use discord_lite_server.Base.Rows.{find}
use discord_lite_server.Models.{
  OauthToken, CacheType, CacheMetadata, Guild, Channel, Message, MessageAttachment,
  WebSocketSession, disconnected, Tables,
}
use discord_lite_server.Effect.{Env, Action, statement}
use discord_lite_server.Effect.Moves.{
  Order, Moves, Invariant, Invariant-Order, Moves-statement, moves_rules,
}
use discord_lite_server.Database.Users.{has_user_id}
use discord_lite_server.Database.Tokens.{is_token_of, upsert_token, store_oauth_token}
use discord_lite_server.Database.Sessions.{user_exists}
use discord_lite_server.Database.Cache.{upsert_cache, set_cache_metadata}
use discord_lite_server.Database.Guilds.{
  upsert_guild, insert_membership, delete_membership, delete_guild_row, create_or_update_guild,
  create_user_guild, delete_user_guild, delete_guild,
}
use discord_lite_server.Database.Channels.{
  upsert_channel, delete_channel_row, create_or_update_channel, delete_channel,
}
use discord_lite_server.Database.Messages.{
  upsert_message, upsert_attachment, delete_message_row, create_or_update_message,
  create_message_attachment, delete_message,
}
use discord_lite_server.Database.WebsocketSessions.{
  is_stale, upsert_websocket, update_websockets, delete_websockets, create_websocket_session,
  cleanup_expired_websocket_sessions, cleanup_stale_websocket_sessions, websocket_cleanup_tick,
}
use discord_lite_server.Database.Stores.{Stores}
use discord_lite_server.Database.Content.{IsContentSound}
use discord_lite_server.Database.Content.Guilds.{
  upsert_guild-IsContentSound, insert_membership-IsContentSound,
}
use discord_lite_server.Database.Content.Channels.{upsert_channel-IsContentSound}
use discord_lite_server.Database.Content.Messages.{
  upsert_message-IsContentSound, upsert_attachment-IsContentSound,
}
use discord_lite_server.Database.Content.Sockets.{
  upsert_websocket-IsContentSound, update_websockets-IsContentSound,
}
use discord_lite_server.Database.Content.Deletes.{
  drop_messages-IsContentSound, drop_channels-IsContentSound, drop_guilds-IsContentSound,
  delete_membership-IsContentSound, delete_websockets-IsContentSound,
}

abbrev pub KeepsContent : {A : Type 0} → Action A → Type 0
KeepsContent = Moves (Invariant IsContentSound)

pub content_order : Order (Invariant IsContentSound)
content_order = Invariant-Order IsContentSound

-- What does not touch the users and the content.
elsewhere :
    (t : Tables) (tokens : List OauthToken) (cache : List CacheMetadata) (next_token next_cache : ℕ)
    → IsContentSound t
    → IsContentSound (record t {
      oauth_tokens = tokens;
      cache_metadata = cache;
      next_token = next_token;
      next_cache = next_cache;
    })
elsewhere t tokens cache next_token next_cache v = record {
  guild_table = v.guild_table;
  channel_table = v.channel_table;
  message_table = v.message_table;
  socket_table = v.socket_table;
  link_users = v.link_users;
  link_guilds = v.link_guilds;
  channel_guilds = v.channel_guilds;
  message_channels = v.message_channels;
  attachment_messages = v.attachment_messages;
  socket_users = v.socket_users;
}

upsert_token-content :
    (k : OauthToken) (i : ℕ) (t : Tables) → IsContentSound t → IsContentSound (upsert_token k i t).1
unfolding upsert_token
upsert_token-content k i t v = elim (Option-cases (find (has_user_id k.user_id) t.users)) [
  | inl e ↦ rw (e, upsert_token) (elsewhere t _ _ _ _ v)
  | inr (u, e) ↦ elim (Option-cases (find (is_token_of k.user_id) t.oauth_tokens)) [
    | inl k' ↦ rw (e, k', upsert_token) (elsewhere t _ _ _ _ v)
    | inr (old, k') ↦ rw (e, k', upsert_token) (elsewhere t _ _ _ _ v)
  ]
]

upsert_cache-content :
    (kind : CacheType) (entity : String) (uid : Option ℕ) (fetched expires i : ℕ) (t : Tables)
    → IsContentSound t
    → IsContentSound (upsert_cache kind entity uid fetched expires i t).1
unfolding upsert_cache
upsert_cache-content kind entity uid fetched expires i t v =
    elim (Bool-cases (user_exists t.users uid)) [
      | inl e ↦ rw (e, upsert_cache) (elsewhere t _ _ _ _ v)
      | inr e ↦ rw (e, upsert_cache) (elsewhere t _ _ _ _ v)
    ]

module _ (env : Env) where
  token_stored : (k : OauthToken) → KeepsContent (statement env (upsert_token k))
  token_stored k = Moves-statement content_order env _ (λ i t v. upsert_token-content k i t v)

  pub store_oauth_token_content : (k : OauthToken) → KeepsContent (store_oauth_token env k)
  unfolding store_oauth_token
  store_oauth_token_content k = search (moves_rules, token_stored)

  cache_stored :
      (kind : CacheType) (entity : String) (uid : Option ℕ) (fetched expires : ℕ)
      → KeepsContent (statement env (upsert_cache kind entity uid fetched expires))
  cache_stored kind entity uid fetched expires =
      Moves-statement content_order env _
        (λ i t v. upsert_cache-content kind entity uid fetched expires i t v)

  pub set_cache_metadata_content :
      (kind : CacheType) (entity : String) (uid : Option ℕ) (ttl : ℕ)
      → KeepsContent (set_cache_metadata env kind entity uid ttl)
  unfolding set_cache_metadata
  set_cache_metadata_content kind entity uid ttl = search (moves_rules, content_order, cache_stored)

  guild_stored : (g : Guild) → KeepsContent (statement env (upsert_guild g))
  guild_stored g =
      Moves-statement content_order env _ (λ i t v. upsert_guild-IsContentSound t v i g)

  pub create_or_update_guild_content : (g : Guild) → KeepsContent (create_or_update_guild env g)
  unfolding create_or_update_guild
  create_or_update_guild_content g = search (moves_rules, guild_stored)

  link_stored : (uid gid : ℕ) → KeepsContent (statement env (insert_membership uid gid))
  link_stored uid gid =
      Moves-statement content_order env _ (λ i t v. insert_membership-IsContentSound t v i uid gid)

  pub create_user_guild_content : (uid gid : ℕ) → KeepsContent (create_user_guild env uid gid)
  unfolding create_user_guild
  create_user_guild_content uid gid = search (moves_rules, link_stored)

  link_deleted : (uid gid : ℕ) → KeepsContent (statement env (delete_membership uid gid))
  link_deleted uid gid =
      Moves-statement content_order env _ (λ i t v. delete_membership-IsContentSound t v uid gid i)

  pub delete_user_guild_content : (uid gid : ℕ) → KeepsContent (delete_user_guild env uid gid)
  unfolding delete_user_guild
  delete_user_guild_content uid gid = search (moves_rules, content_order, link_deleted)

  guild_deleted : (id : ℕ) → KeepsContent (statement env (delete_guild_row id))
  unfolding delete_guild_row
  guild_deleted id = Moves-statement content_order env _ (λ i t v. drop_guilds-IsContentSound t v _)

  pub delete_guild_content : (id : ℕ) → KeepsContent (delete_guild env id)
  unfolding delete_guild
  delete_guild_content id = search (moves_rules, content_order, guild_deleted)

  channel_stored : (c : Channel) → KeepsContent (statement env (upsert_channel c))
  channel_stored c =
      Moves-statement content_order env _ (λ i t v. upsert_channel-IsContentSound t v i c)

  pub create_or_update_channel_content :
      (c : Channel) → KeepsContent (create_or_update_channel env c)
  unfolding create_or_update_channel
  create_or_update_channel_content c = search (moves_rules, channel_stored)

  channel_deleted : (id : ℕ) → KeepsContent (statement env (delete_channel_row id))
  unfolding delete_channel_row
  channel_deleted id =
      Moves-statement content_order env _ (λ i t v. drop_channels-IsContentSound t v _)

  pub delete_channel_content : (id : ℕ) → KeepsContent (delete_channel env id)
  unfolding delete_channel
  delete_channel_content id = search (moves_rules, content_order, channel_deleted)

  message_stored : (m : Message) → KeepsContent (statement env (upsert_message m))
  message_stored m =
      Moves-statement content_order env _ (λ i t v. upsert_message-IsContentSound t v i m)

  pub create_or_update_message_content :
      (m : Message) → KeepsContent (create_or_update_message env m)
  unfolding create_or_update_message
  create_or_update_message_content m = search (moves_rules, message_stored)

  attachment_stored : (a : MessageAttachment) → KeepsContent (statement env (upsert_attachment a))
  attachment_stored a =
      Moves-statement content_order env _ (λ i t v. upsert_attachment-IsContentSound t v i a)

  pub create_message_attachment_content :
      (a : MessageAttachment) → KeepsContent (create_message_attachment env a)
  unfolding create_message_attachment
  create_message_attachment_content a = search (moves_rules, attachment_stored)

  message_deleted : (d : String) → KeepsContent (statement env (delete_message_row d))
  unfolding delete_message_row
  message_deleted d =
      Moves-statement content_order env _ (λ i t v. drop_messages-IsContentSound t v _)

  pub delete_message_content : (d : String) → KeepsContent (delete_message env d)
  unfolding delete_message
  delete_message_content d = search (moves_rules, content_order, message_deleted)

  socket_stored : (s : WebSocketSession) → KeepsContent (statement env (upsert_websocket s))
  socket_stored s =
      Moves-statement content_order env _ (λ i t v. upsert_websocket-IsContentSound t v s i)

  pub create_websocket_session_content :
      (s : WebSocketSession) → KeepsContent (create_websocket_session env s)
  unfolding create_websocket_session
  create_websocket_session_content s = search (moves_rules, socket_stored)

  sockets_expired :
      KeepsContent (statement env (λ instant. delete_websockets (λ s. ltb s.expires_at instant)))
  sockets_expired =
      Moves-statement content_order env _ (λ i t v. delete_websockets-IsContentSound t v _)

  pub cleanup_expired_websocket_sessions_content :
      KeepsContent (cleanup_expired_websocket_sessions env)
  unfolding cleanup_expired_websocket_sessions
  cleanup_expired_websocket_sessions_content = search (moves_rules, content_order, sockets_expired)

  sockets_stale :
      (threshold : ℕ)
      → KeepsContent (
          statement env (λ time.
            update_websockets
              (is_stale threshold)
              (λ s. record s { status = disconnected; updated_at = time })))
  sockets_stale threshold =
      Moves-statement content_order env _
        (λ i t v. update_websockets-IsContentSound t v _ _ (λ s. refl) (λ s. refl) (λ s. refl))

  pub cleanup_stale_websocket_sessions_content :
      (d : ℕ) → KeepsContent (cleanup_stale_websocket_sessions env d)
  unfolding cleanup_stale_websocket_sessions
  cleanup_stale_websocket_sessions_content d = search (moves_rules, content_order, sockets_stale)

  pub websocket_cleanup_tick_content : KeepsContent (websocket_cleanup_tick env)
  unfolding websocket_cleanup_tick
  websocket_cleanup_tick_content = search (
    moves_rules, content_order, cleanup_expired_websocket_sessions_content,
    cleanup_stale_websocket_sessions_content,
  )

  pub content-Stores : Stores (Invariant IsContentSound) env
  content-Stores = record {
    order = content_order;
    token = store_oauth_token_content;
    cache = set_cache_metadata_content;
    guild = create_or_update_guild_content;
    link = create_user_guild_content;
    channel = create_or_update_channel_content;
    message = create_or_update_message_content;
    attachment = create_message_attachment_content;
    deletion = delete_message_content;
  }

pub ruleset content_rules = (
  moves_rules, content_order, store_oauth_token_content, set_cache_metadata_content,
  create_or_update_guild_content, create_user_guild_content, delete_user_guild_content,
  delete_guild_content, create_or_update_channel_content, delete_channel_content,
  create_or_update_message_content, create_message_attachment_content, delete_message_content,
  create_websocket_session_content, websocket_cleanup_tick_content,
)
