-- ===== src/Database/Sound/Content.antt =====
-- The statements on guilds, channels and messages keep the invariants of sign-in.
use discord_lite_server.Base.{
  ℕ, Bool, String, Option, List, inl, inr, Option-cases, Bool-cases, ltb,
}
use discord_lite_server.Base.Rows.{find, any}
use discord_lite_server.Models.{
  CacheType, CacheMetadata, Guild, UserGuild, Channel, Message, MessageAttachment, WebSocketSession,
  disconnected, Tables,
}
use discord_lite_server.Effect.{Env, Result, statement}
use discord_lite_server.Effect.Moves.{Invariant, Moves-statement, Moves-wrap, moves_rules}
use discord_lite_server.Database.Sessions.{user_exists}
use discord_lite_server.Database.Cache.{upsert_cache, set_cache_metadata}
use discord_lite_server.Database.Guilds.{
  has_discord_guild_id, is_membership, both_exist, has_guild_id, upsert_guild, insert_membership,
  create_or_update_guild, create_user_guild,
}
use discord_lite_server.Database.Channels.{
  has_discord_channel_id, upsert_channel, create_or_update_channel,
}
use discord_lite_server.Database.Messages.{
  has_discord_message_id, is_attachment, has_message_id, upsert_message, upsert_attachment,
  delete_message_row, create_or_update_message, create_message_attachment, delete_message,
}
use discord_lite_server.Database.Channels.{has_channel_id}
use discord_lite_server.Database.Cascade.{drop_messages}
use discord_lite_server.Database.WebsocketSessions.{
  is_stale, update_websockets, delete_websockets, cleanup_expired_websocket_sessions,
  cleanup_stale_websocket_sessions, websocket_cleanup_tick,
}
use discord_lite_server.Database.Stores.{Stores}
use discord_lite_server.Database.Sound.{IsSound}
use discord_lite_server.Database.Sound.Queries.{KeepsSound, IsSound-order, store_oauth_token_sound}

module _ (t : Tables) (v : IsSound t) where
  -- The tables that sign-in does not use.
  apart :
      (cache : List CacheMetadata) (guilds : List Guild) (links : List UserGuild)
      (channels : List Channel) (messages : List Message) (attachments : List MessageAttachment)
      (sockets : List WebSocketSession) (n1 n2 n3 n4 n5 n6 : ℕ)
      → IsSound (record t {
        cache_metadata = cache;
        guilds = guilds;
        user_guilds = links;
        channels = channels;
        messages = messages;
        message_attachments = attachments;
        websocket_sessions = sockets;
        next_cache = n1;
        next_guild = n2;
        next_user_guild = n3;
        next_channel = n4;
        next_message = n5;
        next_attachment = n6;
      })
  apart cache guilds links channels messages attachments sockets n1 n2 n3 n4 n5 n6 = record {
    sessions_distinct = v.sessions_distinct;
    states_distinct = v.states_distinct;
    users_distinct = v.users_distinct;
    ids_below = v.ids_below;
    tokens_distinct = v.tokens_distinct;
    token_users = v.token_users;
    session_users = v.session_users;
    linked = v.linked;
  }

  upsert_cache-IsSound :
      (kind : CacheType) (entity : String) (uid : Option ℕ) (fetched expires i : ℕ)
      → IsSound (upsert_cache kind entity uid fetched expires i t).1
  unfolding upsert_cache
  upsert_cache-IsSound kind entity uid fetched expires i =
      elim (Bool-cases (user_exists t.users uid)) [
        | inl e ↦ rw (e, upsert_cache) (apart _ _ _ _ _ _ _ _ _ _ _ _ _)
        | inr e ↦ rw (e, upsert_cache) (apart _ _ _ _ _ _ _ _ _ _ _ _ _)
      ]

  upsert_guild-IsSound : (g : Guild) (i : ℕ) → IsSound (upsert_guild g i t).1
  unfolding upsert_guild
  upsert_guild-IsSound g i =
      elim (Option-cases (find (has_discord_guild_id g.discord_guild_id) t.guilds)) [
        | inl e ↦ rw (e, upsert_guild) (apart _ _ _ _ _ _ _ _ _ _ _ _ _)
        | inr (old, e) ↦ rw (e, upsert_guild) (apart _ _ _ _ _ _ _ _ _ _ _ _ _)
      ]

  insert_membership-IsSound : (uid gid i : ℕ) → IsSound (insert_membership uid gid i t).1
  unfolding insert_membership
  insert_membership-IsSound uid gid i =
      elim (Bool-cases (any (is_membership uid gid) t.user_guilds)) [
        | inl e ↦ rw (e, insert_membership) (apart _ _ _ _ _ _ _ _ _ _ _ _ _)
        | inr e ↦ elim (Bool-cases (both_exist uid gid t)) [
          | inl h ↦ rw (e, h, insert_membership) (apart _ _ _ _ _ _ _ _ _ _ _ _ _)
          | inr h ↦ rw (e, h, insert_membership) (apart _ _ _ _ _ _ _ _ _ _ _ _ _)
        ]
      ]

  upsert_channel-IsSound : (c : Channel) (i : ℕ) → IsSound (upsert_channel c i t).1
  unfolding upsert_channel
  upsert_channel-IsSound c i = elim (Bool-cases (any (has_guild_id c.guild_id) t.guilds)) [
    | inr h ↦ rw (h, upsert_channel) (apart _ _ _ _ _ _ _ _ _ _ _ _ _)
    | inl h ↦ elim (Option-cases (find (has_discord_channel_id c.discord_channel_id) t.channels)) [
      | inl e ↦ rw (h, e, upsert_channel) (apart _ _ _ _ _ _ _ _ _ _ _ _ _)
      | inr (old, e) ↦ rw (h, e, upsert_channel) (apart _ _ _ _ _ _ _ _ _ _ _ _ _)
    ]
  ]

  upsert_message-IsSound : (m : Message) (i : ℕ) → IsSound (upsert_message m i t).1
  unfolding upsert_message
  upsert_message-IsSound m i =
      elim (Option-cases (find (has_discord_message_id m.discord_message_id) t.messages)) [
        | inr (old, e) ↦ rw (e, upsert_message) (apart _ _ _ _ _ _ _ _ _ _ _ _ _)
        | inl e ↦ elim (Bool-cases (any (has_channel_id m.channel_id) t.channels)) [
          | inl h ↦ rw (e, h, upsert_message) (apart _ _ _ _ _ _ _ _ _ _ _ _ _)
          | inr h ↦ rw (e, h, upsert_message) (apart _ _ _ _ _ _ _ _ _ _ _ _ _)
        ]
      ]

  upsert_attachment-IsSound : (a : MessageAttachment) (i : ℕ) → IsSound (upsert_attachment a i t).1
  unfolding upsert_attachment
  upsert_attachment-IsSound a i =
      elim (Option-cases
        (find (is_attachment a.message_id a.attachment_id) t.message_attachments)) [
          | inr (old, e) ↦ rw (e, upsert_attachment) (apart _ _ _ _ _ _ _ _ _ _ _ _ _)
          | inl e ↦ elim (Bool-cases (any (has_message_id a.message_id) t.messages)) [
            | inl h ↦ rw (e, h, upsert_attachment) (apart _ _ _ _ _ _ _ _ _ _ _ _ _)
            | inr h ↦ rw (e, h, upsert_attachment) (apart _ _ _ _ _ _ _ _ _ _ _ _ _)
          ]
        ]

  delete_message_row-IsSound : (d : String) (i : ℕ) → IsSound (delete_message_row d i t).1
  unfolding delete_message_row drop_messages
  delete_message_row-IsSound d i = apart _ _ _ _ _ _ _ _ _ _ _ _ _

  delete_websockets-IsSound : (p : WebSocketSession → Bool) → IsSound (delete_websockets p t).1
  unfolding delete_websockets
  delete_websockets-IsSound p = apart _ _ _ _ _ _ _ _ _ _ _ _ _

  update_websockets-IsSound :
      (p : WebSocketSession → Bool) (f : WebSocketSession → WebSocketSession)
      → IsSound (update_websockets p f t).1
  unfolding update_websockets
  update_websockets-IsSound p f = apart _ _ _ _ _ _ _ _ _ _ _ _ _

module _ (env : Env) where
  moved :
      {A : Type 0}
      → (run : ℕ → Tables → Result A × Tables)
      → ((i : ℕ) (t : Tables) → IsSound t → IsSound (run i t).1)
      → KeepsSound (statement env run)
  moved run keep = Moves-statement IsSound-order env run keep

  cache_moved :
      (kind : CacheType) (entity : String) (uid : Option ℕ) (fetched expires : ℕ)
      → KeepsSound (statement env (upsert_cache kind entity uid fetched expires))
  cache_moved kind entity uid fetched expires =
      moved _ (λ i t v. upsert_cache-IsSound t v kind entity uid fetched expires i)

  cache_sound :
      (kind : CacheType) (entity : String) (uid : Option ℕ) (ttl : ℕ)
      → KeepsSound (set_cache_metadata env kind entity uid ttl)
  unfolding set_cache_metadata
  cache_sound kind entity uid ttl = search (moves_rules, IsSound-order, cache_moved)

  message_moved : (d : String) → KeepsSound (statement env (delete_message_row d))
  message_moved d = moved _ (λ i t v. delete_message_row-IsSound t v d i)

  deletion_sound : (d : String) → KeepsSound (delete_message env d)
  unfolding delete_message
  deletion_sound d = search (moves_rules, IsSound-order, message_moved)

  guild_sound : (g : Guild) → KeepsSound (create_or_update_guild env g)
  unfolding create_or_update_guild
  guild_sound g = Moves-wrap _ _ (moved _ (λ i t v. upsert_guild-IsSound t v g i))

  link_sound : (uid gid : ℕ) → KeepsSound (create_user_guild env uid gid)
  unfolding create_user_guild
  link_sound uid gid = Moves-wrap _ _ (moved _ (λ i t v. insert_membership-IsSound t v uid gid i))

  channel_sound : (c : Channel) → KeepsSound (create_or_update_channel env c)
  unfolding create_or_update_channel
  channel_sound c = Moves-wrap _ _ (moved _ (λ i t v. upsert_channel-IsSound t v c i))

  message_sound : (m : Message) → KeepsSound (create_or_update_message env m)
  unfolding create_or_update_message
  message_sound m = Moves-wrap _ _ (moved _ (λ i t v. upsert_message-IsSound t v m i))

  attachment_sound : (a : MessageAttachment) → KeepsSound (create_message_attachment env a)
  unfolding create_message_attachment
  attachment_sound a = Moves-wrap _ _ (moved _ (λ i t v. upsert_attachment-IsSound t v a i))

  pub IsSound-Stores : Stores (Invariant IsSound) env
  IsSound-Stores = record {
    order = IsSound-order;
    token = store_oauth_token_sound env;
    cache = cache_sound;
    guild = guild_sound;
    link = link_sound;
    channel = channel_sound;
    message = message_sound;
    attachment = attachment_sound;
    deletion = deletion_sound;
  }

  sockets_expired :
      KeepsSound (statement env (λ instant. delete_websockets (λ s. ltb s.expires_at instant)))
  sockets_expired = moved _ (λ i t v. delete_websockets-IsSound t v _)

  sockets_stale :
      (threshold : ℕ)
      → KeepsSound (
          statement env (λ time.
            update_websockets
              (is_stale threshold)
              (λ s. record s { status = disconnected; updated_at = time })))
  sockets_stale threshold = moved _ (λ i t v. update_websockets-IsSound t v _ _)

  expired_cleaned : KeepsSound (cleanup_expired_websocket_sessions env)
  unfolding cleanup_expired_websocket_sessions
  expired_cleaned = search (moves_rules, IsSound-order, sockets_expired)

  stale_cleaned : (d : ℕ) → KeepsSound (cleanup_stale_websocket_sessions env d)
  unfolding cleanup_stale_websocket_sessions
  stale_cleaned d = search (moves_rules, IsSound-order, sockets_stale)

  pub websocket_cleanup_tick_sound : KeepsSound (websocket_cleanup_tick env)
  unfolding websocket_cleanup_tick
  websocket_cleanup_tick_sound = search (moves_rules, IsSound-order, expired_cleaned, stale_cleaned)
