-- ===== src/Database/Reads.antt =====
-- The functions of internal/database that only read move no table.
use discord_lite_server.Base.{ℕ, String, Option}
use discord_lite_server.Models.{CacheType, CacheMetadata, Tables}
use discord_lite_server.Effect.{Env, Result, ok, err}
use discord_lite_server.Effect.Moves.{Order, Moves, moves_rules}
use discord_lite_server.Database.Tokens.{get_oauth_token}
use discord_lite_server.Database.Sessions.{get_auth_session}
use discord_lite_server.Database.Cache.{get_cache_metadata, judge, is_cache_valid}
use discord_lite_server.Database.Guilds.{
  get_guild_by_discord_id, get_guilds_by_user_id, user_has_guild_access,
}
use discord_lite_server.Database.Channels.{
  get_channel_by_discord_id, get_channels_by_discord_guild_id, user_has_channel_access,
}
use discord_lite_server.Database.Messages.{
  get_message_by_discord_id, get_messages_by_channel_id, get_message_attachments_by_message_id,
}

module _ {R : Tables → Tables → Type 0} (o : Order R) (env : Env) where
  pub get_oauth_token-quiet : (uid : ℕ) → Moves R (get_oauth_token env uid)
  unfolding get_oauth_token
  get_oauth_token-quiet uid = search moves_rules

  pub get_auth_session-quiet : (sid : String) → Moves R (get_auth_session env sid)
  unfolding get_auth_session
  get_auth_session-quiet sid = search moves_rules

  pub get_guild_by_discord_id-quiet : (d : String) → Moves R (get_guild_by_discord_id env d)
  unfolding get_guild_by_discord_id
  get_guild_by_discord_id-quiet d = search moves_rules

  pub get_guilds_by_user_id-quiet : (uid : ℕ) → Moves R (get_guilds_by_user_id env uid)
  unfolding get_guilds_by_user_id
  get_guilds_by_user_id-quiet uid = search moves_rules

  pub user_has_guild_access-quiet :
      (uid : ℕ) (d : String) → Moves R (user_has_guild_access env uid d)
  unfolding user_has_guild_access
  user_has_guild_access-quiet uid d = search moves_rules

  pub get_channel_by_discord_id-quiet : (d : String) → Moves R (get_channel_by_discord_id env d)
  unfolding get_channel_by_discord_id
  get_channel_by_discord_id-quiet d = search moves_rules

  pub get_channels_by_discord_guild_id-quiet :
      (d : String) → Moves R (get_channels_by_discord_guild_id env d)
  unfolding get_channels_by_discord_guild_id
  get_channels_by_discord_guild_id-quiet d = search moves_rules

  pub user_has_channel_access-quiet :
      (uid : ℕ) (d : String) → Moves R (user_has_channel_access env uid d)
  unfolding user_has_channel_access
  user_has_channel_access-quiet uid d = search moves_rules

  pub get_message_by_discord_id-quiet : (d : String) → Moves R (get_message_by_discord_id env d)
  unfolding get_message_by_discord_id
  get_message_by_discord_id-quiet d = search moves_rules

  pub get_messages_by_channel_id-quiet :
      (cid limit : ℕ) (before after : String)
      → Moves R (get_messages_by_channel_id env cid limit before after)
  unfolding get_messages_by_channel_id
  get_messages_by_channel_id-quiet cid limit before after = search moves_rules

  pub get_message_attachments_by_message_id-quiet :
      (id : ℕ) → Moves R (get_message_attachments_by_message_id env id)
  unfolding get_message_attachments_by_message_id
  get_message_attachments_by_message_id-quiet id = search moves_rules

  judge-quiet : (r : Result CacheMetadata) → Moves R (judge env r)
  judge-quiet (err e) = search moves_rules
  judge-quiet (ok entry) = search moves_rules

  get_cache_metadata-quiet :
      (kind : CacheType) (entity : String) (uid : Option ℕ)
      → Moves R (get_cache_metadata env kind entity uid)
  unfolding get_cache_metadata
  get_cache_metadata-quiet kind entity uid = search moves_rules

  pub is_cache_valid-quiet :
      (kind : CacheType) (entity : String) (uid : Option ℕ)
      → Moves R (is_cache_valid env kind entity uid)
  unfolding is_cache_valid
  is_cache_valid-quiet kind entity uid = search (moves_rules, judge-quiet, get_cache_metadata-quiet)

pub ruleset read_rules = (
  get_oauth_token-quiet, get_auth_session-quiet, get_guild_by_discord_id-quiet,
  get_guilds_by_user_id-quiet, user_has_guild_access-quiet, get_channel_by_discord_id-quiet,
  get_channels_by_discord_guild_id-quiet, user_has_channel_access-quiet,
  get_message_by_discord_id-quiet, get_messages_by_channel_id-quiet,
  get_message_attachments_by_message_id-quiet, is_cache_valid-quiet,
)
