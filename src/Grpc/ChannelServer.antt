-- ===== src/Grpc/ChannelServer.antt =====
-- internal/grpc/channel_service.go.
pub mod Writes
pub mod Linked
use discord_lite_server.Base.{
  ℕ, ◌%◌, Bool, true, false, String, Option, none, some, List, [], ◌∷◌, map, if◌then◌else◌,
}
use discord_lite_server.Models.{Guild, Channel, null_string, string_or_empty}
use discord_lite_server.Effect.{
  Env, Action, Result, ok, err, status, permission_denied, internal, raise, pure, or_return,
  attempt, ◌>>=◌, ◌>>◌,
}
use discord_lite_server.Database.Guilds.{
  create_or_update_guild, create_user_guild, get_guilds_by_user_id, get_guild_by_discord_id,
  user_has_guild_access,
}
use discord_lite_server.Database.Channels.{
  create_or_update_channel, get_channels_by_discord_guild_id,
}
use discord_lite_server.Auth.Services.{Crypto, Remote, Settings}
use discord_lite_server.Auth.Api.{
  DiscordGuild, DiscordChannel, Api, get_user_guilds, get_guild_channels,
}
use discord_lite_server.Grpc.CacheManager.{
  check_guild_cache, set_guild_cache, check_channel_cache, set_channel_cache,
}
use discord_lite_server.Grpc.Proto.{to_int32}
use discord_lite_server.Grpc.Session.{require, session_user, fresh_token, is_hit, rows_of, prepend}

pub record ProtoGuild : Type 0 where
  pub discord_guild_id : String
  pub name : String
  pub icon : String
  pub owner : Bool
  pub permissions : ℕ
  pub features : List String

pub record ProtoChannel : Type 0 where
  pub discord_channel_id : String
  pub guild_id : String
  pub name : String
  pub kind : ℕ
  pub position : ℕ
  pub parent_id : String
  pub topic : String
  pub nsfw : Bool
  pub last_message_id : String

pub record GetGuildsRequest : Type 0 where
  pub session_id : String
  pub force_refresh : Bool

pub record GetGuildsResponse : Type 0 where
  pub guilds : List ProtoGuild
  pub from_cache : Bool

pub record GetChannelsRequest : Type 0 where
  pub session_id : String
  pub guild_id : String
  pub force_refresh : Bool

pub record GetChannelsResponse : Type 0 where
  pub channels : List ProtoChannel
  pub from_cache : Bool

abbrev pub convert_guild : Guild → ProtoGuild
convert_guild g = record {
  discord_guild_id = g.discord_guild_id;
  name = g.name;
  icon = string_or_empty g.icon;
  owner = false;
  permissions = g.permissions;
  features = g.features;
}

-- The id of the guild is the one of the table.
abbrev pub convert_channel : Api → Channel → ProtoChannel
convert_channel api c = record {
  discord_channel_id = c.discord_channel_id;
  guild_id = api.itoa c.guild_id;
  name = c.name;
  kind = to_int32 c.kind;
  position = to_int32 c.position;
  parent_id = string_or_empty c.parent_id;
  topic = string_or_empty c.topic;
  nsfw = c.nsfw;
  last_message_id = string_or_empty c.last_message_id;
}

abbrev pub guilds_response : Bool → List Guild → GetGuildsResponse
guilds_response cached gs = record { guilds = map convert_guild gs; from_cache = cached }

abbrev pub channels_response : Api → Bool → List Channel → GetChannelsResponse
channels_response api cached cs = record {
  channels = map (convert_channel api) cs;
  from_cache = cached;
}

-- The rows that CreateOrUpdateGuild and CreateOrUpdateChannel are given.
abbrev pub guild_row : Api → DiscordGuild → Guild
guild_row api d = record {
  id = 0;
  discord_guild_id = d.id;
  name = d.name;
  icon = null_string d.icon;
  owner_id = none;
  permissions = api.parse_int d.permissions;
  features = d.features;
  created_at = 0;
  updated_at = 0;
}

abbrev pub channel_row : ℕ → DiscordChannel → Channel
channel_row gid d = record {
  id = 0;
  discord_channel_id = d.id;
  guild_id = gid;
  name = d.name;
  kind = d.kind;
  position = d.position;
  parent_id = null_string d.parent_id;
  topic = null_string d.topic;
  nsfw = d.nsfw;
  last_message_id = null_string d.last_message_id;
  created_at = 0;
  updated_at = 0;
}

module _ (env : Env) (remote : Remote) (api : Api) where
  -- A guild that cannot be stored is left out; a link that cannot be stored is logged.
  abbrev pub link_user : ℕ → Result Guild → Action (Option Guild)
  link_user uid (err e) = pure none
  link_user uid (ok g) = do attempt (create_user_guild env uid g.id); pure (some g)

  unfoldable pub store_guild : ℕ → DiscordGuild → Action (Option Guild)
  store_guild uid d = do r ← attempt (create_or_update_guild env (guild_row api d)); link_user uid r

  unfoldable pub store_guilds : ℕ → List DiscordGuild → Action (List Guild)
  store_guilds uid [] = pure []
  store_guilds uid (d ∷ ds) = do
    g ← store_guild uid d
    gs ← store_guilds uid ds
    pure (prepend g gs)

  abbrev pub kept_channel : Result Channel → Option Channel
  kept_channel (err e) = none
  kept_channel (ok c) = some c

  unfoldable pub store_channels : ℕ → List DiscordChannel → Action (List Channel)
  store_channels gid [] = pure []
  store_channels gid (d ∷ ds) = do
    r ← attempt (create_or_update_channel env (channel_row gid d))
    cs ← store_channels gid ds
    pure (prepend (kept_channel r) cs)

  -- The rows that a valid cache entry lets the server answer with.
  unfoldable pub cached_guilds : ℕ → Action (List Guild)
  cached_guilds uid = do
    valid ← attempt (check_guild_cache env uid)
    if is_hit valid
        then (do rows ← attempt (get_guilds_by_user_id env uid); pure (rows_of rows))
        else pure []

  unfoldable pub cached_channels : String → ℕ → Action (List Channel)
  cached_channels guild_id uid = do
    valid ← attempt (check_channel_cache env guild_id uid)
    if is_hit valid
        then (do
          rows ← attempt (get_channels_by_discord_guild_id env guild_id)
          pure (rows_of rows))
        else pure []

  unfoldable pub fetch_channels : String → ℕ → Action GetChannelsResponse
  fetch_channels guild_id uid = do
    fetched ←
        or_return (status internal "failed to fetch channels from Discord API")
          (get_guild_channels remote api guild_id)
    g ←
        or_return (status internal "guild not found in database")
          (get_guild_by_discord_id env guild_id)
    stored ← store_channels g.id fetched
    attempt (set_channel_cache env guild_id uid)
    pure (channels_response api false stored)

  abbrev pub answer_channels : String → ℕ → List Channel → Action GetChannelsResponse
  answer_channels guild_id uid [] = fetch_channels guild_id uid
  answer_channels guild_id uid (c ∷ cs) = pure (channels_response api true (c ∷ cs))

  unfoldable pub get_channels : GetChannelsRequest → Action GetChannelsResponse
  get_channels req = do
    uid ← session_user env req.session_id
    has_access ←
        or_return (status internal "failed to verify guild access")
          (user_has_guild_access env uid req.guild_id)
    require has_access (raise (status permission_denied "you don't have access to this guild"))
    rows ← if req.force_refresh then pure [] else cached_channels req.guild_id uid
    answer_channels req.guild_id uid rows

  module _ (c : Crypto) (s : Settings) where
    unfoldable pub fetch_guilds : ℕ → Action GetGuildsResponse
    fetch_guilds uid = do
      access_token ← fresh_token env remote c s uid
      fetched ←
          or_return (status internal "failed to fetch guilds from Discord API")
            (get_user_guilds remote api access_token)
      stored ← store_guilds uid fetched
      attempt (set_guild_cache env uid)
      pure (guilds_response false stored)

    abbrev pub answer_guilds : ℕ → List Guild → Action GetGuildsResponse
    answer_guilds uid [] = fetch_guilds uid
    answer_guilds uid (g ∷ gs) = pure (guilds_response true (g ∷ gs))

    unfoldable pub get_guilds : GetGuildsRequest → Action GetGuildsResponse
    get_guilds req = do
      uid ← session_user env req.session_id
      rows ← if req.force_refresh then pure [] else cached_guilds uid
      answer_guilds uid rows
