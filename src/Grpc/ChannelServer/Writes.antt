-- ===== src/Grpc/ChannelServer/Writes.antt =====
-- GetGuilds and GetChannels move the tables along what their writes move them along.
use discord_lite_server.Base.{ℕ, Bool, true, false, String, List, [], ◌∷◌}
use discord_lite_server.Models.{Guild, Channel, Tables}
use discord_lite_server.Effect.{Env, Action, Result, ok, err}
use discord_lite_server.Effect.Moves.{Order, Moves, Moves-bind, moves_rules}
use discord_lite_server.Database.Reads.{read_rules}
use discord_lite_server.Database.Stores.{Stores, store_rules}
use discord_lite_server.Auth.Services.{Crypto, Remote, Settings}
use discord_lite_server.Auth.Quiet.{quiet_rules}
use discord_lite_server.Auth.Api.{
  DiscordGuild, DiscordChannel, Api, make_api_request, make_api_request_with_bot, get_user_guilds,
  get_guild_channels, get_channel_messages,
}
use discord_lite_server.Grpc.CacheManager.{
  check_guild_cache, set_guild_cache, check_channel_cache, set_channel_cache, check_message_cache,
}
use discord_lite_server.Websocket.Manager.Connections.{store_if_refreshed}
use discord_lite_server.Auth.Discord.{Refreshed}
use discord_lite_server.Grpc.Session.{require, session_user, fresh_token}
use discord_lite_server.Grpc.ChannelServer.{
  GetGuildsRequest, GetChannelsRequest, link_user, store_guild, store_guilds, store_channels,
  cached_guilds, cached_channels, fetch_channels, answer_channels, get_channels, fetch_guilds,
  answer_guilds, get_guilds,
}

-- Requests to the API move no table.
module _ {R : Tables → Tables → Type 0} (o : Order R) where
  pub require-quiet : (b : Bool) (m : Action (Unit {0})) → Moves R m → Moves R (require b m)
  require-quiet true m k = search (moves_rules, o)
  require-quiet false m k = k

  pub session_user-quiet : (env : Env) (sid : String) → Moves R (session_user env sid)
  unfolding session_user
  session_user-quiet env sid = search (moves_rules, read_rules, require-quiet) depth 8

  make_api_request-quiet :
      (r : Remote) (api : Api) (endpoint token : String)
      → Moves R (make_api_request r api endpoint token)
  unfolding make_api_request
  make_api_request-quiet r api endpoint token = search (moves_rules, quiet_rules)

  make_api_request_with_bot-quiet :
      (r : Remote) (api : Api) (endpoint : String)
      → Moves R (make_api_request_with_bot r api endpoint)
  unfolding make_api_request_with_bot
  make_api_request_with_bot-quiet r api endpoint = search (moves_rules, quiet_rules) depth 8

  pub get_user_guilds-quiet :
      (r : Remote) (api : Api) (token : String) → Moves R (get_user_guilds r api token)
  unfolding get_user_guilds
  get_user_guilds-quiet r api token = search (moves_rules, make_api_request-quiet)

  pub get_guild_channels-quiet :
      (r : Remote) (api : Api) (guild_id : String) → Moves R (get_guild_channels r api guild_id)
  unfolding get_guild_channels
  get_guild_channels-quiet r api guild_id = search (moves_rules, make_api_request_with_bot-quiet)

  pub get_channel_messages-quiet :
      (r : Remote) (api : Api) (token channel_id : String) (limit : ℕ) (before after : String)
      → Moves R (get_channel_messages r api token channel_id limit before after)
  unfolding get_channel_messages
  get_channel_messages-quiet r api token channel_id limit before after =
      search (moves_rules, make_api_request-quiet)

  pub check_guild_cache-quiet : (env : Env) (uid : ℕ) → Moves R (check_guild_cache env uid)
  unfolding check_guild_cache
  check_guild_cache-quiet env uid = search (moves_rules, read_rules)

  pub check_channel_cache-quiet :
      (env : Env) (guild_id : String) (uid : ℕ) → Moves R (check_channel_cache env guild_id uid)
  unfolding check_channel_cache
  check_channel_cache-quiet env guild_id uid = search (moves_rules, read_rules)

  pub check_message_cache-quiet :
      (env : Env) (channel_id : String) (uid : ℕ) → Moves R (check_message_cache env channel_id uid)
  unfolding check_message_cache
  check_message_cache-quiet env channel_id uid = search (moves_rules, read_rules)

pub ruleset service_rules = (
  quiet_rules, read_rules, require-quiet, session_user-quiet, get_user_guilds-quiet,
  get_guild_channels-quiet, get_channel_messages-quiet, check_guild_cache-quiet,
  check_channel_cache-quiet, check_message_cache-quiet,
)

module _ {R : Tables → Tables → Type 0} (env : Env) (st : Stores R env) (remote : Remote)
    (c : Crypto) (s : Settings) where
  store_if_refreshed_moves : (r : Refreshed) → Moves R (store_if_refreshed env remote c s r)
  store_if_refreshed_moves r = search (store_rules, st.order)

  pub fresh_token_moves : (uid : ℕ) → Moves R (fresh_token env remote c s uid)
  unfolding fresh_token
  fresh_token_moves uid =
      search (store_rules, st.order, service_rules, store_if_refreshed_moves) depth 8

module _ {R : Tables → Tables → Type 0} (env : Env) (st : Stores R env) (remote : Remote)
    (api : Api) where
  link_user_moves : (uid : ℕ) (r : Result Guild) → Moves R (link_user env remote api uid r)
  link_user_moves uid (err e) = search (store_rules, st.order)
  link_user_moves uid (ok g) = search (store_rules, st.order)

  store_guild_moves : (uid : ℕ) (d : DiscordGuild) → Moves R (store_guild env remote api uid d)
  unfolding store_guild
  store_guild_moves uid d = search (store_rules, st.order, link_user_moves)

  store_guilds_moves :
      (uid : ℕ) (ds : List DiscordGuild) → Moves R (store_guilds env remote api uid ds)
  unfolding store_guilds
  store_guilds_moves uid [] = search (store_rules, st.order)
  store_guilds_moves uid (d ∷ ds) =
      Moves-bind st.order _ _ (store_guild_moves uid d) λ g.
        Moves-bind st.order _ _ (store_guilds_moves uid ds) λ gs. search (store_rules, st.order)

  store_channels_moves :
      (gid : ℕ) (ds : List DiscordChannel) → Moves R (store_channels env remote api gid ds)
  unfolding store_channels
  store_channels_moves gid [] = search (store_rules, st.order)
  store_channels_moves gid (d ∷ ds) = Moves-bind st.order _ _ (search store_rules) λ r.
      Moves-bind st.order _ _ (store_channels_moves gid ds) λ cs. search (store_rules, st.order)

  cached_channels_moves :
      (guild_id : String) (uid : ℕ) → Moves R (cached_channels env remote api guild_id uid)
  unfolding cached_channels
  cached_channels_moves guild_id uid = search (store_rules, st.order, service_rules) depth 8

  set_channel_cache_moves :
      (guild_id : String) (uid : ℕ) → Moves R (set_channel_cache env guild_id uid)
  unfolding set_channel_cache
  set_channel_cache_moves guild_id uid = search store_rules

  fetch_channels_moves :
      (guild_id : String) (uid : ℕ) → Moves R (fetch_channels env remote api guild_id uid)
  unfolding fetch_channels
  fetch_channels_moves guild_id uid =
      search (store_rules, st.order, service_rules, store_channels_moves, set_channel_cache_moves)
        depth 10

  answer_channels_moves :
      (guild_id : String) (uid : ℕ) (cs : List Channel)
      → Moves R (answer_channels env remote api guild_id uid cs)
  answer_channels_moves guild_id uid [] = fetch_channels_moves guild_id uid
  answer_channels_moves guild_id uid (c ∷ cs) = search (store_rules, st.order)

  pub get_channels_moves : (req : GetChannelsRequest) → Moves R (get_channels env remote api req)
  unfolding get_channels
  get_channels_moves req =
      search (store_rules, st.order, service_rules, cached_channels_moves, answer_channels_moves)
        depth 10

  module _ (c : Crypto) (s : Settings) where
    set_guild_cache_moves : (uid : ℕ) → Moves R (set_guild_cache env uid)
    unfolding set_guild_cache
    set_guild_cache_moves uid = search store_rules

    cached_guilds_moves : (uid : ℕ) → Moves R (cached_guilds env remote api uid)
    unfolding cached_guilds
    cached_guilds_moves uid = search (store_rules, st.order, service_rules) depth 8

    fetch_guilds_moves : (uid : ℕ) → Moves R (fetch_guilds env remote api c s uid)
    unfolding fetch_guilds
    fetch_guilds_moves uid =
        search
          (
            store_rules,
            st.order,
            service_rules,
            fresh_token_moves env st remote c s,
            store_guilds_moves,
            set_guild_cache_moves,
          )
          depth 10

    answer_guilds_moves :
        (uid : ℕ) (gs : List Guild) → Moves R (answer_guilds env remote api c s uid gs)
    answer_guilds_moves uid [] = fetch_guilds_moves uid
    answer_guilds_moves uid (g ∷ gs) = search (store_rules, st.order)

    pub get_guilds_moves : (req : GetGuildsRequest) → Moves R (get_guilds env remote api c s req)
    unfolding get_guilds
    get_guilds_moves req =
        search (store_rules, st.order, service_rules, cached_guilds_moves, answer_guilds_moves)
          depth 8
