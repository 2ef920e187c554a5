-- ===== src/Tests/Content.antt =====
-- Tables with one user, one guild of two channels, two messages and one attachment.
use discord_lite_server.Base.{false, some, none, [], ◌∷◌, refl, arith}
use discord_lite_server.Models.{
  User, AuthSession, authenticated, Guild, UserGuild, Channel, Message, MessageAttachment,
  CacheMetadata, WebSocketSession, connected, Tables, migrated,
}
use discord_lite_server.Models
use discord_lite_server.Base.Rows.{find, any}
use discord_lite_server.Effect.{World}
use discord_lite_server.Auth.Api.{Api}
use discord_lite_server.Database.Sound.{IsSound}
use discord_lite_server.Database.Content.{IsContentSound}
use discord_lite_server.Server.Traffic.Safe.{IsSafe}

abbrev user : User
user = record {
  id = 1;
  discord_id = "7";
  username = "ann";
  discriminator = none;
  avatar = none;
  email = none;
  created_at = 0;
  updated_at = 0;
}

abbrev pub session : AuthSession
session = record {
  session_id = "s";
  user_id = some 1;
  auth_status = authenticated;
  error_message = none;
  created_at = 0;
  updated_at = 0;
  expires_at = 0;
}

abbrev pub guild : Guild
guild = record {
  id = 1;
  discord_guild_id = "g";
  name = "guild";
  icon = none;
  owner_id = none;
  permissions = 0;
  features = [];
  created_at = 0;
  updated_at = 0;
}

abbrev pub general : Channel
general = record {
  id = 1;
  discord_channel_id = "c";
  guild_id = 1;
  name = "general";
  kind = 0;
  position = 0;
  parent_id = none;
  topic = none;
  nsfw = false;
  last_message_id = none;
  created_at = 0;
  updated_at = 0;
}

abbrev pub random : Channel
random = record general { id = 2; discord_channel_id = "d"; name = "random" }

abbrev pub hello : Message
hello = record {
  id = 1;
  discord_message_id = "m";
  channel_id = 1;
  author_id = "7";
  author_username = "ann";
  author_avatar = none;
  content = some "hello";
  timestamp = 10;
  edited_timestamp = none;
  message_type = 0;
  referenced_message_id = none;
  created_at = 0;
  updated_at = 0;
}

abbrev pub bye : Message
bye = record hello { id = 2; discord_message_id = "n"; content = some "bye"; timestamp = 20 }

abbrev pub picture : MessageAttachment
picture = record {
  id = 1;
  message_id = 1;
  attachment_id = "a";
  filename = "a.png";
  url = "a";
  proxy_url = none;
  size_bytes = 5;
  width = some 1;
  height = some 1;
  content_type = none;
  created_at = 0;
}

abbrev pub entry : CacheMetadata
entry = record {
  id = 1;
  cache_type = Models.message;
  entity_id = "c";
  user_id = some 1;
  last_fetched_at = 0;
  expires_at = 50;
  created_at = 0;
  updated_at = 0;
}

abbrev pub socket : WebSocketSession
socket = record {
  id = 1;
  session_id = "w";
  user_id = 1;
  gateway_url = "";
  session_token = none;
  sequence_number = 0;
  status = connected;
  last_heartbeat_at = none;
  created_at = 0;
  updated_at = 0;
  expires_at = 50;
}

abbrev pub filled : Tables
filled = record migrated {
  users = user ∷ [];
  auth_sessions = session ∷ [];
  oauth_tokens =
      record {
        id = 1;
        user_id = 1;
        access_token = ",,,,,,,,,,,,IIIIIIIIIIIIIIIIIIIIIIIIIIIIIIIII,";
        refresh_token = "";
        token_type = "Bearer";
        expiry = 1000000000000;
        scope = "identify";
        created_at = 0;
        updated_at = 0;
      }
      ∷ [];
  cache_metadata = entry ∷ [];
  guilds = guild ∷ [];
  user_guilds = record { id = 1; user_id = 1; guild_id = 1; joined_at = 0; created_at = 0 } ∷ [];
  channels = general ∷ random ∷ [];
  messages = hello ∷ bye ∷ [];
  message_attachments = picture ∷ [];
  websocket_sessions = socket ∷ [];
  next_user = 2;
  next_token = 2;
  next_cache = 2;
  next_guild = 2;
  next_user_guild = 2;
  next_channel = 3;
  next_message = 3;
  next_attachment = 2;
  next_websocket = 2;
}

abbrev pub full : World
full = record { tables = filled; step = 0 }

pub filled-IsSound : IsSound filled
unfolding find
filled-IsSound = record {
  sessions_distinct = (tt, tt);
  states_distinct = tt;
  users_distinct = (tt, tt);
  ids_below = (omega arith, tt);
  tokens_distinct = (tt, tt);
  token_users = (refl, tt);
  session_users = (refl, tt);
  linked = (refl, tt);
}

pub filled-IsContentSound : IsContentSound filled
unfolding any
filled-IsContentSound = record {
  guild_table = record {
    keys_distinct = (tt, tt);
    ids_distinct = (tt, tt);
    ids_below = (omega arith, tt);
  };
  channel_table = record {
    keys_distinct = ((refl, tt), (tt, tt));
    ids_distinct = ((refl, tt), (tt, tt));
    ids_below = (omega arith, (omega arith, tt));
  };
  message_table = record {
    keys_distinct = ((refl, tt), (tt, tt));
    ids_distinct = ((refl, tt), (tt, tt));
    ids_below = (omega arith, (omega arith, tt));
  };
  socket_table = record {
    keys_distinct = (tt, tt);
    ids_distinct = (tt, tt);
    ids_below = (omega arith, tt);
  };
  link_users = (refl, tt);
  link_guilds = (refl, tt);
  channel_guilds = (refl, (refl, tt));
  message_channels = (refl, (refl, tt));
  attachment_messages = (refl, tt);
  socket_users = (refl, tt);
}

pub filled-IsSafe : IsSafe filled
filled-IsSafe = record { accounts = filled-IsSound; content = filled-IsContentSound }

-- The Discord API knows one guild, no channel and no message.
abbrev pub api : Api
api = record {
  bot_token = "bot";
  decode_guilds = λ body. some (
      record { id = "h"; name = "new"; icon = ""; owner = false; permissions = "0"; features = [] }
      ∷ []);
  decode_channels = λ body. some [];
  decode_messages = λ body. some [];
  encode_query = λ params. "";
  itoa = λ n. "1";
  parse_int = λ s. 0;
  parse_time = λ s. some 30;
  unix_milli = λ n. n;
}
