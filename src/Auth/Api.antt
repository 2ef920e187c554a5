-- ===== src/Auth/Api.antt =====
-- internal/auth/discord.go: the guilds, channels and messages of the Discord API. The client's
-- rate limiter delays a request or refuses it: a request that it refuses is one without an answer.
use Prim.Native.String.{◌++◌}
use discord_lite_server.Base.{
  ℕ, Bool, String, Option, List, [], ◌∷◌, ◌==◌, nat_eq, string_eq, if◌then◌else◌,
}
use discord_lite_server.Effect.{
  Action, external, message, http_status, wrap, raise, pure, or_fail, ◌>>=◌,
}
use discord_lite_server.Auth.Services.{Remote, Response, DiscordUser}
use discord_lite_server.Auth.Discord.{request}
use discord_lite_server.Database.Messages.{page_limit}

pub record DiscordGuild : Type 0 where
  pub id : String
  pub name : String
  pub icon : String
  pub owner : Bool
  pub permissions : String
  pub features : List String

pub record DiscordChannel : Type 0 where
  pub id : String
  pub kind : ℕ
  pub guild_id : String
  pub position : ℕ
  pub name : String
  pub topic : String
  pub nsfw : Bool
  pub last_message_id : String
  pub parent_id : String

pub record DiscordMessageReference : Type 0 where
  pub message_id : String
  pub channel_id : String
  pub guild_id : String

-- A nil pointer is none.
pub record DiscordAttachment : Type 0 where
  pub id : String
  pub filename : String
  pub size : ℕ
  pub url : String
  pub proxy_url : String
  pub height : Option ℕ
  pub width : Option ℕ
  pub content_type : String

pub record DiscordMessage : Type 0 where
  pub id : String
  pub channel_id : String
  pub author : DiscordUser
  pub content : String
  pub timestamp : String
  pub edited_timestamp : Option String
  pub kind : ℕ
  pub message_reference : Option DiscordMessageReference
  pub attachments : List DiscordAttachment

-- The bot's token, encoding/json, net/url, and what strconv, fmt and time make of texts and
-- numbers; `parse_int` is the value of strconv.ParseInt, with or without an error.
pub record Api : Type 0 where
  pub bot_token : String
  pub decode_guilds : String → Option (List DiscordGuild)
  pub decode_channels : String → Option (List DiscordChannel)
  pub decode_messages : String → Option (List DiscordMessage)
  pub encode_query : List (String × String) → String
  pub itoa : ℕ → String
  pub parse_int : String → ℕ
  pub parse_time : String → Option ℕ
  pub unix_milli : ℕ → ℕ

-- An answer 429 is an error.
abbrev pub refuse_429 : Response → Action Response
refuse_429 resp =
    if resp.status_code == 429 then raise (message "rate limited by Discord API") else pure resp

-- An answer of another status than 200 is an error with the body.
abbrev pub decode_body : {A : Type 0} → String → (String → Option A) → Response → Action A
decode_body text decode resp =
    if resp.status_code == 200
    then wrap text (or_fail external (decode resp.body))
    else raise (http_status resp.status_code resp.body)

-- params.Set of a parameter that is not empty
abbrev pub param : String → String → List (String × String) → List (String × String)
param name value rest = if value == "" then rest else (name, value) ∷ rest

module _ (remote : Remote) (api : Api) where
  unfoldable pub make_api_request : String → String → Action Response
  make_api_request endpoint access_token = do
    resp ←
        wrap "failed to make request"
          (request (λ step. remote.get step endpoint ("Bearer " ++ access_token)))
    refuse_429 resp

  unfoldable pub make_api_request_with_bot : String → Action Response
  make_api_request_with_bot endpoint =
      if api.bot_token == "" then raise (message "bot token is not configured") else (do
        resp ←
            wrap "failed to make request"
              (request (λ step. remote.get step endpoint ("Bot " ++ api.bot_token)))
        refuse_429 resp)

  unfoldable pub get_user_guilds : String → Action (List DiscordGuild)
  get_user_guilds access_token = do
    resp ← make_api_request "/users/@me/guilds" access_token
    decode_body "failed to decode guilds" api.decode_guilds resp

  unfoldable pub get_guild_channels : String → Action (List DiscordChannel)
  get_guild_channels guild_id = do
    resp ← make_api_request_with_bot ("/guilds/" ++ guild_id ++ "/channels")
    decode_body "failed to decode channels" api.decode_channels resp

  abbrev pub messages_endpoint : String → ℕ → String → String → String
  messages_endpoint channel_id limit before after =
      "/channels/"
      ++ channel_id
      ++ "/messages?"
      ++ api.encode_query
          (("limit", api.itoa (page_limit limit)) ∷ param "before" before (param "after" after []))

  unfoldable pub get_channel_messages :
      String → String → ℕ → String → String → Action (List DiscordMessage)
  get_channel_messages access_token channel_id limit before after = do
    resp ← make_api_request (messages_endpoint channel_id limit before after) access_token
    decode_body "failed to decode messages" api.decode_messages resp
