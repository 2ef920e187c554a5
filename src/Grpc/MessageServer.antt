-- ===== src/Grpc/MessageServer.antt =====
-- internal/grpc/message_service.go: GetMessages.
pub mod Stream
pub mod Writes
pub mod Cached
use discord_lite_server.Base.{
  ℕ, Bool, true, false, not, ◌&&◌, String, Option, none, some, List, [], ◌∷◌, map, ◌==◌, nat_eq,
  string_eq, if◌then◌else◌,
}
use discord_lite_server.Base.Lists.{length}
use discord_lite_server.Models.{Message, MessageAttachment, Channel, null_string, string_or_empty}
use discord_lite_server.Effect.{
  Env, Action, Result, ok, err, status, not_found, permission_denied, internal, raise, pure, now,
  or_return, attempt, ◌>>=◌, ◌>>◌,
}
use discord_lite_server.Database.Channels.{get_channel_by_discord_id, user_has_channel_access}
use discord_lite_server.Database.Messages.{
  page_limit, create_or_update_message, create_message_attachment, get_messages_by_channel_id,
  get_message_attachments_by_message_id,
}
use discord_lite_server.Auth.Services.{Crypto, Remote, Settings, DiscordUser}
use discord_lite_server.Auth.Api.{
  DiscordMessage, DiscordMessageReference, DiscordAttachment, Api, get_channel_messages,
}
use discord_lite_server.Grpc.CacheManager.{check_message_cache, set_message_cache}
use discord_lite_server.Grpc.Session.{require, session_user, fresh_token, is_hit, rows_of, prepend}
use discord_lite_server.Grpc.Proto.{
  ProtoAttachment, ProtoAuthor, ProtoMessage, to_int32, optional_int32,
}

-- The limit is int(req.Limit), as a 64-bit pattern.
pub record GetMessagesRequest : Type 0 where
  pub session_id : String
  pub channel_id : String
  pub limit : ℕ
  pub before : String
  pub after : String
  pub force_refresh : Bool

pub record GetMessagesResponse : Type 0 where
  pub messages : List ProtoMessage
  pub from_cache : Bool
  pub has_more : Bool

abbrev pub convert_attachment : MessageAttachment → ProtoAttachment
convert_attachment a = record {
  attachment_id = a.attachment_id;
  filename = a.filename;
  url = a.url;
  proxy_url = string_or_empty a.proxy_url;
  size_bytes = to_int32 a.size_bytes;
  width = optional_int32 a.width;
  height = optional_int32 a.height;
  content_type = string_or_empty a.content_type;
}

abbrev pub edited_milli : Api → Option ℕ → Option ℕ
edited_milli api none = none
edited_milli api (some time) = some (api.unix_milli time)

-- The id of the channel is the one of the table.
abbrev pub convert_message : Api → Message → List MessageAttachment → ProtoMessage
convert_message api m attachments = record {
  discord_message_id = m.discord_message_id;
  channel_id = api.itoa m.channel_id;
  author = record {
    discord_id = m.author_id;
    username = m.author_username;
    discriminator = "";
    avatar = string_or_empty m.author_avatar;
  };
  content = string_or_empty m.content;
  timestamp = api.unix_milli m.timestamp;
  edited_timestamp = edited_milli api m.edited_timestamp;
  kind = to_int32 m.message_type;
  referenced_message_id = m.referenced_message_id;
  attachments = map convert_attachment attachments;
}

-- A text that does not parse is no time.
abbrev pub edited_time : Api → Option String → Option ℕ
edited_time api none = none
edited_time api (some text) = api.parse_time text

abbrev pub referenced : Option DiscordMessageReference → Option String
referenced none = none
referenced (some r) = some r.message_id

abbrev pub message_row : Api → ℕ → DiscordMessage → ℕ → Message
message_row api cid d time = record {
  id = 0;
  discord_message_id = d.id;
  channel_id = cid;
  author_id = d.author.id;
  author_username = d.author.username;
  author_avatar = null_string d.author.avatar;
  content = null_string d.content;
  timestamp = time;
  edited_timestamp = edited_time api d.edited_timestamp;
  message_type = d.kind;
  referenced_message_id = referenced d.message_reference;
  created_at = 0;
  updated_at = 0;
}

abbrev pub attachment_row : ℕ → DiscordAttachment → MessageAttachment
attachment_row mid a = record {
  id = 0;
  message_id = mid;
  attachment_id = a.id;
  filename = a.filename;
  url = a.url;
  proxy_url = null_string a.proxy_url;
  size_bytes = a.size;
  width = a.width;
  height = a.height;
  content_type = null_string a.content_type;
  created_at = 0;
}

-- !req.ForceRefresh && req.Before == "" && req.After == ""
abbrev pub is_first_page : GetMessagesRequest → Bool
is_first_page req = req.before == "" && req.after == ""

module _ (env : Env) (api : Api) where
  -- Attachments that cannot be read are left out.
  unfoldable pub convert_messages_to_proto : List Message → Action (List ProtoMessage)
  convert_messages_to_proto [] = pure []
  convert_messages_to_proto (m ∷ ms) = do
    r ← attempt (get_message_attachments_by_message_id env m.id)
    rest ← convert_messages_to_proto ms
    pure (convert_message api m (rows_of r) ∷ rest)

  -- A time that does not parse is the present.
  abbrev pub sent_at : Option ℕ → Action ℕ
  sent_at none = now env
  sent_at (some time) = pure time

  unfoldable pub store_attachments : ℕ → List DiscordAttachment → Action (Unit {0})
  store_attachments mid [] = pure tt
  store_attachments mid (a ∷ rest) = do
    attempt (create_message_attachment env (attachment_row mid a))
    store_attachments mid rest

  -- A message that cannot be stored is left out, with its attachments.
  abbrev pub with_attachments : List DiscordAttachment → Result Message → Action (Option Message)
  with_attachments attachments (err e) = pure none
  with_attachments attachments (ok m) = do store_attachments m.id attachments; pure (some m)

  unfoldable pub store_message : ℕ → DiscordMessage → Action (Option Message)
  store_message cid d = do
    time ← sent_at (api.parse_time d.timestamp)
    r ← attempt (create_or_update_message env (message_row api cid d time))
    with_attachments d.attachments r

  unfoldable pub store_messages : ℕ → List DiscordMessage → Action (List Message)
  store_messages cid [] = pure []
  store_messages cid (d ∷ ds) = do
    m ← store_message cid d
    ms ← store_messages cid ds
    pure (prepend m ms)

  unfoldable pub cached_messages : GetMessagesRequest → ℕ → ℕ → Action (List Message)
  cached_messages req uid cid = do
    valid ← attempt (check_message_cache env req.channel_id uid)
    if is_hit valid
        then (do
          rows ← attempt (get_messages_by_channel_id env cid req.limit "" "")
          pure (rows_of rows))
        else pure []

  module _ (remote : Remote) (c : Crypto) (s : Settings) where
    unfoldable pub fetch_messages : GetMessagesRequest → ℕ → ℕ → Action GetMessagesResponse
    fetch_messages req uid cid = do
      access_token ← fresh_token env remote c s uid
      fetched ← or_return (status internal "failed to fetch messages from Discord API") (
          get_channel_messages remote api access_token req.channel_id (page_limit req.limit)
            req.before req.after)
      stored ← store_messages cid fetched
      if is_first_page req
          then (do attempt (set_message_cache env req.channel_id uid); pure tt)
          else pure tt
      messages ←
          or_return (status internal "failed to convert messages")
            (convert_messages_to_proto stored)
      pure (record {
        messages = messages;
        from_cache = false;
        has_more = length fetched == page_limit req.limit;
      })

    -- Where the rows of the cache cannot be converted, the messages are fetched.
    abbrev pub answer_converted :
        GetMessagesRequest → ℕ → ℕ → ℕ → Result (List ProtoMessage) → Action GetMessagesResponse
    answer_converted req uid cid rows (err e) = fetch_messages req uid cid
    answer_converted req uid cid rows (ok messages) =
        pure (record { messages = messages; from_cache = true; has_more = rows == req.limit })

    abbrev pub answer_messages :
        GetMessagesRequest → ℕ → ℕ → List Message → Action GetMessagesResponse
    answer_messages req uid cid [] = fetch_messages req uid cid
    answer_messages req uid cid (m ∷ ms) = do
      r ← attempt (convert_messages_to_proto (m ∷ ms))
      answer_converted req uid cid (length (m ∷ ms)) r

    unfoldable pub get_messages : GetMessagesRequest → Action GetMessagesResponse
    get_messages req = do
      uid ← session_user env req.session_id
      has_access ←
          or_return (status internal "failed to verify channel access")
            (user_has_channel_access env uid req.channel_id)
      require has_access (raise (status permission_denied "you don't have access to this channel"))
      c ←
          or_return (status not_found "channel not found")
            (get_channel_by_discord_id env req.channel_id)
      rows ←
          if not req.force_refresh && is_first_page req
          then cached_messages req uid c.id
          else pure []
      answer_messages req uid c.id rows
