-- ===== src/Websocket/Events.antt =====
-- internal/websocket/events.go. A handler that dereferences a nil pointer ends the process.
pub mod Writes
pub mod Handled
pub mod Shown
use discord_lite_server.Base.{
  ℕ, Bool, true, false, String, Option, none, some, List, [], ◌∷◌, map, if◌then◌else◌,
}
use discord_lite_server.Models.{Message, MessageAttachment, Channel, null_string, string_or_empty}
use discord_lite_server.Effect.{
  Env, Action, Result, ok, err, external, wrap, raise, pure, lift, now, or_fail, attempt, ◌>>=◌,
  ◌>>◌,
}
use discord_lite_server.Database.Channels.{get_channel_by_discord_id}
use discord_lite_server.Database.Messages.{
  create_or_update_message, create_message_attachment, get_message_by_discord_id, delete_message,
}
use discord_lite_server.Auth.Api.{Api}
use discord_lite_server.Grpc.Proto.{
  ProtoAttachment, ProtoAuthor, ProtoMessage, MessageEventType, message_created, message_updated,
  message_deleted, MessageEvent, to_int32, optional_int32,
}
use discord_lite_server.Websocket.Channels.{Outcome, done, panics}
use discord_lite_server.Websocket.Manager.{Manager, broadcast_event}

-- DiscordMessage, Attachment and DiscordMessageDelete
pub record GatewayAuthor : Type 0 where
  pub id : String
  pub username : String
  pub discriminator : String
  pub avatar : String

pub record GatewayAttachment : Type 0 where
  pub id : String
  pub filename : String
  pub size : ℕ
  pub url : String
  pub proxy_url : String
  pub height : Option ℕ
  pub width : Option ℕ
  pub content_type : String

-- A message_reference is the id that it holds.
pub record GatewayMessage : Type 0 where
  pub id : String
  pub channel_id : String
  pub guild_id : String
  pub author : GatewayAuthor
  pub content : String
  pub timestamp : String
  pub edited_timestamp : Option String
  pub kind : ℕ
  pub attachments : List GatewayAttachment
  pub message_reference : Option String

pub record DiscordMessageDelete : Type 0 where
  pub id : String
  pub channel_id : String
  pub guild_id : String

-- encoding/json, on the data of a dispatch event
pub record Decoder : Type 0 where
  pub decode_message : String → Option GatewayMessage
  pub decode_delete : String → Option DiscordMessageDelete

abbrev pub event_edited : Api → Option String → Option ℕ
event_edited api none = none
event_edited api (some text) = api.parse_time text

abbrev pub event_row : Api → ℕ → GatewayMessage → ℕ → Message
event_row api cid d time = record {
  id = 0;
  discord_message_id = d.id;
  channel_id = cid;
  author_id = d.author.id;
  author_username = d.author.username;
  author_avatar = null_string d.author.avatar;
  content = null_string d.content;
  timestamp = time;
  edited_timestamp = event_edited api d.edited_timestamp;
  message_type = d.kind;
  referenced_message_id = d.message_reference;
  created_at = 0;
  updated_at = 0;
}

-- Width and Height are read through their pointers before they are compared with nil.
abbrev pub sized : ℕ → GatewayAttachment → Option ℕ → Option ℕ → Outcome MessageAttachment
sized mid a none height = panics
sized mid a (some width) none = panics
sized mid a (some width) (some height) = done (record {
  id = 0;
  message_id = mid;
  attachment_id = a.id;
  filename = a.filename;
  url = a.url;
  proxy_url = null_string a.proxy_url;
  size_bytes = a.size;
  width = some width;
  height = some height;
  content_type = null_string a.content_type;
  created_at = 0;
})

abbrev pub event_attachment : ℕ → GatewayAttachment → Outcome MessageAttachment
event_attachment mid a = sized mid a a.width a.height

abbrev pub proto_attachment : GatewayAttachment → ProtoAttachment
proto_attachment a = record {
  attachment_id = a.id;
  filename = a.filename;
  url = a.url;
  proxy_url = a.proxy_url;
  size_bytes = to_int32 a.size;
  width = optional_int32 a.width;
  height = optional_int32 a.height;
  content_type = a.content_type;
}

abbrev pub event_milli : Api → Option ℕ → Option ℕ
event_milli api none = none
event_milli api (some time) = some (api.unix_milli time)

abbrev pub convert_to_proto_message : Api → GatewayMessage → Message → ProtoMessage
convert_to_proto_message api d m = record {
  discord_message_id = d.id;
  channel_id = d.channel_id;
  author = record {
    discord_id = d.author.id;
    username = d.author.username;
    discriminator = d.author.discriminator;
    avatar = d.author.avatar;
  };
  content = d.content;
  timestamp = api.unix_milli m.timestamp;
  edited_timestamp = event_milli api m.edited_timestamp;
  kind = to_int32 d.kind;
  referenced_message_id = m.referenced_message_id;
  attachments = map proto_attachment d.attachments;
}

abbrev pub deleted_message : Api → DiscordMessageDelete → Message → ProtoMessage
deleted_message api d m = record {
  discord_message_id = m.discord_message_id;
  channel_id = d.channel_id;
  author = record {
    discord_id = m.author_id;
    username = m.author_username;
    discriminator = "";
    avatar = string_or_empty m.author_avatar;
  };
  content = string_or_empty m.content;
  timestamp = api.unix_milli m.timestamp;
  edited_timestamp = none;
  kind = to_int32 m.message_type;
  referenced_message_id = none;
  attachments = [];
}

abbrev pub Events : Type 0
Events = Manager MessageEvent

module _ (env : Env) (api : Api) (decoder : Decoder) where
  abbrev pub event_time : Option ℕ → Action ℕ
  event_time none = now env
  event_time (some time) = pure time

  -- An attachment that cannot be stored is logged.
  abbrev pub store_event_attachment : Outcome MessageAttachment → Action (Outcome (Unit {0}))
  store_event_attachment panics = pure panics
  store_event_attachment (done a) = do attempt (create_message_attachment env a); pure (done tt)

  abbrev pub and_then :
      Outcome (Unit {0}) → Action (Outcome (Unit {0})) → Action (Outcome (Unit {0}))
  and_then panics next = pure panics
  and_then (done u) next = next

  unfoldable pub store_event_attachments : ℕ → List GatewayAttachment → Action (Outcome (Unit {0}))
  store_event_attachments mid [] = pure (done tt)
  store_event_attachments mid (a ∷ rest) = do
    stored ← store_event_attachment (event_attachment mid a)
    and_then stored (store_event_attachments mid rest)

  unfoldable pub broadcast_message :
      MessageEventType → String → ProtoMessage → Events → Action (Outcome Events)
  broadcast_message kind channel_id m manager = do
    instant ← now env
    let event : MessageEvent = record {
      event_type = kind;
      message = m;
      timestamp = api.unix_milli instant;
    }
    pure (broadcast_event channel_id event manager)

  abbrev pub after_attachments :
      GatewayMessage → Message → Events → Outcome (Unit {0}) → Action (Outcome Events)
  after_attachments d m manager panics = pure panics
  after_attachments d m manager (done u) =
      broadcast_message message_created d.channel_id (convert_to_proto_message api d m) manager

  -- A channel that is not stored is not an error.
  abbrev pub create_in : GatewayMessage → Events → Result Channel → Action (Outcome Events)
  create_in d manager (err e) = pure (done manager)
  create_in d manager (ok c) = do
    time ← event_time (api.parse_time d.timestamp)
    m ← create_or_update_message env (event_row api c.id d time)
    stored ← store_event_attachments m.id d.attachments
    after_attachments d m manager stored

  unfoldable pub handle_message_create : String → Events → Action (Outcome Events)
  handle_message_create payload manager = do
    d ←
        wrap "failed to unmarshal MESSAGE_CREATE"
          (or_fail external (decoder.decode_message payload))
    found ← attempt (get_channel_by_discord_id env d.channel_id)
    create_in d manager found

  abbrev pub edited_row : GatewayMessage → Message → Message
  edited_row d m = record m {
    content = null_string d.content;
    edited_timestamp = event_edited api d.edited_timestamp;
  }

  abbrev pub update_in :
      GatewayMessage → Events → Message → Result Channel → Action (Outcome Events)
  update_in d manager old (err e) = pure (done manager)
  update_in d manager old (ok c) = do
    m ← create_or_update_message env (edited_row d old)
    broadcast_message message_updated d.channel_id (convert_to_proto_message api d m) manager

  abbrev pub update_found : GatewayMessage → Events → Result Message → Action (Outcome Events)
  update_found d manager (err e) = pure (done manager)
  update_found d manager (ok old) = do
    found ← attempt (get_channel_by_discord_id env d.channel_id)
    update_in d manager old found

  unfoldable pub handle_message_update : String → Events → Action (Outcome Events)
  handle_message_update payload manager = do
    d ←
        wrap "failed to unmarshal MESSAGE_UPDATE"
          (or_fail external (decoder.decode_message payload))
    existing ← attempt (get_message_by_discord_id env d.id)
    update_found d manager existing

  abbrev pub delete_found : DiscordMessageDelete → Events → Result Message → Action (Outcome Events)
  delete_found d manager (err e) = pure (done manager)
  delete_found d manager (ok m) = do
    delete_message env d.id
    broadcast_message message_deleted d.channel_id (deleted_message api d m) manager

  unfoldable pub handle_message_delete : String → Events → Action (Outcome Events)
  handle_message_delete payload manager = do
    d ← wrap "failed to unmarshal MESSAGE_DELETE" (or_fail external (decoder.decode_delete payload))
    existing ← attempt (get_message_by_discord_id env d.id)
    delete_found d manager existing
