-- ===== src/Grpc/Proto.antt =====
-- api/gen: the messages of the protocol that both the calls and the event stream carry. A number
-- of type int32 is its 32-bit pattern.
use discord_lite_server.Base.{ℕ, ◌%◌, String, Option, none, some, List}

-- int32 of an int, as 32-bit pattern
abbrev pub to_int32 : ℕ → ℕ
to_int32 x = x % 4294967296

abbrev pub optional_int32 : Option ℕ → Option ℕ
optional_int32 none = none
optional_int32 (some n) = some (to_int32 n)

pub record ProtoAttachment : Type 0 where
  pub attachment_id : String
  pub filename : String
  pub url : String
  pub proxy_url : String
  pub size_bytes : ℕ
  pub width : Option ℕ
  pub height : Option ℕ
  pub content_type : String

pub record ProtoAuthor : Type 0 where
  pub discord_id : String
  pub username : String
  pub discriminator : String
  pub avatar : String

pub record ProtoMessage : Type 0 where
  pub discord_message_id : String
  pub channel_id : String
  pub author : ProtoAuthor
  pub content : String
  pub timestamp : ℕ
  pub edited_timestamp : Option ℕ
  pub kind : ℕ
  pub referenced_message_id : Option String
  pub attachments : List ProtoAttachment

pub data MessageEventType : Type 0 where
  message_created message_updated message_deleted : MessageEventType

pub record MessageEvent : Type 0 where
  pub event_type : MessageEventType
  pub message : ProtoMessage
  pub timestamp : ℕ
