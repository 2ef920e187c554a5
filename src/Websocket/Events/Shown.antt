-- ===== src/Websocket/Events/Shown.antt =====
-- internal/websocket/events.go: what a MESSAGE_CREATE event says, field by field, apart from the
-- code that passes it on.
use discord_lite_server.Base.{
  ℕ, ◌%◌, ◌≡◌, refl, sym, ap, ◌∙◌, String, Option, none, some, List, [], ◌∷◌, map, arith, inl, inr,
  Option-cases, Bool-cases,
}
use mathlib.Core.Option
use discord_lite_server.Base.Rows.{find, any}
use discord_lite_server.Models.{Message, MessageAttachment, Tables, null_string}
use discord_lite_server.Effect.{Env, Action}
use discord_lite_server.Effect.Moves.{
  Order, Moves, Moves-attempt, Moves-wrap, Moves-statement, Moves-bind, Moves-pure, moves_rules,
}
use discord_lite_server.Database.Messages.{
  is_attachment, has_message_id, upsert_attachment, create_message_attachment,
}
use discord_lite_server.Auth.Api.{Api}
use discord_lite_server.Grpc.Proto.{ProtoAttachment, MessageEvent, message_created, optional_int32}
use discord_lite_server.Websocket.Channels.{Outcome, done, panics}
use discord_lite_server.Websocket.Events.{
  GatewayAttachment, GatewayMessage, Decoder, Events, event_edited, event_row, event_attachment,
  event_milli, proto_attachment, convert_to_proto_message, store_event_attachment, and_then,
  store_event_attachments, broadcast_message, after_attachments,
}

-- The time of an edit, where the event has one that can be read.
abbrev edit_time : Api → GatewayMessage → Option ℕ
edit_time api d = Option.bind d.edited_timestamp api.parse_time

abbrev shown_attachment : GatewayAttachment → ProtoAttachment
shown_attachment a = record {
  attachment_id = a.id;
  filename = a.filename;
  url = a.url;
  proxy_url = a.proxy_url;
  size_bytes = a.size % 4294967296;
  width = Option.map (λ n. n % 4294967296) a.width;
  height = Option.map (λ n. n % 4294967296) a.height;
  content_type = a.content_type;
}

-- The event for the clients, of a message of this time that is sent at this instant.
abbrev pub shown_event : Api → GatewayMessage → ℕ → ℕ → MessageEvent
shown_event api d time instant = record {
  event_type = message_created;
  message = record {
    discord_message_id = d.id;
    channel_id = d.channel_id;
    author = record {
      discord_id = d.author.id;
      username = d.author.username;
      discriminator = d.author.discriminator;
      avatar = d.author.avatar;
    };
    content = d.content;
    timestamp = api.unix_milli time;
    edited_timestamp = Option.map api.unix_milli (edit_time api d);
    kind = d.kind % 4294967296;
    referenced_message_id = d.message_reference;
    attachments = map shown_attachment d.attachments;
  };
  timestamp = api.unix_milli instant;
}

-- The message for the table, without an id and without its own times.
abbrev pub given_row : Api → ℕ → GatewayMessage → ℕ → Message
given_row api cid d time = record {
  id = 0;
  discord_message_id = d.id;
  channel_id = cid;
  author_id = d.author.id;
  author_username = d.author.username;
  author_avatar = null_string d.author.avatar;
  content = null_string d.content;
  timestamp = time;
  edited_timestamp = edit_time api d;
  message_type = d.kind;
  referenced_message_id = d.message_reference;
  created_at = 0;
  updated_at = 0;
}

event_edited-bind :
    (api : Api) (o : Option String) → event_edited api o ≡ Option.bind o api.parse_time
unfolding Option.bind
event_edited-bind api none = refl
event_edited-bind api (some text) = refl

event_milli-map : (api : Api) (o : Option ℕ) → event_milli api o ≡ Option.map api.unix_milli o
event_milli-map api none = refl
event_milli-map api (some n) = refl

optional_int32-map : (o : Option ℕ) → optional_int32 o ≡ Option.map (λ n. n % 4294967296) o
optional_int32-map none = refl
optional_int32-map (some n) = refl

attachments_shown :
    (xs : List GatewayAttachment) → map proto_attachment xs ≡ map shown_attachment xs
attachments_shown [] = refl
attachments_shown (a ∷ xs) =
    rw (sym (optional_int32-map a.width), sym (optional_int32-map a.height))
      (ap (λ l. proto_attachment a ∷ l) (attachments_shown xs))

pub event_row-given :
    (api : Api) (cid : ℕ) (d : GatewayMessage) (time : ℕ)
    → event_row api cid d time ≡ given_row api cid d time
event_row-given api cid d time = rw (sym (event_edited-bind api d.edited_timestamp)) refl

-- The message of the event, once the row has an id and times of its own.
pub convert_to_proto_message-shown :
    (api : Api) (d : GatewayMessage) (m : Message) (time instant : ℕ)
    → m.timestamp ≡ time
    → m.edited_timestamp ≡ event_edited api d.edited_timestamp
    → m.referenced_message_id ≡ d.message_reference
    → convert_to_proto_message api d m ≡ (shown_event api d time instant).message
convert_to_proto_message-shown api d m time instant t e r =
    rw
      (
        t,
        e,
        r,
        event_milli-map api (event_edited api d.edited_timestamp),
        event_edited-bind api d.edited_timestamp,
        attachments_shown d.attachments,
      )
      refl

-- The messages of the tables are left alone.
abbrev pub SameMessages : Tables → Tables → Type 0
SameMessages t u = t.messages ≡ u.messages

pub SameMessages-order : Order SameMessages
SameMessages-order = record { same = λ t. refl; chain = λ t u v p q. p ∙ q }

upsert_attachment-SameMessages :
    (a : MessageAttachment) (instant : ℕ) (t : Tables)
    → SameMessages t (upsert_attachment a instant t).1
unfolding upsert_attachment
upsert_attachment-SameMessages a instant t =
    elim (Option-cases (find (is_attachment a.message_id a.attachment_id) t.message_attachments)) [
      | inl new ↦ elim (Bool-cases (any (has_message_id a.message_id) t.messages)) [
        | inl there ↦ ground (arith, new, there)
        | inr missing ↦ ground (arith, new, missing)
      ]
      | inr (old, known) ↦ ground (arith, known)
    ]

module _ (env : Env) (api : Api) (decoder : Decoder) where
  attachment_kept :
      (o : Outcome MessageAttachment)
      → Moves SameMessages (store_event_attachment env api decoder o)
  unfolding create_message_attachment
  attachment_kept panics = Moves-pure SameMessages-order _
  attachment_kept (done a) =
      Moves-bind SameMessages-order _ _
        (Moves-attempt _ (
          Moves-wrap _ _
            (Moves-statement SameMessages-order env _ (upsert_attachment-SameMessages a))))
        λ r. Moves-pure SameMessages-order _

  and_then_kept :
      (o : Outcome (Unit {0})) (rest : Action (Outcome (Unit {0})))
      → Moves SameMessages rest
      → Moves SameMessages (and_then env api decoder o rest)
  and_then_kept panics rest k = Moves-pure SameMessages-order _
  and_then_kept (done u) rest k = k

  pub attachments_kept :
      (mid : ℕ) (atts : List GatewayAttachment)
      → Moves SameMessages (store_event_attachments env api decoder mid atts)
  unfolding store_event_attachments
  attachments_kept mid [] = Moves-pure SameMessages-order _
  attachments_kept mid (a ∷ rest) =
      Moves-bind SameMessages-order _ _ (attachment_kept (event_attachment mid a))
        λ o. and_then_kept o _ (attachments_kept mid rest)

  pub broadcast_kept :
      (d : GatewayMessage) (m : Message) (manager : Events) (o : Outcome (Unit {0}))
      → Moves SameMessages (after_attachments env api decoder d m manager o)
  unfolding broadcast_message
  broadcast_kept d m manager panics = Moves-pure SameMessages-order _
  broadcast_kept d m manager (done u) = search (moves_rules, SameMessages-order)
