-- ===== src/Database/Messages.antt =====
-- internal/database/message_queries.go: the tables messages and message_attachments.
pub mod Page
pub mod Stored
pub mod Deleted
use discord_lite_server.Base.{
  ℕ, suc, Bool, true, false, ◌&&◌, ◌||◌, String, Option, none, some, List, [], ◌∷◌, ◌++◌, ◌==◌,
  nat_eq, string_eq, if◌then◌else◌, ltb, leb,
}
use discord_lite_server.Base.Rows.{find, select, update, remove, count, any}
use discord_lite_server.Base.Sort.{sort_by}
use discord_lite_server.Base.Lists.{take}
use discord_lite_server.Base.Words.{is_positive}
use discord_lite_server.Models.{Message, MessageAttachment, Tables}
use discord_lite_server.Effect.{
  Env, Action, Result, ok, err, external, message, wrap, raise, pure, or_fail, statement, query,
  ◌>>=◌,
}
use discord_lite_server.Database.Channels.{has_channel_id}
use discord_lite_server.Database.Cascade.{drop_messages}

abbrev pub has_message_id : ℕ → Message → Bool
has_message_id id m = m.id == id

abbrev pub has_discord_message_id : String → Message → Bool
has_discord_message_id d m = m.discord_message_id == d

-- ON CONFLICT (discord_message_id) DO UPDATE: the content and the time of the edit only.
abbrev pub merge_message : Message → ℕ → Message → Message
merge_message m instant old = record old {
  content = m.content;
  edited_timestamp = m.edited_timestamp;
  updated_at = instant;
}

abbrev pub new_message : Message → ℕ → ℕ → Message
new_message m id instant = record m { id = id; created_at = instant; updated_at = instant }

-- The foreign key channel_id is checked where a row is inserted. The caller's struct comes back
-- with the id and the times of the row, and keeps its other fields.
unfoldable pub upsert_message : Message → ℕ → Tables → Result Message × Tables
upsert_message m instant t = elim (find (has_discord_message_id m.discord_message_id) t.messages) [
  | none ↦
      if any (has_channel_id m.channel_id) t.channels
      then (
        ok (new_message m t.next_message instant),
        record t {
          messages = t.messages ++ new_message m t.next_message instant ∷ [];
          next_message = suc t.next_message;
        },
      )
      else (err external, record t { next_message = suc t.next_message })
  | some old ↦ (
    ok (record m { id = old.id; created_at = old.created_at; updated_at = instant }),
    record t {
      messages =
          update (has_discord_message_id m.discord_message_id) (merge_message m instant) t.messages;
      next_message = suc t.next_message;
    },
  )
]

abbrev pub is_attachment : ℕ → String → MessageAttachment → Bool
is_attachment mid aid a = a.message_id == mid && a.attachment_id == aid

-- ON CONFLICT (message_id, attachment_id) DO UPDATE
abbrev pub merge_attachment : MessageAttachment → MessageAttachment → MessageAttachment
merge_attachment a old = record old {
  filename = a.filename;
  url = a.url;
  proxy_url = a.proxy_url;
  size_bytes = a.size_bytes;
  width = a.width;
  height = a.height;
  content_type = a.content_type;
}

abbrev pub new_attachment : MessageAttachment → ℕ → ℕ → MessageAttachment
new_attachment a id instant = record a { id = id; created_at = instant }

unfoldable pub upsert_attachment :
    MessageAttachment → ℕ → Tables → Result MessageAttachment × Tables
upsert_attachment a instant t =
    elim (find (is_attachment a.message_id a.attachment_id) t.message_attachments) [
      | none ↦
          if any (has_message_id a.message_id) t.messages
          then (
            ok (new_attachment a t.next_attachment instant),
            record t {
              message_attachments =
                  t.message_attachments ++ new_attachment a t.next_attachment instant ∷ [];
              next_attachment = suc t.next_attachment;
            },
          )
          else (err external, record t { next_attachment = suc t.next_attachment })
      | some old ↦ (
        ok (merge_attachment a old),
        record t {
          message_attachments =
              update (is_attachment a.message_id a.attachment_id) (merge_attachment a)
                t.message_attachments;
          next_attachment = suc t.next_attachment;
        },
      )
    ]

unfoldable pub delete_message_row : String → ℕ → Tables → Result ℕ × Tables
delete_message_row d instant t =
    (ok (count (has_discord_message_id d) t.messages), drop_messages (has_discord_message_id d) t)

-- limit <= 0 || limit > 100, of an int
unfoldable pub page_limit : ℕ → ℕ
page_limit limit = if is_positive limit && leb limit 100 then limit else 50

-- The subquery is NULL where the anchor is not known, and then no row satisfies the comparison.
unfoldable pub anchor : String → List Message → Option ℕ
unfolding find
anchor d ms = elim (find (has_discord_message_id d) ms) [ none ↦ none | some m ↦ some m.timestamp ]

abbrev pub is_before : Option ℕ → Message → Bool
is_before none m = false
is_before (some time) m = ltb m.timestamp time

abbrev pub is_after : Option ℕ → Message → Bool
is_after none m = false
is_after (some time) m = ltb time m.timestamp

-- The WHERE clause of the three queries.
unfoldable pub in_page : ℕ → String → String → List Message → Message → Bool
in_page cid before after ms m =
    if before == ""
    then if after == ""
      then m.channel_id == cid
      else m.channel_id == cid && is_after (anchor after ms) m
    else m.channel_id == cid && is_before (anchor before ms) m

-- ORDER BY timestamp DESC, and ASC where a page follows a message.
unfoldable pub page_order : String → String → Message → Message → Bool
page_order before after a b =
    if before == ""
    then if after == "" then leb b.timestamp a.timestamp else leb a.timestamp b.timestamp
    else leb b.timestamp a.timestamp

unfoldable pub message_page : ℕ → ℕ → String → String → List Message → List Message
message_page cid limit before after ms =
    take (page_limit limit)
      (sort_by (page_order before after) (select (in_page cid before after ms) ms))

-- ORDER BY id ASC
abbrev pub attachment_le : MessageAttachment → MessageAttachment → Bool
attachment_le a b = leb a.id b.id

module _ (env : Env) where
  unfoldable pub create_or_update_message : Message → Action Message
  create_or_update_message m =
      wrap "failed to create/update message" (statement env (upsert_message m))

  unfoldable pub create_message_attachment : MessageAttachment → Action MessageAttachment
  create_message_attachment a =
      wrap "failed to create message attachment" (statement env (upsert_attachment a))

  unfoldable pub get_message_by_id : ℕ → Action Message
  get_message_by_id id = do
    found ← wrap "failed to get message" (query env (λ t. find (has_message_id id) t.messages))
    or_fail (message "message not found") found

  unfoldable pub get_message_by_discord_id : String → Action Message
  get_message_by_discord_id d = do
    found ←
        wrap "failed to get message" (query env (λ t. find (has_discord_message_id d) t.messages))
    or_fail (message "message not found") found

  unfoldable pub get_messages_by_channel_id : ℕ → ℕ → String → String → Action (List Message)
  get_messages_by_channel_id cid limit before after =
      wrap "failed to query messages"
        (query env (λ t. message_page cid limit before after t.messages))

  unfoldable pub get_message_attachments_by_message_id : ℕ → Action (List MessageAttachment)
  get_message_attachments_by_message_id id = wrap "failed to query attachments" (
      query env
        (λ t. sort_by attachment_le (select (λ a. a.message_id == id) t.message_attachments)))

  unfoldable pub delete_message : String → Action (Unit {0})
  delete_message d = do
    rows ← wrap "failed to delete message" (statement env (delete_message_row d))
    if rows == 0 then raise (message "message not found") else pure tt

  unfoldable pub get_message_count_by_channel_id : ℕ → Action ℕ
  get_message_count_by_channel_id cid =
      wrap "failed to count messages" (query env (λ t. count (λ m. m.channel_id == cid) t.messages))
