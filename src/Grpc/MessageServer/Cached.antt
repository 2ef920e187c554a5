-- ===== src/Grpc/MessageServer/Cached.antt =====
-- internal/grpc/message_service.go: convertMessagesToProto, and GetMessages with a valid cache.
use discord_lite_server.Base.{
  ℕ, suc, ◌+◌, ◌≡◌, ◌≢◌, refl, sym, ap, Bool, none, true, false, String, some, List, [], ◌∷◌, map,
  ◌==◌, nat_eq, string_eq, arith, leb, ◌%◌, Option,
}
use mathlib.Core.Option
use mathlib.Core.List.{Perm}
use discord_lite_server.Base.Rows.{find, select}
use discord_lite_server.Base.Lists.{length}
use discord_lite_server.Base.Sort.{sort_by, sort_by-Perm, sort_by-IsOrdered, IsOrdered}
use discord_lite_server.Models.{
  AuthSession, authenticated, Channel, Message, MessageAttachment, CacheMetadata, cache_is_valid,
  Tables, string_or_empty,
}
use discord_lite_server.Models
use discord_lite_server.Effect.{
  Env, World, ok, query, statement, attempt, wrap, or_return, or_fail, now, catch, ◌>>=◌,
}
use discord_lite_server.Database.Sessions.{has_session_id}
use discord_lite_server.Database.Cache.{is_entry, get_cache_metadata, is_cache_valid}
use discord_lite_server.Database.Channels.{
  has_channel_access, has_discord_channel_id, user_has_channel_access, get_channel_by_discord_id,
}
use discord_lite_server.Database.Messages.{
  message_page, get_messages_by_channel_id, get_message_attachments_by_message_id,
}
use discord_lite_server.Auth.Services.{Crypto, Remote, Settings}
use discord_lite_server.Auth.Api.{Api}
use discord_lite_server.Grpc.CacheManager.{check_message_cache}
use discord_lite_server.Grpc.Denied.{later, session_user-found}
use discord_lite_server.Grpc.Proto.{ProtoMessage, ProtoAttachment, optional_int32}
use discord_lite_server.Grpc.MessageServer.{
  GetMessagesRequest, GetMessagesResponse, edited_milli, convert_attachment, convert_message,
  convert_messages_to_proto, is_first_page, cached_messages, answer_messages, get_messages,
}

-- The stored attachments of a message, by their ids.
abbrev by_id : MessageAttachment → MessageAttachment → Bool
by_id a b = leb a.id b.id

abbrev pub attachments_of : Tables → Message → List MessageAttachment
attachments_of t m = sort_by by_id (select (λ a. a.message_id == m.id) t.message_attachments)

-- What a client is shown of a stored attachment and of a stored message, field by field. Texts
-- that are NULL are shown as empty, numbers as their lower 32 bits, times as milliseconds.
abbrev shown_attachment : MessageAttachment → ProtoAttachment
shown_attachment a = record {
  attachment_id = a.attachment_id;
  filename = a.filename;
  url = a.url;
  proxy_url = string_or_empty a.proxy_url;
  size_bytes = a.size_bytes % 4294967296;
  width = Option.map (λ n. n % 4294967296) a.width;
  height = Option.map (λ n. n % 4294967296) a.height;
  content_type = string_or_empty a.content_type;
}

abbrev pub shown : Api → Message → List MessageAttachment → ProtoMessage
shown api m attachments = record {
  discord_message_id = m.discord_message_id;
  channel_id = api.itoa m.channel_id;
  author = record {
    discord_id = m.author_id;
    username = m.author_username;
    discriminator = "";
    avatar = string_or_empty m.author_avatar;
  };
  content = string_or_empty m.content;
  timestamp = api.unix_milli m.timestamp;
  edited_timestamp = Option.map api.unix_milli m.edited_timestamp;
  kind = m.message_type % 4294967296;
  referenced_message_id = m.referenced_message_id;
  attachments = map shown_attachment attachments;
}

-- The answer as a function of the tables.
pub answer_of : Api → Tables → List Message → List ProtoMessage
answer_of api t ms = map (λ m. shown api m (attachments_of t m)) ms

by_id-total : (a b : MessageAttachment) → by_id a b ≡ false → by_id b a ≡ true
by_id-total a b = ground arith

by_id-chain : (a b c : MessageAttachment) → by_id a b ≡ true → by_id b c ≡ true → by_id a c ≡ true
by_id-chain a b c = ground arith

optional_int32-map : (o : Option ℕ) → optional_int32 o ≡ Option.map (λ n. n % 4294967296) o
optional_int32-map none = refl
optional_int32-map (some n) = refl

edited_milli-map : (api : Api) (o : Option ℕ) → edited_milli api o ≡ Option.map api.unix_milli o
edited_milli-map api none = refl
edited_milli-map api (some n) = refl

attachments_shown :
    (xs : List MessageAttachment) → map convert_attachment xs ≡ map shown_attachment xs
attachments_shown [] = refl
attachments_shown (a ∷ xs) =
    rw (sym (optional_int32-map a.width), sym (optional_int32-map a.height))
      (ap (λ l. convert_attachment a ∷ l) (attachments_shown xs))

convert_message-shown :
    (api : Api) (m : Message) (xs : List MessageAttachment)
    → convert_message api m xs ≡ shown api m xs
convert_message-shown api m xs =
    rw (sym (edited_milli-map api m.edited_timestamp), sym (attachments_shown xs)) refl

module _ (env : Env) (up : (n : ℕ) → env.fails n ≡ false) (api : Api) where
  attachments_read :
      (m : Message) (w : World)
      → attempt (get_message_attachments_by_message_id env m.id) w
        ≡ (ok (ok (attachments_of w.tables m)), later (suc w.step) w)
  unfolding get_message_attachments_by_message_id query statement wrap attempt
  attachments_read m w = ground (arith, up w.step)

  messages_shown :
      (ms : List Message) (w : World)
      → convert_messages_to_proto env api ms w
        ≡ (ok (answer_of api w.tables ms), later (w.step + length ms) w)
  unfolding convert_messages_to_proto ◌>>=◌ answer_of
  messages_shown [] w = ground arith
  messages_shown (m ∷ ms) w = ground (
    arith,
    convert_message-shown api m (attachments_of w.tables m),
    attachments_read m w,
    messages_shown ms (later (suc w.step) w),
  )

  -- With a database that answers, the loop that reads the attachments of one message after the
  -- other shows each message, in their order, as it is stored: field by field, with the attachments
  -- that refer to it, by their ids. No table changes, and each message costs one read.
  pub convert_messages_to_proto-map :
      (ms : List Message) (w : World)
      → (convert_messages_to_proto env api ms w ≡ (
        ok (map (λ m. shown api m (attachments_of w.tables m)) ms),
        later (w.step + length ms) w,
      ))
        × ((m : Message)
            → Perm
                (attachments_of w.tables m)
                (select (λ a. a.message_id == m.id) w.tables.message_attachments)
              × IsOrdered (λ a b. leb a.id b.id) (attachments_of w.tables m))
  unfolding answer_of
  convert_messages_to_proto-map ms w = (messages_shown ms w, by_ids)
    where
      by_ids :
          (m : Message)
          → Perm
              (attachments_of w.tables m)
              (select (λ a. a.message_id == m.id) w.tables.message_attachments)
            × IsOrdered (λ a b. leb a.id b.id) (attachments_of w.tables m)
      by_ids m = (sort_by-Perm by_id _, sort_by-IsOrdered by_id by_id-total by_id-chain _)

  cache_checked :
      (channel_id : String) (uid : ℕ) (entry : CacheMetadata) (w : World)
      → find (is_entry Models.message channel_id (some uid)) w.tables.cache_metadata ≡ some entry
      → cache_is_valid (env.clock (suc w.step)) entry ≡ true
      → check_message_cache env channel_id uid w ≡ (ok true, later (suc (suc w.step)) w)
  unfolding check_message_cache is_cache_valid get_cache_metadata query statement wrap attempt catch
      now ◌>>=◌
  cache_checked channel_id uid entry w e v = ground (arith, up w.step, up (suc w.step))

  rows_read :
      (req : GetMessagesRequest) (uid cid : ℕ) (entry : CacheMetadata) (w : World)
      → find (is_entry Models.message req.channel_id (some uid)) w.tables.cache_metadata
        ≡ some entry
      → cache_is_valid (env.clock (suc w.step)) entry ≡ true
      → cached_messages env api req uid cid w ≡ (
        ok (message_page cid req.limit "" "" w.tables.messages),
        later (suc (suc (suc w.step))) w,
      )
  unfolding cached_messages get_messages_by_channel_id query statement wrap attempt ◌>>=◌
  rows_read req uid cid entry w e v =
      ground (arith, cache_checked req.channel_id uid entry w e v, up (suc (suc w.step)))

  -- The response of a hit.
  pub hit_of : GetMessagesRequest → Tables → List Message → GetMessagesResponse
  hit_of req t rows = record {
    messages = answer_of api t rows;
    from_cache = true;
    has_more = length rows == req.limit;
  }

  module _ (remote : Remote) (c : Crypto) (s : Settings) (req : GetMessagesRequest)
      (uid cid : ℕ) where
    answered :
        (rows : List Message) (w : World)
        → rows ≢ []
        → answer_messages env api remote c s req uid cid rows w
          ≡ (ok (hit_of req w.tables rows), later (w.step + length rows) w)
    unfolding hit_of attempt ◌>>=◌
    answered [] w ne = absurd (ne refl)
    answered (m ∷ ms) w ne = ground (arith, messages_shown (m ∷ ms) w)

    channel_read :
        (ch : Channel) (w : World)
        → has_channel_access uid req.channel_id w.tables ≡ true
        → find (has_discord_channel_id req.channel_id) w.tables.channels ≡ some ch
        → (user_has_channel_access env uid req.channel_id w ≡ (ok true, later (suc w.step) w))
          × (get_channel_by_discord_id env req.channel_id w ≡ (ok ch, later (suc w.step) w))
    unfolding user_has_channel_access get_channel_by_discord_id query statement wrap or_fail ◌>>=◌
    channel_read ch w e f = (ground (arith, up w.step), ground (arith, up w.step))

  -- With a database that answers: to the user of an authenticated session who has access to the
  -- channel, the first page of a channel whose cache entry for that user has not expired, and of
  -- which messages are stored, is answered from the tables. The answer is the page of stored
  -- messages and their attachments, no table changes, and the remote side has no part in it: the
  -- only steps are the five reads and the reading of the clock, and one read for each message.
  pub get_messages-cached :
      (remote : Remote) (c : Crypto) (s : Settings) (req : GetMessagesRequest) (row : AuthSession)
      (uid : ℕ) (ch : Channel) (entry : CacheMetadata) (w : World)
      → req.force_refresh ≡ false
      → is_first_page req ≡ true
      → find (has_session_id req.session_id) w.tables.auth_sessions ≡ some row
      → row.auth_status ≡ authenticated
      → row.user_id ≡ some uid
      → has_channel_access uid req.channel_id w.tables ≡ true
      → find (has_discord_channel_id req.channel_id) w.tables.channels ≡ some ch
      → find (is_entry Models.message req.channel_id (some uid)) w.tables.cache_metadata
        ≡ some entry
      → cache_is_valid (env.clock (w.step + 4)) entry ≡ true
      → message_page ch.id req.limit "" "" w.tables.messages ≢ []
      → let rows = message_page ch.id req.limit "" "" w.tables.messages in
        get_messages env api remote c s req w
        ≡ (ok (hit_of req w.tables rows), later (w.step + 6 + length rows) w)
  unfolding get_messages or_return ◌>>=◌
  get_messages-cached remote c s req row uid ch entry w fresh first found signed user access known
        cached valid stored =
      ground (
        arith,
        session_user-found env req.session_id row uid w found signed user (up w.step),
        channel_read remote c s req uid ch.id ch (later (suc w.step) w) access known,
        channel_read remote c s req uid ch.id ch (later (suc (suc w.step)) w) access known,
        rows_read req uid ch.id entry (later (suc (suc (suc w.step))) w) cached,
        answered remote c s req uid ch.id (message_page ch.id req.limit "" "" w.tables.messages)
            (later (suc (suc (suc (suc (suc (suc w.step)))))) w) stored,
      )
