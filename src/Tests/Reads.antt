-- ===== src/Tests/Reads.antt =====
-- Guilds, channels and messages that are read with and without access, from the tables and from
-- the remote side.
use discord_lite_server.Base.{
  ℕ, none, map, nat_eq, some, true, false, ◌≡◌, ◌≢◌, refl, arith, ◌==◌, leb, ◌+◌, List, [], ◌∷◌,
}
use discord_lite_server.Base.Rows.{find, any, select}
use discord_lite_server.Base.Lists.{length}
use discord_lite_server.Base.Sort.{sort_by, insert_by, IsOrdered}
use discord_lite_server.Effect.{IsErr, ok, statement, query, wrap}
use discord_lite_server.Database.Sessions.{has_session_id}
use discord_lite_server.Database.Channels.{has_channel_access, has_discord_channel_id}
use discord_lite_server.Database.Cache.{is_entry}
use discord_lite_server.Database.Messages.{
  message_page, in_page, page_order, page_limit, get_messages_by_channel_id,
}
use discord_lite_server.Database.Messages.Page.{
  IsPage, given, no_bound, get_messages_by_channel_id-IsPage,
}
use mathlib.Core.List.{Perm}
use discord_lite_server.Auth.Services.{Remote}
use discord_lite_server.Models.{Message}
use discord_lite_server.Models
use discord_lite_server.Grpc.MessageServer.{
  GetMessagesRequest, get_messages, convert_messages_to_proto,
}
use discord_lite_server.Grpc.MessageServer.Cached.{
  get_messages-cached, convert_messages_to_proto-map, shown, attachments_of, hit_of,
}
use discord_lite_server.Grpc.Access.{SignedIn, get_messages-access}
use discord_lite_server.Grpc.Denied.{later, get_messages-denied}
use discord_lite_server.Tests.Services.{env, remote, crypto, settings}
use discord_lite_server.Tests.Content.{session, general, hello, bye, entry, filled, full, api}

abbrev request : GetMessagesRequest
request = record {
  session_id = "s";
  channel_id = "c";
  limit = 50;
  before = "";
  after = "";
  force_refresh = false;
}

abbrev two_messages : List Message
two_messages = bye ∷ hello ∷ []

page : message_page 1 50 "" "" filled.messages ≡ two_messages
unfolding message_page in_page page_order page_limit select sort_by insert_by
page = refl

session_found : find (has_session_id "s") filled.auth_sessions ≡ some session
unfolding find
session_found = refl

member : has_channel_access 1 "c" filled ≡ true
unfolding has_channel_access any
member = refl

channel_found : find (has_discord_channel_id "c") filled.channels ≡ some general
unfolding find
channel_found = refl

entry_found : find (is_entry Models.message "c" (some 1)) filled.cache_metadata ≡ some entry
unfolding find
entry_found = refl

has_messages : message_page 1 50 "" "" filled.messages ≢ []
has_messages e = ground (arith, e, page)

get_messages-cached_example : get_messages env api remote crypto settings request full ≡ (
  ok (hit_of env (λ n. refl) api request filled (message_page 1 50 "" "" filled.messages)),
  later (6 + length (message_page 1 50 "" "" filled.messages)) full,
)
get_messages-cached_example =
    get_messages-cached env (λ n. refl) api remote crypto settings request session 1 general entry
      full refl refl session_found refl refl member channel_found entry_found refl has_messages

-- The response and the tables of that call.
hits : get_messages env api remote crypto settings request full ≡ (
  ok (hit_of env (λ n. refl) api request filled (message_page 1 50 "" "" filled.messages)),
  later (6 + length (message_page 1 50 "" "" filled.messages)) full,
)
hits =
    get_messages-cached env (λ n. refl) api remote crypto settings request session 1 general entry
      full refl refl session_found refl refl member channel_found entry_found refl has_messages

get_messages-access_example :
    (uid : ℕ) × SignedIn "s" uid filled × (has_channel_access uid "c" filled ≡ true)
get_messages-access_example =
    get_messages-access env remote api crypto settings request _ full _ hits

convert_messages_to_proto-map_example :
    (convert_messages_to_proto env api two_messages full
      ≡ (ok (map (λ m. shown api m (attachments_of filled m)) two_messages), later 2 full))
    × ((m : Message)
        → Perm
            (attachments_of filled m)
            (select (λ a. a.message_id == m.id) filled.message_attachments)
          × IsOrdered (λ a b. leb a.id b.id) (attachments_of filled m))
convert_messages_to_proto-map_example =
    convert_messages_to_proto-map env (λ n. refl) api two_messages full

abbrev elsewhere : GetMessagesRequest
elsewhere = record request { channel_id = "x" }

-- The session is one of user 1, who is no member there.
only_member : (uid : ℕ) → SignedIn "s" uid filled → has_channel_access uid "x" filled ≡ false
unfolding has_channel_access any find
only_member uid signed = ground arith

-- Another remote side and other settings, of which nothing is asked.
abbrev silent : Remote
silent = record remote { get = λ step path header. none }

get_messages-denied_example :
    IsErr (get_messages env api remote crypto settings elsewhere full).0
    × ((get_messages env api remote crypto settings elsewhere full).1.tables ≡ filled)
    × (get_messages env api remote crypto settings elsewhere full
        ≡ get_messages env api silent crypto settings elsewhere full)
get_messages-denied_example =
    get_messages-denied env remote silent api api crypto crypto settings settings elsewhere full
      only_member

abbrev newest : List Message
newest = bye ∷ []

reads_one : get_messages_by_channel_id env 1 1 "" "" full ≡ (ok newest, later 1 full)
unfolding get_messages_by_channel_id query statement wrap message_page in_page page_order page_limit
    select sort_by insert_by
reads_one = refl

get_messages_by_channel_id-IsPage_example :
    IsPage (λ m. m.channel_id == 1) (λ a b. leb b.timestamp a.timestamp) 1 filled.messages newest
get_messages_by_channel_id-IsPage_example =
    get_messages_by_channel_id-IsPage env 1 1 1 "" "" _ _ newest full (later 1 full)
      (given (omega arith) (omega arith)) no_bound reads_one

-- The page before the newer message, of a client that gives both bounds.
abbrev older : List Message
older = hello ∷ []
