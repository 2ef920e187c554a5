-- ===== src/Grpc/MessageServer/Writes.antt =====
-- GetMessages moves the tables along what its writes move them along.
use discord_lite_server.Base.{ℕ, String, Option, none, some, List, [], ◌∷◌}
use discord_lite_server.Models.{Message, Tables}
use discord_lite_server.Effect.{Env, Result, ok, err}
use discord_lite_server.Effect.Moves.{Order, Moves, Moves-bind, moves_rules}
use discord_lite_server.Database.Reads.{read_rules}
use discord_lite_server.Database.Stores.{Stores, store_rules}
use discord_lite_server.Auth.Services.{Crypto, Remote, Settings}
use discord_lite_server.Auth.Api.{DiscordMessage, DiscordAttachment, Api}
use discord_lite_server.Grpc.CacheManager.{set_message_cache}
use discord_lite_server.Grpc.Proto.{ProtoMessage}
use discord_lite_server.Grpc.ChannelServer.Writes.{service_rules, fresh_token_moves}
use discord_lite_server.Grpc.MessageServer.{
  GetMessagesRequest, convert_messages_to_proto, sent_at, store_attachments, with_attachments,
  store_message, store_messages, cached_messages, fetch_messages, answer_converted, answer_messages,
  get_messages,
}

-- Conversion only reads.
pub convert_messages_to_proto-quiet :
    {R : Tables → Tables → Type 0}
    → (o : Order R) (env : Env) (api : Api) (ms : List Message)
    → Moves R (convert_messages_to_proto env api ms)
unfolding convert_messages_to_proto
convert_messages_to_proto-quiet o env api [] = search (moves_rules, o)
convert_messages_to_proto-quiet o env api (m ∷ ms) =
    Moves-bind o _ _ (search (moves_rules, read_rules, o)) λ r.
      Moves-bind o _ _ (convert_messages_to_proto-quiet o env api ms)
        λ rest. search (moves_rules, o)

module _ {R : Tables → Tables → Type 0} (env : Env) (st : Stores R env) (api : Api) where
  sent_at_moves : (t : Option ℕ) → Moves R (sent_at env api t)
  sent_at_moves none = search (store_rules, st.order)
  sent_at_moves (some time) = search (store_rules, st.order)

  store_attachments_moves :
      (mid : ℕ) (atts : List DiscordAttachment) → Moves R (store_attachments env api mid atts)
  unfolding store_attachments
  store_attachments_moves mid [] = search (store_rules, st.order)
  store_attachments_moves mid (a ∷ rest) =
      Moves-bind st.order _ _ (search store_rules) λ r. store_attachments_moves mid rest

  with_attachments_moves :
      (atts : List DiscordAttachment) (r : Result Message)
      → Moves R (with_attachments env api atts r)
  with_attachments_moves atts (err e) = search (store_rules, st.order)
  with_attachments_moves atts (ok m) = search (store_rules, st.order, store_attachments_moves)

  store_message_moves : (cid : ℕ) (d : DiscordMessage) → Moves R (store_message env api cid d)
  unfolding store_message
  store_message_moves cid d =
      search (store_rules, st.order, sent_at_moves, with_attachments_moves) depth 8

  store_messages_moves :
      (cid : ℕ) (ds : List DiscordMessage) → Moves R (store_messages env api cid ds)
  unfolding store_messages
  store_messages_moves cid [] = search (store_rules, st.order)
  store_messages_moves cid (d ∷ ds) = Moves-bind st.order _ _ (store_message_moves cid d) λ m.
      Moves-bind st.order _ _ (store_messages_moves cid ds) λ ms. search (store_rules, st.order)

  cached_messages_moves :
      (req : GetMessagesRequest) (uid cid : ℕ) → Moves R (cached_messages env api req uid cid)
  unfolding cached_messages
  cached_messages_moves req uid cid = search (store_rules, st.order, service_rules) depth 8

  set_message_cache_moves :
      (channel_id : String) (uid : ℕ) → Moves R (set_message_cache env channel_id uid)
  unfolding set_message_cache
  set_message_cache_moves channel_id uid = search store_rules

  module _ (remote : Remote) (c : Crypto) (s : Settings) where
    fetch_messages_moves :
        (req : GetMessagesRequest) (uid cid : ℕ)
        → Moves R (fetch_messages env api remote c s req uid cid)
    unfolding fetch_messages
    fetch_messages_moves req uid cid =
        search
          (
            store_rules,
            st.order,
            service_rules,
            fresh_token_moves env st remote c s,
            store_messages_moves,
            set_message_cache_moves,
            convert_messages_to_proto-quiet,
          )
          depth 12

    answer_converted_moves :
        (req : GetMessagesRequest) (uid cid rows : ℕ) (r : Result (List ProtoMessage))
        → Moves R (answer_converted env api remote c s req uid cid rows r)
    answer_converted_moves req uid cid rows (err e) = fetch_messages_moves req uid cid
    answer_converted_moves req uid cid rows (ok messages) = search (store_rules, st.order)

    answer_messages_moves :
        (req : GetMessagesRequest) (uid cid : ℕ) (ms : List Message)
        → Moves R (answer_messages env api remote c s req uid cid ms)
    answer_messages_moves req uid cid [] = fetch_messages_moves req uid cid
    answer_messages_moves req uid cid (m ∷ ms) =
        search (store_rules, st.order, convert_messages_to_proto-quiet, answer_converted_moves)

    pub get_messages_moves :
        (req : GetMessagesRequest) → Moves R (get_messages env api remote c s req)
    unfolding get_messages
    get_messages_moves req =
        search (store_rules, st.order, service_rules, cached_messages_moves, answer_messages_moves)
          depth 12
