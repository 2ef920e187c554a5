-- ===== src/Websocket/Events/Writes.antt =====
-- The event handlers move the tables along what their writes move them along.
use discord_lite_server.Base.{ℕ, String, Option, none, some, List, [], ◌∷◌}
use discord_lite_server.Models.{Message, MessageAttachment, Channel, Tables}
use discord_lite_server.Effect.{Env, Action, Result, ok, err}
use discord_lite_server.Effect.Moves.{Moves, Moves-bind}
use discord_lite_server.Database.Reads.{read_rules}
use discord_lite_server.Database.Stores.{Stores, store_rules}
use discord_lite_server.Auth.Api.{Api}
use discord_lite_server.Grpc.Proto.{ProtoMessage, MessageEventType}
use discord_lite_server.Websocket.Channels.{Outcome, done, panics}
use discord_lite_server.Websocket.Events.{
  GatewayAttachment, GatewayMessage, DiscordMessageDelete, Decoder, Events, event_time,
  event_attachment, store_event_attachment, and_then, store_event_attachments, broadcast_message,
  after_attachments, create_in, handle_message_create, update_in, update_found,
  handle_message_update, delete_found, handle_message_delete,
}

module _ {R : Tables → Tables → Type 0} (env : Env) (st : Stores R env) (api : Api)
    (decoder : Decoder) where
  event_time_moves : (t : Option ℕ) → Moves R (event_time env api decoder t)
  event_time_moves none = search (store_rules, st.order)
  event_time_moves (some time) = search (store_rules, st.order)

  store_event_attachment_moves :
      (o : Outcome MessageAttachment) → Moves R (store_event_attachment env api decoder o)
  store_event_attachment_moves panics = search (store_rules, st.order)
  store_event_attachment_moves (done a) = search (store_rules, st.order)

  and_then_moves :
      (o : Outcome (Unit {0})) (m : Action (Outcome (Unit {0})))
      → Moves R m
      → Moves R (and_then env api decoder o m)
  and_then_moves panics m k = search (store_rules, st.order)
  and_then_moves (done u) m k = k

  store_event_attachments_moves :
      (mid : ℕ) (atts : List GatewayAttachment)
      → Moves R (store_event_attachments env api decoder mid atts)
  unfolding store_event_attachments
  store_event_attachments_moves mid [] = search (store_rules, st.order)
  store_event_attachments_moves mid (a ∷ rest) =
      Moves-bind st.order _ _ (store_event_attachment_moves (event_attachment mid a))
        λ o. and_then_moves o _ (store_event_attachments_moves mid rest)

  broadcast_message_moves :
      (kind : MessageEventType) (channel_id : String) (m : ProtoMessage) (manager : Events)
      → Moves R (broadcast_message env api decoder kind channel_id m manager)
  unfolding broadcast_message
  broadcast_message_moves kind channel_id m manager = search (store_rules, st.order)

  after_attachments_moves :
      (d : GatewayMessage) (m : Message) (manager : Events) (o : Outcome (Unit {0}))
      → Moves R (after_attachments env api decoder d m manager o)
  after_attachments_moves d m manager panics = search (store_rules, st.order)
  after_attachments_moves d m manager (done u) = broadcast_message_moves _ _ _ manager

  create_in_moves :
      (d : GatewayMessage) (manager : Events) (r : Result Channel)
      → Moves R (create_in env api decoder d manager r)
  create_in_moves d manager (err e) = search (store_rules, st.order)
  create_in_moves d manager (ok c) =
      search
        (
          store_rules, st.order, event_time_moves, store_event_attachments_moves,
          after_attachments_moves,
        )
        depth 8

  pub handle_message_create_moves :
      (payload : String) (manager : Events)
      → Moves R (handle_message_create env api decoder payload manager)
  unfolding handle_message_create
  handle_message_create_moves payload manager =
      search (store_rules, st.order, read_rules, create_in_moves) depth 8

  update_in_moves :
      (d : GatewayMessage) (manager : Events) (old : Message) (r : Result Channel)
      → Moves R (update_in env api decoder d manager old r)
  update_in_moves d manager old (err e) = search (store_rules, st.order)
  update_in_moves d manager old (ok c) = search (store_rules, st.order, broadcast_message_moves)

  update_found_moves :
      (d : GatewayMessage) (manager : Events) (r : Result Message)
      → Moves R (update_found env api decoder d manager r)
  update_found_moves d manager (err e) = search (store_rules, st.order)
  update_found_moves d manager (ok old) =
      search (store_rules, st.order, read_rules, update_in_moves)

  pub handle_message_update_moves :
      (payload : String) (manager : Events)
      → Moves R (handle_message_update env api decoder payload manager)
  unfolding handle_message_update
  handle_message_update_moves payload manager =
      search (store_rules, st.order, read_rules, update_found_moves) depth 8

  delete_found_moves :
      (d : DiscordMessageDelete) (manager : Events) (r : Result Message)
      → Moves R (delete_found env api decoder d manager r)
  delete_found_moves d manager (err e) = search (store_rules, st.order)
  delete_found_moves d manager (ok m) = search (store_rules, st.order, broadcast_message_moves)

  pub handle_message_delete_moves :
      (payload : String) (manager : Events)
      → Moves R (handle_message_delete env api decoder payload manager)
  unfolding handle_message_delete
  handle_message_delete_moves payload manager =
      search (store_rules, st.order, read_rules, delete_found_moves) depth 8
