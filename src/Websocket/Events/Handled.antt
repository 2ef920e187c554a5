-- ===== src/Websocket/Events/Handled.antt =====
-- internal/websocket/events.go: what a MESSAGE_CREATE event leads to.
use discord_lite_server.Base.{
  ℕ, suc, ◌≡◌, refl, sym, subst, ◌∙◌, ap, Bool, true, false, String, Option, none, some, List, [],
  ◌∷◌, nat_eq, string_eq, arith, inl, inr, Option-cases, if◌then◌else◌,
}
use discord_lite_server.Base.Rows.{find, any}
use discord_lite_server.Models.{Message, MessageAttachment, Channel}
use discord_lite_server.Effect.{
  Env, World, Action, ok, statement, query, wrap, attempt, now, pure, or_fail, ◌>>=◌,
}
use discord_lite_server.Effect.Returned.{bind-value, statement-ok, wrap-ok}
use discord_lite_server.Database.Messages.Stored.{stored_row, upsert_message-find}
use discord_lite_server.Websocket.Events.Shown.{
  shown_event, given_row, event_row-given, convert_to_proto_message-shown, attachments_kept,
  broadcast_kept,
}
use discord_lite_server.Database.Channels.{
  has_channel_id, has_discord_channel_id, get_channel_by_discord_id,
}
use discord_lite_server.Database.Messages.{
  has_discord_message_id, upsert_message, create_or_update_message, create_message_attachment,
}
use discord_lite_server.Auth.Api.{Api}
use discord_lite_server.Grpc.Proto.{MessageEvent, message_created}
use discord_lite_server.Websocket.Channels.{Outcome, done, panics}
use discord_lite_server.Websocket.Manager.{broadcast_event}
use discord_lite_server.Websocket.Events.{
  GatewayAttachment, GatewayMessage, Decoder, Events, event_row, event_attachment, event_time,
  sized, and_then, after_attachments, convert_to_proto_message, store_event_attachment,
  store_event_attachments, broadcast_message, create_in, handle_message_create,
}

abbrev pub is_given : Option ℕ → Bool
is_given none = false
is_given (some n) = true

abbrev pub both_given : Option ℕ → Option ℕ → Bool
both_given width height = if is_given width then is_given height else false

-- An attachment that is no image has no width and no height.
unfoldable pub all_have_size : List GatewayAttachment → Bool
all_have_size [] = true
all_have_size (a ∷ rest) =
    let others = all_have_size rest in if both_given a.width a.height then others else false

abbrev Fits : Outcome MessageAttachment → Bool → Type 0
Fits (done a) true = Unit
Fits (done a) false = ⊥
Fits panics true = ⊥
Fits panics false = Unit

sized-Fits :
    (mid : ℕ) (a : GatewayAttachment) (width height : Option ℕ)
    → Fits (sized mid a width height) (both_given width height)
sized-Fits mid a none height = tt
sized-Fits mid a (some width) none = tt
sized-Fits mid a (some width) (some height) = tt

find-any : {A : Type 0} (p : A → Bool) (xs : List A) (a : A) → find p xs ≡ some a → any p xs ≡ true
unfolding find any
find-any p [] a e = absurd (ground arith)
find-any p (x ∷ xs) a e = ground (arith, find-any p xs a)

module _ (env : Env) (api : Api) (decoder : Decoder) where
  stored_next :
      (o : Outcome MessageAttachment) (b others : Bool) (rest : Action (Outcome (Unit {0})))
      → Fits o b
      → ((w : World) → (rest w).0 ≡ ok (if others then done tt else panics))
      → (w : World)
      → ((store_event_attachment env api decoder o >>= λ stored.
            and_then env api decoder stored rest)
          w).0
        ≡ ok (if (if b then others else false) then done tt else panics)
  unfolding attempt ◌>>=◌
  stored_next (done a) true others rest h k w = k (attempt (create_message_attachment env a) w).1
  stored_next (done a) false others rest h k w = absurd h
  stored_next panics true others rest h k w = absurd h
  stored_next panics false others rest h k w = refl

  -- Whatever the database does.
  attachments_stored :
      (mid : ℕ) (atts : List GatewayAttachment) (w : World)
      → (store_event_attachments env api decoder mid atts w).0
        ≡ ok (if all_have_size atts then done tt else panics)
  unfolding store_event_attachments all_have_size pure
  attachments_stored mid [] w = refl
  attachments_stored mid (a ∷ rest) w =
      stored_next (event_attachment mid a) (both_given a.width a.height) (all_have_size rest)
        (store_event_attachments env api decoder mid rest) (sized-Fits mid a a.width a.height)
        (attachments_stored mid rest) w

  -- A message comes back from the store with an id and two times of its own.
  abbrev numbered : Message → ℕ → ℕ → ℕ → Message
  numbered m id created updated = record m { id = id; created_at = created; updated_at = updated }

  row_stored :
      (m : Message) (w : World)
      → env.fails w.step ≡ false
      → any (has_channel_id m.channel_id) w.tables.channels ≡ true
      → (id created updated : ℕ) × ((create_or_update_message env m w).0
          ≡ ok (numbered m id created updated))
  unfolding create_or_update_message upsert_message statement wrap
  row_stored m w up there =
      elim (Option-cases (find (has_discord_message_id m.discord_message_id) w.tables.messages)) [
        | inl new ↦ (w.tables.next_message, env.clock w.step, env.clock w.step, ground arith)
        | inr (old, known) ↦ (old.id, old.created_at, env.clock w.step, ground arith)
      ]

  -- The event that the clients get.
  abbrev pub created_event : GatewayMessage → Message → ℕ → MessageEvent
  created_event d m instant = record {
    event_type = message_created;
    message = convert_to_proto_message api d m;
    timestamp = api.unix_milli instant;
  }

  channel_read :
      (d : GatewayMessage) (ch : Channel) (w : World)
      → find (has_discord_channel_id d.channel_id) w.tables.channels ≡ some ch
      → env.fails w.step ≡ false
      → get_channel_by_discord_id env d.channel_id w ≡ (ok ch, record w { step = suc w.step })
  unfolding get_channel_by_discord_id query statement wrap or_fail ◌>>=◌
  channel_read d ch w e up = ground arith

  broadcast_after :
      (d : GatewayMessage) (m : Message) (manager : Events) (w : World) (b : Bool)
      → (instant : ℕ) × ((after_attachments env api decoder d m manager
            (if b then done tt else panics)
            w).0
          ≡ ok (
              if b
              then broadcast_event d.channel_id (created_event d m instant) manager
              else panics))
  unfolding broadcast_message now pure ◌>>=◌
  broadcast_after d m manager w true = (env.clock w.step, refl)
  broadcast_after d m manager w false = (0, refl)

  event_time-some :
      {B : Type 0}
      → (f : ℕ → Action B) (time : ℕ) (w : World)
      → (event_time env api decoder (some time) >>= f) w ≡ f time w
  unfolding pure ◌>>=◌
  event_time-some f time w = refl

  opened :
      (payload : String) (d : GatewayMessage) (ch : Channel) (manager : Events) (w : World)
      → decoder.decode_message payload ≡ some d
      → get_channel_by_discord_id env d.channel_id w ≡ (ok ch, record w { step = suc w.step })
      → handle_message_create env api decoder payload manager w
        ≡ create_in env api decoder d manager (ok ch) (record w { step = suc w.step })
  unfolding handle_message_create wrap or_fail attempt ◌>>=◌
  opened payload d ch manager w p e = ground (arith, p, e)

  created_event-shown :
      (d : GatewayMessage) (cid time id created updated instant : ℕ)
      → created_event d (numbered (event_row api cid d time) id created updated) instant
        ≡ shown_event api d time instant
  created_event-shown d cid time id created updated instant =
      ap
        (λ m. record {
          event_type = message_created;
          message = m;
          timestamp = api.unix_milli instant;
        })
        (convert_to_proto_message-shown api d
          (numbered (event_row api cid d time) id created updated) time instant refl refl refl)

  -- The row that the message of the event has become.
  abbrev pub Recorded : GatewayMessage → ℕ → ℕ → World → ℕ → World → Type 0
  Recorded d cid time w instant w' =
      find (has_discord_message_id d.id) w'.tables.messages
      ≡ some (
          stored_row (given_row api cid d time) w.tables.next_message instant
            (find (has_discord_message_id d.id) w.tables.messages))

  row-Recorded :
      (d : GatewayMessage) (cid time : ℕ) (r : Message) (w : World)
      → (create_or_update_message env (event_row api cid d time) w).0 ≡ ok r
      → Recorded d cid time w
          (env.clock w.step)
          (create_or_update_message env (event_row api cid d time) w).1
  unfolding create_or_update_message
  row-Recorded d cid time r w e =
      let m = event_row api cid d time in
      let w1 = (create_or_update_message env m w).1 in
      let ran : create_or_update_message env m w ≡ (ok r, w1) = ap (λ z. (z, w1)) e in
      subst
        (λ (row : Message).
          find (has_discord_message_id d.id) w1.tables.messages
          ≡ some (
              stored_row row w.tables.next_message (env.clock w.step)
                (find (has_discord_message_id d.id) w.tables.messages)))
        (event_row-given api cid d time)
        (upsert_message-find m (env.clock w.step) w.tables r w1.tables
          (statement-ok env (upsert_message m) r w w1 (wrap-ok _ _ r w w1 ran)))

  create_in-outcome :
      (d : GatewayMessage) (ch : Channel) (manager : Events) (time : ℕ) (w : World)
      → find (has_channel_id ch.id) w.tables.channels ≡ some ch
      → api.parse_time d.timestamp ≡ some time
      → env.fails w.step ≡ false
      → (instant : ℕ) × ((create_in env api decoder d manager (ok ch) w).0
          ≡ ok (
              if all_have_size d.attachments
              then broadcast_event d.channel_id (shown_event api d time instant) manager
              else panics))
        × Recorded d ch.id time w
            (env.clock w.step)
            (create_in env api decoder d manager (ok ch) w).1
  create_in-outcome d ch manager time w there parses up =
      let m = event_row api ch.id d time in
      let (id, created, updated, e) =
        row_stored m w up (find-any (has_channel_id ch.id) w.tables.channels ch there) in
      let r = numbered m id created updated in
      let w1 = (create_or_update_message env m w).1 in
      let stored = store_event_attachments env api decoder id d.attachments in
      let (instant, last) =
        broadcast_after d r manager (stored w1).1 (all_have_size d.attachments) in
      let outcome = if all_have_size d.attachments then done tt else panics in
      let run =
        chain parses
        ∙ bind-value _ _ r w e
        ∙ bind-value _ _ outcome w1 (attachments_stored id d.attachments w1) in
      let kept =
        (attachments_kept env api decoder id d.attachments).at w1
        ∙ (broadcast_kept env api decoder d r manager outcome).at (stored w1).1
        ∙ sym (ap (λ p. p.1.tables.messages) run) in
      (
        instant,
        ap (λ p. p.0) run
            ∙ last
            ∙ ap
                (λ v. ok (
                  if all_have_size d.attachments
                  then broadcast_event d.channel_id v manager
                  else panics))
                (created_event-shown d ch.id time id created updated instant),
        ap (find (has_discord_message_id d.id)) (sym kept) ∙ row-Recorded d ch.id time r w e,
      )
    where
      chain :
          api.parse_time d.timestamp ≡ some time
          → create_in env api decoder d manager (ok ch) w
            ≡ (create_or_update_message env (event_row api ch.id d time) >>= λ m.
                  store_event_attachments env api decoder m.id d.attachments >>= λ stored.
                  after_attachments env api decoder d m manager stored)
                w
      chain p = rw p (event_time-some _ time w)

  -- With a database that answers the first two statements, and an event whose time can be read:
  -- the message of a stored channel is in the table (a new one as the event has it, of a known one
  -- with the content and the edit of the event), and is sent to the subscribers of the channel as
  -- the event has it, field by field, unless some attachment has no width or no height, as one
  -- that is no image: that event ends the process.
  pub handle_message_create-outcome :
      (payload : String) (d : GatewayMessage) (ch : Channel) (manager : Events) (time : ℕ)
      (w : World)
      → decoder.decode_message payload ≡ some d
      → find (has_discord_channel_id d.channel_id) w.tables.channels ≡ some ch
      → find (has_channel_id ch.id) w.tables.channels ≡ some ch
      → api.parse_time d.timestamp ≡ some time
      → env.fails w.step ≡ false
      → env.fails (suc w.step) ≡ false
      → (instant : ℕ) × ((handle_message_create env api decoder payload manager w).0
          ≡ ok (
              if all_have_size d.attachments
              then broadcast_event d.channel_id (shown_event api d time instant) manager
              else panics))
        × Recorded d ch.id time w
            (env.clock (suc w.step))
            (handle_message_create env api decoder payload manager w).1
  unfolding handle_message_create
  handle_message_create-outcome payload d ch manager time w decodes known there parses up still =
      let w1 : World = record w { step = suc w.step } in
      let (instant, last, row) = create_in-outcome d ch manager time w1 there parses still in
      let same = ap (λ p. p.1.tables.messages) (start decodes) in
      (
        instant,
        ap (λ p. p.0) (start decodes) ∙ last,
        ap (find (has_discord_message_id d.id)) same ∙ row,
      )
    where
      start :
          decoder.decode_message payload ≡ some d
          → handle_message_create env api decoder payload manager w
            ≡ create_in env api decoder d manager (ok ch) (record w { step = suc w.step })
      start p = opened payload d ch manager w p (channel_read d ch w known up)
