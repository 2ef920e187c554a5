-- ===== src/Grpc/MessageServer/Stream.antt =====
-- internal/grpc/message_service.go: StreamMessages, with what its select receives as a list.
-- An error's text stands without the cause that the code appends to it.
pub mod Access
use Prim.Native.String.{◌++◌}
use discord_lite_server.Base.{
  ℕ, Bool, true, false, String, Option, none, some, List, [], ◌∷◌, ◌==◌, string_eq, if◌then◌else◌,
}
use discord_lite_server.Models.{AuthSession}
use discord_lite_server.Effect.{
  Env, Action, Result, ok, err, Error, status, invalid_argument, permission_denied, internal,
  unauthenticated, unavailable, canceled, aborted, raise, pure, or_return, or_fail, ◌>>=◌, ◌>>◌,
}
use discord_lite_server.Database.Sessions.{get_auth_session}
use discord_lite_server.Database.Channels.{user_has_channel_access}
use discord_lite_server.Auth.Services.{Crypto, Remote, Settings}
use discord_lite_server.Grpc.Session.{require}
use discord_lite_server.Websocket.Channels.{Outcome, done}
use discord_lite_server.Websocket.Manager.{Manager, unsubscribe}
use discord_lite_server.Websocket.Manager.Connections.{subscribe}

pub record StreamMessagesRequest : Type 0 where
  pub session_id : String
  pub channel_ids : List String

-- What one round of the loop meets: the context is done, the channel is closed, or an event
-- comes, which the client takes or not.
pub data Signal (E : Type 0) : Type 0 where
  context_done channel_closed : Signal E
  taken refused : E → Signal E

-- The error that ends the loop, `none` while it runs.
unfoldable pub forward : {E : Type 0} → List (Signal E) → Option Error
forward [] = none
forward (context_done ∷ rest) = some (status canceled "stream cancelled")
forward (channel_closed ∷ rest) = some (status aborted "event stream closed")
forward (taken e ∷ rest) = forward rest
forward (refused e ∷ rest) = some (status internal "failed to send event")

-- The events that the client has.
unfoldable pub sent : {E : Type 0} → List (Signal E) → List E
sent [] = []
sent (context_done ∷ rest) = []
sent (channel_closed ∷ rest) = []
sent (taken e ∷ rest) = e ∷ sent rest
sent (refused e ∷ rest) = []

pub record Streamed (E : Type 0) : Type 0 where
  pub answer : Option Error
  pub events : List E
  pub manager : Outcome (Manager E)

-- The deferred Unsubscribe runs where the loop ends.
abbrev pub cleaned_up :
    {E : Type 0} → ℕ → List String → Manager E → Option Error → Outcome (Manager E)
cleaned_up uid channel_ids m none = done m
cleaned_up uid channel_ids m (some e) = unsubscribe uid channel_ids m

unfoldable pub run_stream :
    {E : Type 0} → ℕ → List String → List (Signal E) → Result ℕ × Manager E → Streamed E
run_stream uid channel_ids signals (err e, m) = record {
  answer = some (status internal "failed to subscribe to message events");
  events = [];
  manager = done m;
}
run_stream uid channel_ids signals (ok id, m) = record {
  answer = forward signals;
  events = sent signals;
  manager = cleaned_up uid channel_ids m (forward signals);
}

abbrev pub is_empty : List String → Bool
is_empty [] = true
is_empty (c ∷ cs) = false

module _ (env : Env) where
  unfoldable pub check_access : ℕ → List String → Action (Unit {0})
  check_access uid [] = pure tt
  check_access uid (channel_id ∷ rest) = do
    has_access ←
        or_return (status internal "failed to verify channel access")
          (user_has_channel_access env uid channel_id)
    require has_access (raise (status permission_denied ("no access to channel: " ++ channel_id)))
    check_access uid rest

  -- The status of the session is not looked at, only its user.
  unfoldable pub admit_stream : StreamMessagesRequest → Action ℕ
  admit_stream req =
      if req.session_id == ""
      then raise (status invalid_argument "session_id is required")
      else if is_empty req.channel_ids
      then raise (status invalid_argument "at least one channel_id is required")
      else (do
        session ←
            or_return (status unauthenticated "invalid session")
              (get_auth_session env req.session_id)
        uid ← or_fail (status unauthenticated "session not authenticated") session.user_id
        check_access uid req.channel_ids
        pure uid)

  module _ {E : Type 0} (remote : Remote) (c : Crypto) (s : Settings) where
    unfoldable pub stream_messages :
        StreamMessagesRequest → List (Signal E) → Manager E → Action (Streamed E)
    stream_messages req signals m =
        if m.enabled
        then (do
          uid ← admit_stream req
          r ← subscribe env remote c s uid req.channel_ids m
          pure (run_stream uid req.channel_ids signals r))
        else raise (status unavailable "WebSocket support is not enabled on this server")
