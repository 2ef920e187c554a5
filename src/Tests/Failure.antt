-- ===== src/Tests/Failure.antt =====
-- A callback that fails, and a state that is used twice.
use discord_lite_server.Base.{string_eq, nat_eq, String, some, none, ◌≡◌, ◌≢◌, refl, arith, [], ◌∷◌}
use discord_lite_server.Base.Rows.{find, update, remove, count}
use discord_lite_server.Models.{OauthState, AuthSession, authenticated, pending, migrated}
use discord_lite_server.Effect.{
  World, Error, ok, err, IsErr, message, wrapped, statement, query, now, transaction, ◌>>=◌,
}
use discord_lite_server.Database.Sessions.{
  has_session_id, update_auth_session_status, update_session,
}
use discord_lite_server.Database.States.{
  has_state, take_oauth_state, validate_and_delete_oauth_state, delete_states,
}
use discord_lite_server.Database.States.SingleUse.{validate_twice}
use discord_lite_server.Auth.Services.{Remote}
use discord_lite_server.Auth.Discord.{request, exchange_code}
use discord_lite_server.Auth.StateManager.{validate_state}
use discord_lite_server.Auth.Callback.{update_session_failed, authenticate, handle_callback}
use discord_lite_server.Auth.Callback.Correct.{handle_callback-NoneNew, handle_callback-others}
use discord_lite_server.Tests.Services.{env, remote, crypto, settings}

-- A remote side that gives no token.
abbrev silent : Remote
silent = record remote { exchange = λ step code. none }

-- The session "other" is authenticated before the callback of "session" fails.
abbrev other_session : AuthSession
other_session = record {
  session_id = "other";
  user_id = some 1;
  auth_status = authenticated;
  error_message = none;
  created_at = 0;
  updated_at = 0;
  expires_at = 1000;
}

abbrev stored_state : OauthState
stored_state = record { state = "state"; session_id = "session"; created_at = 0; expires_at = 1000 }

abbrev two_sessions : World
two_sessions = record {
  tables = record migrated {
    oauth_states = stored_state ∷ [];
    auth_sessions =
        record other_session { session_id = "session"; user_id = none; auth_status = pending }
        ∷ other_session
        ∷ [];
  };
  step = 0;
}

abbrev unanswered : World
unanswered = (handle_callback env silent crypto settings "code" "state" two_sessions).1

abbrev no_exchange : Error
no_exchange = wrapped "authentication failed" (message "failed to exchange authorization code")

fails_exchange :
    handle_callback env silent crypto settings "code" "state" two_sessions
    ≡ (err no_exchange, unanswered)
unfolding handle_callback authenticate update_session_failed validate_state
    validate_and_delete_oauth_state take_oauth_state transaction statement query now delete_states
    exchange_code request update_auth_session_status update_session find update remove count ◌>>=◌
fails_exchange = refl

kept_other : find (has_session_id "other") unanswered.tables.auth_sessions ≡ some other_session
unfolding handle_callback authenticate update_session_failed validate_state
    validate_and_delete_oauth_state take_oauth_state transaction statement query now delete_states
    exchange_code request update_auth_session_status update_session find update remove count ◌>>=◌
kept_other = refl

handle_callback-NoneNew_example :
    find (has_session_id "other") two_sessions.tables.auth_sessions ≡ some other_session
handle_callback-NoneNew_example =
    handle_callback-NoneNew env silent crypto settings "code" "state" no_exchange two_sessions
      unanswered "other" other_session fails_exchange kept_other refl

state_found : find (has_state "state") two_sessions.tables.oauth_states ≡ some stored_state
unfolding find
state_found = refl

other_apart : ◌≢◌ {A = String} "other" "session"
other_apart e = ground (arith, (string_eq.beq_iff "other" "session").1 e)

handle_callback-others_example :
    find (has_session_id "other") unanswered.tables.auth_sessions
    ≡ find (has_session_id "other") two_sessions.tables.auth_sessions
handle_callback-others_example =
    handle_callback-others env silent crypto settings "code" "state" stored_state two_sessions
      "other" state_found other_apart

-- The state of the table is taken, and then refused.
abbrev taken : World
taken = (validate_and_delete_oauth_state env "state" two_sessions).1

takes : validate_and_delete_oauth_state env "state" two_sessions ≡ (ok stored_state, taken)
unfolding validate_and_delete_oauth_state take_oauth_state transaction statement query now
    delete_states find remove count ◌>>=◌
takes = refl

validate_twice_example :
    IsErr (validate_and_delete_oauth_state env "state" taken).0
    × ((validate_and_delete_oauth_state env "state" taken).1.tables ≡ taken.tables)
validate_twice_example = validate_twice env "state" stored_state two_sessions taken taken takes refl
