-- ===== src/Tests/SignIn.antt =====
-- One sign-in: InitAuth, the callback, GetAuthStatus and RevokeAuth.
use discord_lite_server.Base.{
  ℕ, suc, ◌≤◌, string_eq, String, some, none, ◌≡◌, ◌≢◌, refl, true, arith, [], ◌∷◌,
}
use discord_lite_server.Base.Rows.{find, update, remove, count}
use discord_lite_server.Models.{User, OauthState, AuthSession, authenticated}
use discord_lite_server.Effect.{
  World, ok, err, IsErr, status, not_found, statement, query, now, transaction, ◌>>=◌,
}
use discord_lite_server.Database.Users.{has_user_id, create_user, upsert_user, get_user_by_id}
use discord_lite_server.Database.Tokens.{
  store_oauth_token, upsert_token, delete_oauth_token, delete_tokens,
}
use discord_lite_server.Database.Sessions.{
  has_session_id, create_auth_session, insert_session, update_auth_session_status, update_session,
  get_auth_session, delete_auth_session, delete_sessions, user_exists,
}
use discord_lite_server.Database.Sessions.Status.{HasStatus}
use discord_lite_server.Database.States.{
  has_state, create_oauth_state, insert_state, take_oauth_state, validate_and_delete_oauth_state,
  delete_states,
}
use discord_lite_server.Database.Sound.{IsSound}
use discord_lite_server.Auth.Cipher.{encrypt_token, random_bytes}
use discord_lite_server.Auth.Discord.{request, exchange_code, get_user_info}
use discord_lite_server.Auth.StateManager.{generate_state, store_state, validate_state}
use discord_lite_server.Auth.Callback.{secure_tokens, authenticate, handle_callback}
use discord_lite_server.Auth.Callback.Correct.{handle_callback-ok, handle_callback-twice}
use discord_lite_server.Server.SignIn.{get_auth_status-sign_in}
use discord_lite_server.Grpc.AuthServer.{
  InitAuthResponse, reply, user_info, is_authenticated, GetAuthStatusResponse, choose_session,
  init_auth, build_status, status_user, get_auth_status, delete_user_token, revoke_auth,
}
use discord_lite_server.Grpc.AuthServer.Sound.{init_auth_sound}
use discord_lite_server.Grpc.AuthServer.Revoke.{revoke_auth-ok, get_auth_status-authenticated}
use discord_lite_server.Server.{
  init_auths, callbacks, cleanups, get_auth_statuses, revoke_auths, serve_call, serve,
}
use discord_lite_server.Server.History.{start, start-IsSound, serve-IsSound}
use discord_lite_server.Tests.Services.{env, remote, crypto, settings}

abbrev asked : World
asked = (init_auth env remote crypto settings "" start).1

abbrev state : String
state = ",,,,,,,,,,,,,,,,,,,,,,,,,,,,,,,,"

abbrev signed_in : World
signed_in = (handle_callback env remote crypto settings "code" state asked).1

asked-IsSound : IsSound asked.tables
asked-IsSound = (init_auth_sound env remote crypto settings "").at start start-IsSound

signs_in : handle_callback env remote crypto settings "code" state asked ≡ (ok tt, signed_in)
unfolding init_auth choose_session generate_state store_state create_oauth_state insert_state
    create_auth_session insert_session handle_callback authenticate secure_tokens validate_state
    validate_and_delete_oauth_state take_oauth_state transaction statement query now delete_states
    exchange_code get_user_info request create_user upsert_user encrypt_token random_bytes
    store_oauth_token upsert_token update_auth_session_status update_session find update remove
    count ◌>>=◌
signs_in = refl

-- The sign-in leaves an authenticated session of an existing user and no state.
handle_callback-ok_example :
    (row : OauthState) × (uid : ℕ) × (find (has_state state) asked.tables.oauth_states ≡ some row)
    × (env.clock (suc (suc asked.step)) ≤ row.expires_at)
    × HasStatus row.session_id authenticated (some uid) none signed_in.tables
    × (user_exists signed_in.tables.users (some uid) ≡ true)
    × (find (has_state state) signed_in.tables.oauth_states ≡ none)
handle_callback-ok_example =
    handle_callback-ok env remote crypto settings "code" state asked signed_in asked-IsSound
      signs_in

handle_callback-twice_example :
    IsErr (handle_callback env remote crypto settings "again" state signed_in).0
    × ((handle_callback env remote crypto settings "again" state signed_in).1.tables
        ≡ signed_in.tables)
handle_callback-twice_example =
    handle_callback-twice env remote crypto settings "code" state "again" asked signed_in signed_in
      signs_in refl

-- A history of a sign-in, a clean-up and two more calls.
serve-IsSound_example :
    IsSound
      (serve env remote crypto settings
        (init_auths "session"
          ∷ callbacks "code" state
          ∷ cleanups
          ∷ get_auth_statuses "session"
          ∷ revoke_auths "session"
          ∷ [])
        start).tables
serve-IsSound_example =
    serve-IsSound env remote crypto settings
      (init_auths "session"
        ∷ callbacks "code" state
        ∷ cleanups
        ∷ get_auth_statuses "session"
        ∷ revoke_auths "session"
        ∷ [])
      start start-IsSound

-- The row of the session after the sign-in.
abbrev session_row : AuthSession
session_row = record {
  session_id = "session";
  user_id = some 1;
  auth_status = authenticated;
  error_message = none;
  created_at = 5;
  updated_at = 17;
  expires_at = 86400000000004;
}

session_found : find (has_session_id "session") signed_in.tables.auth_sessions ≡ some session_row
unfolding init_auth choose_session generate_state store_state create_oauth_state insert_state
    create_auth_session insert_session handle_callback authenticate secure_tokens validate_state
    validate_and_delete_oauth_state take_oauth_state transaction statement query now delete_states
    exchange_code get_user_info request create_user upsert_user encrypt_token random_bytes
    store_oauth_token upsert_token update_auth_session_status update_session find update remove
    count ◌>>=◌
session_found = refl

-- The same, of the history.
history_found :
    find
      (has_session_id "session")
      (serve env remote crypto settings
        (init_auths "" ∷ callbacks "code" state ∷ [])
        start).tables.auth_sessions
    ≡ some session_row
unfolding serve_call serve init_auth choose_session generate_state store_state create_oauth_state
    insert_state create_auth_session insert_session handle_callback authenticate secure_tokens
    validate_state validate_and_delete_oauth_state take_oauth_state transaction statement query now
    delete_states exchange_code get_user_info request create_user upsert_user encrypt_token
    random_bytes store_oauth_token upsert_token update_auth_session_status update_session find
    update remove count ◌>>=◌
history_found = refl

abbrev answered : World
answered = (get_auth_status env "session" signed_in).1

abbrev ann_reply : GetAuthStatusResponse
ann_reply = record {
  reply_status = is_authenticated;
  user =
      some (record {
        discord_id = "7";
        username = "ann";
        discriminator = "0";
        avatar = "";
        email = "";
      });
  error_message = none;
}

answers : get_auth_status env "session" signed_in ≡ (ok ann_reply, answered)
unfolding get_auth_status build_status status_user get_auth_session get_user_by_id init_auth
    choose_session generate_state store_state create_oauth_state insert_state create_auth_session
    insert_session handle_callback authenticate secure_tokens validate_state
    validate_and_delete_oauth_state take_oauth_state transaction statement query now delete_states
    exchange_code get_user_info request create_user upsert_user encrypt_token random_bytes
    store_oauth_token upsert_token update_auth_session_status update_session find update remove
    count ◌>>=◌
answers = refl

get_auth_status-authenticated_example :
    (row : AuthSession) × (find (has_session_id "session") signed_in.tables.auth_sessions
      ≡ some row)
    × (row.auth_status ≡ authenticated)
    × (env.clock (suc signed_in.step) ≤ row.expires_at)
get_auth_status-authenticated_example =
    get_auth_status-authenticated env "session" ann_reply signed_in answered answers refl

abbrev signed_out : World
signed_out = (revoke_auth env "session" signed_in).1

signs_out : revoke_auth env "session" signed_in ≡ (ok tt, signed_out)
unfolding revoke_auth delete_user_token get_auth_session delete_auth_session delete_oauth_token
    delete_tokens delete_sessions init_auth choose_session generate_state store_state
    create_oauth_state insert_state create_auth_session insert_session handle_callback authenticate
    secure_tokens validate_state validate_and_delete_oauth_state take_oauth_state transaction
    statement query now delete_states exchange_code get_user_info request create_user upsert_user
    encrypt_token random_bytes store_oauth_token upsert_token update_auth_session_status
    update_session find update remove count ◌>>=◌
signs_out = refl

apart : ◌≢◌ {A = String} "another" "session"
apart e = ground (arith, (string_eq.beq_iff "another" "session").1 e)

revoke_auth-ok_example :
    ((get_auth_status env "session" signed_out).0 ≡ err (status not_found "session not found"))
    × (find (has_session_id "another") signed_out.tables.auth_sessions
        ≡ find (has_session_id "another") signed_in.tables.auth_sessions)
revoke_auth-ok_example =
    revoke_auth-ok env "session" signed_in signed_out signed_out "another" signs_out refl apart

abbrev asked_reply : InitAuthResponse
asked_reply = record { auth_url = state; session_id = "session"; state = state }

asks : init_auth env remote crypto settings "" start ≡ (ok asked_reply, asked)
unfolding init_auth choose_session generate_state store_state create_oauth_state insert_state
    create_auth_session insert_session random_bytes statement query now find ◌>>=◌
asks = refl

young : env.clock (suc signed_in.step) ≤ session_row.expires_at
unfolding init_auth choose_session generate_state store_state create_oauth_state insert_state
    create_auth_session insert_session handle_callback authenticate secure_tokens validate_state
    validate_and_delete_oauth_state take_oauth_state transaction statement query now delete_states
    exchange_code get_user_info request create_user upsert_user encrypt_token random_bytes
    store_oauth_token upsert_token update_auth_session_status update_session find update remove
    count ◌>>=◌
young = omega arith

get_auth_status-sign_in_example :
    (uid : ℕ) × (user : User) × (session_row.user_id ≡ some uid)
    × (find (has_user_id uid) signed_in.tables.users ≡ some user)
    × ((get_auth_status env "session" signed_in).0
        ≡ ok (reply is_authenticated (some (user_info user)) none))
get_auth_status-sign_in_example =
    get_auth_status-sign_in env remote crypto settings "" "code" asked_reply session_row start asked
      asked signed_in signed_in refl asks refl asked-IsSound signs_in refl session_found young refl
      refl
