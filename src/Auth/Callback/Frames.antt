-- ===== src/Auth/Callback/Frames.antt =====
-- What HandleCallback leaves alone once the state has named a session: every other session, and
-- the stored states. Until its last statement it authenticates nobody.
use discord_lite_server.Base.{ℕ, nat_eq, string_eq, String, Option, none, some}
use discord_lite_server.Models.{User, OauthToken, authenticated, failed, Tables}
use discord_lite_server.Effect.{Env, statement}
use discord_lite_server.Effect.Moves.{Order, Moves, Moves-statement, moves_rules}
use discord_lite_server.Effect.Outcomes.{FailsAlong, FailsAlong-bind, FailsAlong-wrap}
use discord_lite_server.Database.Users.{upsert_user, create_user}
use discord_lite_server.Database.Tokens.{upsert_token, store_oauth_token}
use discord_lite_server.Database.Sessions.{update_session, update_auth_session_status}
use discord_lite_server.Auth.Services.{Crypto, Remote, RemoteToken, Settings}
use discord_lite_server.Auth.Quiet.{quiet_rules}
use discord_lite_server.Auth.Callback.{update_session_failed, secure_tokens, authenticate}

-- The statements before the last: they write users and tokens, and may mark the session failed.
module _ {R : Tables → Tables → Type 0} (o : Order R) (sid : String)
    (users : (u : User) (instant : ℕ) (t : Tables) → R t (upsert_user u instant t).1)
    (tokens : (k : OauthToken) (instant : ℕ) (t : Tables) → R t (upsert_token k instant t).1)
    (failure : (text : Option String) (instant : ℕ) (t : Tables)
      → R t (update_session sid failed none text instant t).1)
    (env : Env) where
  put_user : (u : User) → Moves R (statement env (upsert_user u))
  put_user u = Moves-statement o env _ (users u)

  create_user-Moves : (u : User) → Moves R (create_user env u)
  unfolding create_user
  create_user-Moves u = search (moves_rules, put_user)

  put_token : (k : OauthToken) → Moves R (statement env (upsert_token k))
  put_token k = Moves-statement o env _ (tokens k)

  store_oauth_token-Moves : (k : OauthToken) → Moves R (store_oauth_token env k)
  unfolding store_oauth_token
  store_oauth_token-Moves k = search (moves_rules, put_token)

  put_failure :
      (text : Option String) → Moves R (statement env (update_session sid failed none text))
  put_failure text = Moves-statement o env _ (failure text)

  mark_failed :
      (text : Option String) → Moves R (update_auth_session_status env sid failed none text)
  unfolding update_auth_session_status
  mark_failed text = search (moves_rules, put_failure)

  update_session_failed-Moves :
      {A : Type 0} (text : String) → Moves R (update_session_failed env {A = A} sid text)
  unfolding update_session_failed
  update_session_failed-Moves text = search (moves_rules, mark_failed)

  module _ (remote : Remote) (c : Crypto) (s : Settings) where
    pub secure_tokens-Moves :
        (u : User) (k : RemoteToken) → Moves R (secure_tokens env remote c s sid u k)
    unfolding secure_tokens
    secure_tokens-Moves u k =
        search (moves_rules, quiet_rules, store_oauth_token-Moves, update_session_failed-Moves)
          depth 8

    -- With the last statement too, if it moves along `R`.
    pub authenticate-Moves :
        (code : String)
        → ((uid : ℕ) → Moves R (update_auth_session_status env sid authenticated (some uid) none))
        → Moves R (authenticate env remote c s code sid)
    unfolding authenticate
    authenticate-Moves code last =
        search
          (
            moves_rules, quiet_rules, create_user-Moves, secure_tokens-Moves,
            update_session_failed-Moves, last,
          )
          depth 8

    -- With the last statement, if it moves along `R` when it fails.
    pub authenticate-fails :
        (code : String)
        → ((uid : ℕ)
            → FailsAlong R (update_auth_session_status env sid authenticated (some uid) none))
        → FailsAlong R (authenticate env remote c s code sid)
    unfolding authenticate
    authenticate-fails code last =
        FailsAlong-bind o _ _ (search (moves_rules, quiet_rules, update_session_failed-Moves))
          λ token.
            FailsAlong-bind o _ _ (search (moves_rules, quiet_rules, update_session_failed-Moves))
              λ discord_user.
                FailsAlong-bind o _ _
                  (search (moves_rules, create_user-Moves, update_session_failed-Moves))
                  λ user.
                    FailsAlong-bind o _ _ (secure_tokens-Moves user token)
                      λ _. FailsAlong-wrap _ _ (last user.id)
