-- ===== src/Database/Sound/Queries.antt =====
-- The functions of queries.go keep the invariants, whatever the database and the clock do.
use discord_lite_server.Base.{ℕ, ◌≡◌, String, Option, ltb}
use discord_lite_server.Models.{User, OauthToken, OauthState, AuthStatus, AuthSession}
use discord_lite_server.Effect.{Env, Action, statement}
use discord_lite_server.Effect.Moves.{
  Order, Moves, Invariant, Invariant-Order, Moves-statement, moves_rules,
}
use discord_lite_server.Database.Users.{
  upsert_user, create_user, get_user_by_id, get_user_by_discord_id,
}
use discord_lite_server.Database.Tokens.{
  upsert_token, delete_tokens, store_oauth_token, get_oauth_token, delete_oauth_token,
}
use discord_lite_server.Database.Sessions.{
  has_session_id, insert_session, update_session, delete_sessions, create_auth_session,
  get_auth_session, update_auth_session_status, delete_auth_session,
}
use discord_lite_server.Database.States.{
  has_state, insert_state, delete_states, create_oauth_state, take_oauth_state,
  validate_and_delete_oauth_state, cleanup_expired_sessions,
}
use discord_lite_server.Database.Sound.{IsSound, IsLinked, is_some, is_authenticated}
use discord_lite_server.Database.Sound.Users.{upsert_user-IsSound}
use discord_lite_server.Database.Sound.Sessions.{
  insert_session-IsSound, update_session-IsSound, delete_sessions-IsSound,
}
use discord_lite_server.Database.Sound.Tokens.{
  upsert_token-IsSound, delete_tokens-IsSound, insert_state-IsSound, delete_states-IsSound,
}

abbrev pub KeepsSound : {A : Type 0} → Action A → Type 0
KeepsSound = Moves (Invariant IsSound)

pub IsSound-order : Order (Invariant IsSound)
IsSound-order = Invariant-Order IsSound

module _ (env : Env) where
  upsert_sound : (u : User) → KeepsSound (statement env (upsert_user u))
  upsert_sound u = Moves-statement IsSound-order env _ (λ i t v. upsert_user-IsSound u i t v)

  pub create_user_sound : (u : User) → KeepsSound (create_user env u)
  unfolding create_user
  create_user_sound u = search (moves_rules, upsert_sound)

  pub get_user_by_id_sound : (id : ℕ) → KeepsSound (get_user_by_id env id)
  unfolding get_user_by_id
  get_user_by_id_sound id = search (moves_rules, IsSound-order)

  pub get_user_by_discord_id_sound : (d : String) → KeepsSound (get_user_by_discord_id env d)
  unfolding get_user_by_discord_id
  get_user_by_discord_id_sound d = search (moves_rules, IsSound-order)

  upsert_token_sound : (k : OauthToken) → KeepsSound (statement env (upsert_token k))
  upsert_token_sound k = Moves-statement IsSound-order env _ (λ i t v. upsert_token-IsSound t v k i)

  pub store_oauth_token_sound : (k : OauthToken) → KeepsSound (store_oauth_token env k)
  unfolding store_oauth_token
  store_oauth_token_sound k = search (moves_rules, upsert_token_sound)

  pub get_oauth_token_sound : (uid : ℕ) → KeepsSound (get_oauth_token env uid)
  unfolding get_oauth_token
  get_oauth_token_sound uid = search (moves_rules, IsSound-order)

  delete_tokens_sound : (uid : ℕ) → KeepsSound (statement env (delete_tokens uid))
  delete_tokens_sound uid =
      Moves-statement IsSound-order env _ (λ i t v. delete_tokens-IsSound t v uid i)

  pub delete_oauth_token_sound : (uid : ℕ) → KeepsSound (delete_oauth_token env uid)
  unfolding delete_oauth_token
  delete_oauth_token_sound uid = search (moves_rules, IsSound-order, delete_tokens_sound)

  pub create_auth_session_sound :
      (s : AuthSession) → IsLinked s → KeepsSound (create_auth_session env s)
  unfolding create_auth_session
  create_auth_session_sound s h = search (
    moves_rules,
    Moves-statement IsSound-order env (insert_session s)
        (λ i t v. insert_session-IsSound t v s i h),
  )

  pub get_auth_session_sound : (sid : String) → KeepsSound (get_auth_session env sid)
  unfolding get_auth_session
  get_auth_session_sound sid = search (moves_rules, IsSound-order)

  update_session_sound :
      (sid : String) (status : AuthStatus) (uid : Option ℕ) (text : Option String)
      → is_some uid ≡ is_authenticated status
      → KeepsSound (statement env (update_session sid status uid text))
  update_session_sound sid status uid text h =
      Moves-statement IsSound-order env _
        (λ i t v. update_session-IsSound t v sid status uid text i h)

  pub update_auth_session_status_sound :
      (sid : String) (status : AuthStatus) (uid : Option ℕ) (text : Option String)
      → is_some uid ≡ is_authenticated status
      → KeepsSound (update_auth_session_status env sid status uid text)
  unfolding update_auth_session_status
  update_auth_session_status_sound sid status uid text h =
      search (moves_rules, IsSound-order, update_session_sound)

  delete_session_sound :
      (sid : String) → KeepsSound (statement env (λ i. delete_sessions (has_session_id sid)))
  delete_session_sound sid =
      Moves-statement IsSound-order env _ (λ i t v. delete_sessions-IsSound t v _)

  expired_sessions_sound :
      KeepsSound (statement env (λ i. delete_sessions (λ s. ltb s.expires_at i)))
  expired_sessions_sound =
      Moves-statement IsSound-order env _ (λ i t v. delete_sessions-IsSound t v _)

  delete_state_sound :
      (state : String) → KeepsSound (statement env (λ i. delete_states (has_state state)))
  delete_state_sound state =
      Moves-statement IsSound-order env _ (λ i t v. delete_states-IsSound t v _)

  expired_states_sound : KeepsSound (statement env (λ i. delete_states (λ s. ltb s.expires_at i)))
  expired_states_sound = Moves-statement IsSound-order env _ (λ i t v. delete_states-IsSound t v _)

  pub delete_auth_session_sound : (sid : String) → KeepsSound (delete_auth_session env sid)
  unfolding delete_auth_session
  delete_auth_session_sound sid = search (moves_rules, IsSound-order, delete_session_sound)

  pub create_oauth_state_sound : (s : OauthState) → KeepsSound (create_oauth_state env s)
  unfolding create_oauth_state
  create_oauth_state_sound s = search (
    moves_rules,
    Moves-statement IsSound-order env (insert_state s) (λ i t v. insert_state-IsSound t v s i),
  )

  take_oauth_state_sound : (state : String) → KeepsSound (take_oauth_state env state)
  unfolding take_oauth_state
  take_oauth_state_sound state = search (moves_rules, IsSound-order, delete_state_sound) depth 12

  pub validate_and_delete_oauth_state_sound :
      (state : String) → KeepsSound (validate_and_delete_oauth_state env state)
  unfolding validate_and_delete_oauth_state
  validate_and_delete_oauth_state_sound state =
      search (moves_rules, IsSound-order, take_oauth_state_sound)

  pub cleanup_expired_sessions_sound : KeepsSound (cleanup_expired_sessions env)
  unfolding cleanup_expired_sessions
  cleanup_expired_sessions_sound =
      search (moves_rules, IsSound-order, expired_sessions_sound, expired_states_sound)

pub ruleset sound_rules = (
  moves_rules, IsSound-order, create_user_sound, get_user_by_id_sound, get_user_by_discord_id_sound,
  store_oauth_token_sound, get_oauth_token_sound, delete_oauth_token_sound,
  create_auth_session_sound, get_auth_session_sound, update_auth_session_status_sound,
  delete_auth_session_sound, create_oauth_state_sound, validate_and_delete_oauth_state_sound,
  cleanup_expired_sessions_sound,
)
