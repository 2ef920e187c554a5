-- ===== src/Database/Content/SignIn.antt =====
-- The statements of sign-in keep the invariants of the content, and those of the content keep the
-- invariants of sign-in.
use discord_lite_server.Base.{
  ℕ, suc, refl, Bool, String, Option, List, inl, inr, Option-cases, Bool-cases, ◌==◌, nat_eq, ltb,
  [], ◌∷◌, ◌++◌, string_eq,
}
use discord_lite_server.Base.Rows.{find, update, count}
use discord_lite_server.Base.Table.{Refers-append_target, Refers-update_target}
use discord_lite_server.Models.{User, OauthToken, OauthState, AuthSession, AuthStatus, Tables}
use discord_lite_server.Effect.{Env, statement}
use discord_lite_server.Effect.Moves.{Moves-statement, moves_rules}
use discord_lite_server.Database.Users.{
  has_discord_id, merge_user, new_user, upsert_user, create_user,
}
use discord_lite_server.Database.Tokens.{delete_tokens, delete_oauth_token}
use discord_lite_server.Database.Sessions.{
  has_session_id, user_exists, insert_session, update_session, delete_sessions, create_auth_session,
  update_auth_session_status, delete_auth_session,
}
use discord_lite_server.Database.States.{
  has_state, insert_state, delete_states, create_oauth_state, take_oauth_state,
  validate_and_delete_oauth_state, cleanup_expired_sessions,
}
use discord_lite_server.Database.Reads.{read_rules}
use discord_lite_server.Database.Content.{IsContentSound}
use discord_lite_server.Database.Content.Queries.{KeepsContent, content_order, content_rules}

module _ (t : Tables) (v : IsContentSound t) where
  -- The tables of sign-in but the users.
  beside :
      (sessions : List AuthSession) (states : List OauthState) (tokens : List OauthToken)
      → IsContentSound
          (record t { auth_sessions = sessions; oauth_states = states; oauth_tokens = tokens })
  beside sessions states tokens = record {
    guild_table = v.guild_table;
    channel_table = v.channel_table;
    message_table = v.message_table;
    socket_table = v.socket_table;
    link_users = v.link_users;
    link_guilds = v.link_guilds;
    channel_guilds = v.channel_guilds;
    message_channels = v.message_channels;
    attachment_messages = v.attachment_messages;
    socket_users = v.socket_users;
  }

  module _ (u : User) (instant : ℕ) where
    user_inserted : IsContentSound (record t {
      users = t.users ++ new_user u t.next_user instant ∷ [];
      next_user = suc t.next_user;
    })
    user_inserted = record {
      guild_table = v.guild_table;
      channel_table = v.channel_table;
      message_table = v.message_table;
      socket_table = v.socket_table;
      link_users = Refers-append_target _ _ t.users _ t.user_guilds v.link_users;
      link_guilds = v.link_guilds;
      channel_guilds = v.channel_guilds;
      message_channels = v.message_channels;
      attachment_messages = v.attachment_messages;
      socket_users = Refers-append_target _ _ t.users _ t.websocket_sessions v.socket_users;
    }

    user_merged : IsContentSound (record t {
      users = update (has_discord_id u.discord_id) (merge_user u instant) t.users;
      next_user = suc t.next_user;
    })
    user_merged = record {
      guild_table = v.guild_table;
      channel_table = v.channel_table;
      message_table = v.message_table;
      socket_table = v.socket_table;
      link_users = Refers-update_target _ _ _ _ (λ a. refl) t.users t.user_guilds v.link_users;
      link_guilds = v.link_guilds;
      channel_guilds = v.channel_guilds;
      message_channels = v.message_channels;
      attachment_messages = v.attachment_messages;
      socket_users =
          Refers-update_target _ _ _ _ (λ a. refl) t.users t.websocket_sessions v.socket_users;
    }

    upsert_user-content : IsContentSound (upsert_user u instant t).1
    unfolding upsert_user
    upsert_user-content = elim (Option-cases (find (has_discord_id u.discord_id) t.users)) [
      | inl e ↦ rw (e, upsert_user) user_inserted
      | inr (old, e) ↦ rw (e, upsert_user) user_merged
    ]

  insert_session-content :
      (s : AuthSession) (instant : ℕ) → IsContentSound (insert_session s instant t).1
  unfolding insert_session
  insert_session-content s instant =
      elim (Option-cases (find (has_session_id s.session_id) t.auth_sessions)) [
        | inr (old, e) ↦ rw (e, insert_session) v
        | inl e ↦ elim (Bool-cases (user_exists t.users s.user_id)) [
          | inl there ↦ rw (e, there, insert_session) (beside _ _ _)
          | inr missing ↦ rw (e, missing, insert_session) v
        ]
      ]

  update_session-content :
      (sid : String) (status : AuthStatus) (uid : Option ℕ) (text : Option String) (instant : ℕ)
      → IsContentSound (update_session sid status uid text instant t).1
  unfolding update_session
  update_session-content sid status uid text instant =
      elim (Bool-cases (count (has_session_id sid) t.auth_sessions == 0)) [
        | inl e ↦ rw (e, update_session) v
        | inr e ↦ elim (Bool-cases (user_exists t.users uid)) [
          | inl there ↦ rw (e, there, update_session) (beside _ _ _)
          | inr missing ↦ rw (e, missing, update_session) v
        ]
      ]

  insert_state-content :
      (s : OauthState) (instant : ℕ) → IsContentSound (insert_state s instant t).1
  unfolding insert_state
  insert_state-content s instant = elim (Option-cases (find (has_state s.state) t.oauth_states)) [
    | inr (old, e) ↦ rw (e, insert_state) v
    | inl e ↦ rw (e, insert_state) (beside _ _ _)
  ]

  delete_sessions-content : (p : AuthSession → Bool) → IsContentSound (delete_sessions p t).1
  unfolding delete_sessions
  delete_sessions-content p = beside _ _ _

  delete_states-content : (p : OauthState → Bool) → IsContentSound (delete_states p t).1
  unfolding delete_states
  delete_states-content p = beside _ _ _

  delete_tokens-content : (uid instant : ℕ) → IsContentSound (delete_tokens uid instant t).1
  unfolding delete_tokens
  delete_tokens-content uid instant = beside _ _ _

module _ (env : Env) where
  user_stored : (u : User) → KeepsContent (statement env (upsert_user u))
  user_stored u = Moves-statement content_order env _ (λ i t v. upsert_user-content t v u i)

  pub create_user_content : (u : User) → KeepsContent (create_user env u)
  unfolding create_user
  create_user_content u = search (moves_rules, user_stored)

  tokens_deleted : (uid : ℕ) → KeepsContent (statement env (delete_tokens uid))
  tokens_deleted uid =
      Moves-statement content_order env _ (λ i t v. delete_tokens-content t v uid i)

  pub delete_oauth_token_content : (uid : ℕ) → KeepsContent (delete_oauth_token env uid)
  unfolding delete_oauth_token
  delete_oauth_token_content uid = search (moves_rules, content_order, tokens_deleted)

  session_inserted : (s : AuthSession) → KeepsContent (statement env (insert_session s))
  session_inserted s = Moves-statement content_order env _ (λ i t v. insert_session-content t v s i)

  pub create_auth_session_content : (s : AuthSession) → KeepsContent (create_auth_session env s)
  unfolding create_auth_session
  create_auth_session_content s = search (moves_rules, session_inserted)

  session_updated :
      (sid : String) (status : AuthStatus) (uid : Option ℕ) (text : Option String)
      → KeepsContent (statement env (update_session sid status uid text))
  session_updated sid status uid text =
      Moves-statement content_order env _
        (λ i t v. update_session-content t v sid status uid text i)

  pub update_auth_session_status_content :
      (sid : String) (status : AuthStatus) (uid : Option ℕ) (text : Option String)
      → KeepsContent (update_auth_session_status env sid status uid text)
  unfolding update_auth_session_status
  update_auth_session_status_content sid status uid text =
      search (moves_rules, content_order, session_updated)

  session_deleted :
      (sid : String) → KeepsContent (statement env (λ i. delete_sessions (has_session_id sid)))
  session_deleted sid = Moves-statement content_order env _ (λ i t v. delete_sessions-content t v _)

  pub delete_auth_session_content : (sid : String) → KeepsContent (delete_auth_session env sid)
  unfolding delete_auth_session
  delete_auth_session_content sid = search (moves_rules, content_order, session_deleted)

  state_inserted : (s : OauthState) → KeepsContent (statement env (insert_state s))
  state_inserted s = Moves-statement content_order env _ (λ i t v. insert_state-content t v s i)

  pub create_oauth_state_content : (s : OauthState) → KeepsContent (create_oauth_state env s)
  unfolding create_oauth_state
  create_oauth_state_content s = search (moves_rules, state_inserted)

  state_deleted :
      (state : String) → KeepsContent (statement env (λ i. delete_states (has_state state)))
  state_deleted state = Moves-statement content_order env _ (λ i t v. delete_states-content t v _)

  take_oauth_state_content : (state : String) → KeepsContent (take_oauth_state env state)
  unfolding take_oauth_state
  take_oauth_state_content state = search (moves_rules, content_order, state_deleted) depth 12

  pub validate_and_delete_oauth_state_content :
      (state : String) → KeepsContent (validate_and_delete_oauth_state env state)
  unfolding validate_and_delete_oauth_state
  validate_and_delete_oauth_state_content state =
      search (moves_rules, content_order, take_oauth_state_content)

  expired_sessions : KeepsContent (statement env (λ i. delete_sessions (λ s. ltb s.expires_at i)))
  expired_sessions = Moves-statement content_order env _ (λ i t v. delete_sessions-content t v _)

  expired_states : KeepsContent (statement env (λ i. delete_states (λ s. ltb s.expires_at i)))
  expired_states = Moves-statement content_order env _ (λ i t v. delete_states-content t v _)

  pub cleanup_expired_sessions_content : KeepsContent (cleanup_expired_sessions env)
  unfolding cleanup_expired_sessions
  cleanup_expired_sessions_content =
      search (moves_rules, content_order, expired_sessions, expired_states)

pub ruleset sign_in_rules = (
  content_rules, read_rules, create_user_content, delete_oauth_token_content,
  create_auth_session_content, update_auth_session_status_content, delete_auth_session_content,
  create_oauth_state_content, validate_and_delete_oauth_state_content,
  cleanup_expired_sessions_content,
)
