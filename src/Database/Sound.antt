-- ===== src/Database/Sound.antt =====
-- The invariants of the tables that sign-in uses: keys are unique, references lead to a row, and
-- a session names a user exactly when it is authenticated.
pub mod Users
pub mod Sessions
pub mod Tokens
pub mod Queries
pub mod Content
use discord_lite_server.Base.{
  ℕ, suc, ◌<◌, Bool, true, false, String, Option, none, some, List, [], ◌∷◌, ◌++◌, ◌≡◌, ◌==◌,
  nat_eq, string_eq, arith, refl, if◌then◌else◌, eq_of_beq, inl, inr, Option-cases, Bool-cases,
}
use discord_lite_server.Base.Rows.{
  find, remove, update, All, All-append, All-remove, All-update, All-map, Distinct,
}
use discord_lite_server.Base.Distinct.{find-none, Distinct-append, Distinct-remove, Distinct-update}
use discord_lite_server.Models.{
  User, OauthToken, OauthState, AuthStatus, pending, authenticated, failed, other, AuthSession,
  Tables,
}
use discord_lite_server.Database.Users.{has_user_id}
use discord_lite_server.Database.Sessions.{user_exists}

abbrev pub is_authenticated : AuthStatus → Bool
is_authenticated pending = false
is_authenticated authenticated = true
is_authenticated failed = false
is_authenticated (other text) = false

abbrev pub is_some : {A : Type 0} → Option A → Bool
is_some none = false
is_some (some a) = true

-- A session has a user exactly when it is authenticated.
abbrev pub IsLinked : AuthSession → Type 0
IsLinked s = is_some s.user_id ≡ is_authenticated s.auth_status

pub record IsSound (t : Tables) : Type 0 where
  pub sessions_distinct : Distinct (λ s. s.session_id) t.auth_sessions
  pub states_distinct : Distinct (λ s. s.state) t.oauth_states
  pub users_distinct : Distinct (λ u. u.discord_id) t.users
  pub ids_below : All (λ u. u.id < t.next_user) t.users
  pub tokens_distinct : Distinct (λ k. k.user_id) t.oauth_tokens
  pub token_users : All (λ k. user_exists t.users (some k.user_id) ≡ true) t.oauth_tokens
  pub session_users : All (λ s. user_exists t.users s.user_id ≡ true) t.auth_sessions
  pub linked : All IsLinked t.auth_sessions
