-- ===== src/Models/Auth.antt =====
-- internal/models/auth.go.
use discord_lite_server.Base.{
  ℕ, Bool, String, Option, none, some, ltb, if◌then◌else◌, ◌==◌, string_eq,
}

pub record User : Type 0 where
  pub id : ℕ
  pub discord_id : String
  pub username : String
  pub discriminator : Option String
  pub avatar : Option String
  pub email : Option String
  pub created_at : ℕ
  pub updated_at : ℕ

pub record OauthToken : Type 0 where
  pub id : ℕ
  pub user_id : ℕ
  pub access_token : String
  pub refresh_token : String
  pub token_type : String
  pub expiry : ℕ
  pub scope : String
  pub created_at : ℕ
  pub updated_at : ℕ

pub record OauthState : Type 0 where
  pub state : String
  pub session_id : String
  pub created_at : ℕ
  pub expires_at : ℕ

-- The texts that the column auth_status holds; `other` is a text that is none of the three.
pub data AuthStatus : Type 0 where
  pending authenticated failed : AuthStatus
  other : String → AuthStatus

pub record AuthSession : Type 0 where
  pub session_id : String
  pub user_id : Option ℕ
  pub auth_status : AuthStatus
  pub error_message : Option String
  pub created_at : ℕ
  pub updated_at : ℕ
  pub expires_at : ℕ

-- `time.Now().After(expires_at)`, with the instant that was read.
abbrev pub session_is_expired : ℕ → AuthSession → Bool
session_is_expired now s = ltb s.expires_at now

abbrev pub state_is_expired : ℕ → OauthState → Bool
state_is_expired now s = ltb s.expires_at now

abbrev pub token_is_expired : ℕ → OauthToken → Bool
token_is_expired now t = ltb t.expiry now

-- sql.NullString{String: s, Valid: s != ""}
abbrev pub null_string : String → Option String
null_string s = if s == "" then none else some s

-- The field String of a sql.NullString, which is empty at NULL.
abbrev pub string_or_empty : Option String → String
string_or_empty none = ""
string_or_empty (some s) = s
