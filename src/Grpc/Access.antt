-- ===== src/Grpc/Access.antt =====
-- internal/grpc/channel_service.go and message_service.go: who is answered.
use discord_lite_server.Base.{ℕ, ◌≡◌, refl, sym, ◌∙◌, subst, Bool, true, false, String, some, arith}
use discord_lite_server.Base.Rows.{find}
use discord_lite_server.Models.{
  AuthSession, AuthStatus, pending, authenticated, failed, other, Tables,
}
use discord_lite_server.Effect.{Env, World, ok, Error, raise, pure}
use discord_lite_server.Effect.Returned.{bind-ok, wrap-ok, or_return-ok, or_fail-ok, query-ok}
use discord_lite_server.Database.Sound.{is_authenticated}
use discord_lite_server.Database.Sessions.{has_session_id, get_auth_session}
use discord_lite_server.Database.Guilds.{has_guild_access, user_has_guild_access}
use discord_lite_server.Database.Channels.{has_channel_access, user_has_channel_access}
use discord_lite_server.Auth.Services.{Crypto, Remote, Settings}
use discord_lite_server.Auth.Api.{Api}
use discord_lite_server.Grpc.Session.{require, session_user}
use discord_lite_server.Grpc.ChannelServer.{
  GetGuildsRequest, GetGuildsResponse, GetChannelsRequest, GetChannelsResponse, get_guilds,
  get_channels,
}
use discord_lite_server.Grpc.MessageServer.{GetMessagesRequest, GetMessagesResponse, get_messages}

-- The session of the request is authenticated, for this user.
abbrev pub SignedIn : String → ℕ → Tables → Type 0
SignedIn sid uid t =
    (row : AuthSession) × (find (has_session_id sid) t.auth_sessions ≡ some row)
    × (row.auth_status ≡ authenticated)
    × (row.user_id ≡ some uid)

pub require-ok :
    (b : Bool) (x : Error) (u : Unit {0}) (w w' : World)
    → require b (raise x) w ≡ (ok u, w')
    → (b ≡ true) × (w.tables ≡ w'.tables)
unfolding pure raise
require-ok true x u w w' e = (refl, ground arith)
require-ok false x u w w' e = cc

authenticated_only : (a : AuthStatus) → is_authenticated a ≡ true → a ≡ authenticated
authenticated_only pending h = cc
authenticated_only authenticated h = refl
authenticated_only failed h = cc
authenticated_only (other text) h = cc

module _ (env : Env) where
  pub get_auth_session-ok :
      (sid : String) (row : AuthSession) (w w' : World)
      → get_auth_session env sid w ≡ (ok row, w')
      → (find (has_session_id sid) w.tables.auth_sessions ≡ some row) × (w.tables ≡ w'.tables)
  unfolding get_auth_session
  get_auth_session-ok sid row w w' e =
      let (found, v, e1, e2) = bind-ok _ _ row w w' e in
      let (p, q) = query-ok env _ found w v (wrap-ok _ _ found w v e1) in
      let (r, s) = or_fail-ok _ found row v w' e2 in (p ∙ r, q ∙ s)

  pub session_user-ok :
      (sid : String) (uid : ℕ) (w w' : World)
      → session_user env sid w ≡ (ok uid, w')
      → SignedIn sid uid w.tables × (w.tables ≡ w'.tables)
  unfolding session_user
  session_user-ok sid uid w w' e =
      let (row, v, e1, e2) = bind-ok _ _ uid w w' e in
      let (p, q) = get_auth_session-ok sid row w v (or_return-ok _ _ row w v e1) in
      let (u, v', e3, e4) = bind-ok _ _ uid v w' e2 in
      let (r, s) = require-ok _ _ u v v' e3 in
      let (r', s') = or_fail-ok _ _ uid v' w' e4 in
      ((row, p, authenticated_only row.auth_status r, r'), q ∙ s ∙ s')

  module _ (remote : Remote) (api : Api) where
    -- A list of channels is answered only to the user of an authenticated session who is a member
    -- of the guild, by the tables that the call meets.
    pub get_channels-access :
        (req : GetChannelsRequest) (r : GetChannelsResponse) (w w' : World)
        → get_channels env remote api req w ≡ (ok r, w')
        → (uid : ℕ) × SignedIn req.session_id uid w.tables
          × (has_guild_access uid req.guild_id w.tables ≡ true)
    unfolding get_channels user_has_guild_access
    get_channels-access req r w w' e =
        let (uid, v, e1, e2) = bind-ok _ _ r w w' e in
        let (signed, p) = session_user-ok req.session_id uid w v e1 in
        let (b, v2, e3, e4) = bind-ok _ _ r v w' e2 in
        let (q, s) = query-ok env _ b v v2 (wrap-ok _ _ b v v2 (or_return-ok _ _ b v v2 e3)) in
        let (u, v3, e5, e6) = bind-ok _ _ r v2 w' e4 in
        let (yes', s') = require-ok b _ u v2 v3 e5 in
        (uid, signed, subst (λ t. has_guild_access uid req.guild_id t ≡ true) (sym p) (q ∙ yes'))

    module _ (c : Crypto) (s : Settings) where
      -- Guilds are listed only to the user of an authenticated session.
      pub get_guilds-access :
          (req : GetGuildsRequest) (r : GetGuildsResponse) (w w' : World)
          → get_guilds env remote api c s req w ≡ (ok r, w')
          → (uid : ℕ) × SignedIn req.session_id uid w.tables
      unfolding get_guilds
      get_guilds-access req r w w' e =
          let (uid, v, e1, e2) = bind-ok _ _ r w w' e in
          (uid, (session_user-ok req.session_id uid w v e1).0)

      -- Messages are answered only to the user of an authenticated session who is a member of the
      -- guild of the channel, by the tables that the call meets.
      pub get_messages-access :
          (req : GetMessagesRequest) (r : GetMessagesResponse) (w w' : World)
          → get_messages env api remote c s req w ≡ (ok r, w')
          → (uid : ℕ) × SignedIn req.session_id uid w.tables
            × (has_channel_access uid req.channel_id w.tables ≡ true)
      unfolding get_messages user_has_channel_access
      get_messages-access req r w w' e =
          let (uid, v, e1, e2) = bind-ok _ _ r w w' e in
          let (signed, p) = session_user-ok req.session_id uid w v e1 in
          let (b, v2, e3, e4) = bind-ok _ _ r v w' e2 in
          let (q, s') = query-ok env _ b v v2 (wrap-ok _ _ b v v2 (or_return-ok _ _ b v v2 e3)) in
          let (u, v3, e5, e6) = bind-ok _ _ r v2 w' e4 in
          let (yes', s'') = require-ok b _ u v2 v3 e5 in
          (
            uid,
            signed,
            subst (λ t. has_channel_access uid req.channel_id t ≡ true) (sym p) (q ∙ yes'),
          )
