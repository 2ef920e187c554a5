-- ===== src/Config/Validity.antt =====
-- internal/config/config.go: which configurations Validate accepts.
use discord_lite_server.Base.{ℕ, ◌≤◌, ◌≡◌, ◌≢◌, refl, Bool, true, String, nat_eq, string_eq, arith}
use discord_lite_server.Base.Lists.{length}
use discord_lite_server.Base.Words.{is_positive}
use discord_lite_server.Effect.{Result, ok, err}
use discord_lite_server.Config.{
  WebSocketConfig, Config, require, is_set, one_of, log_levels, log_formats, ◌>>◌,
  validate_websocket, validate_services, validate_security, validate,
}

-- An int64 above zero.
abbrev pub IsPositive : ℕ → Type 0
IsPositive n = (1 ≤ n) × (n ≤ 9223372036854775807)

-- What a configuration needs.
pub record IsValid (c : Config) : Type 0 where
  pub client_id : c.discord.client_id ≢ ""
  pub client_secret : c.discord.client_secret ≢ ""
  pub redirect_uri : c.discord.redirect_uri ≢ ""
  pub bot_token : c.discord.bot_token ≢ ""
  pub user : c.database.user ≢ ""
  pub password : c.database.password ≢ ""
  pub name : c.database.name ≢ ""
  pub key : length c.security.token_encryption_key ≡ 32
  pub session_expiry : IsPositive c.security.session_expiry_hours
  pub state_expiry : IsPositive c.security.state_expiry_minutes
  pub level : one_of c.logging.level log_levels ≡ true
  pub format : one_of c.logging.format log_formats ≡ true
  pub guild_ttl : IsPositive c.cache.guild_ttl_hours
  pub channel_ttl : IsPositive c.cache.channel_ttl_minutes
  pub message_ttl : IsPositive c.cache.message_ttl_minutes
  pub connections : IsPositive c.websocket.max_connections_per_user
  pub heartbeat : IsPositive c.websocket.heartbeat_interval
  pub attempts : c.websocket.reconnect_attempts ≤ 9223372036854775807
  pub delay : IsPositive c.websocket.reconnect_delay

then_ok : (a b : Result (Unit {0})) → a >> b ≡ ok tt → (a ≡ ok tt) × (b ≡ ok tt)
unfolding ◌>>◌
then_ok (ok tt) b h = (refl, h)
then_ok (err e) b h = absurd (ground (arith, h))

set_ok : (x text : String) → require (is_set x) text ≡ ok tt → x ≢ ""
unfolding require
set_ok x text = ground (arith, string_eq.beq_iff x "")

IsPositive-ok : (n : ℕ) (text : String) → require (is_positive n) text ≡ ok tt → IsPositive n
unfolding require
IsPositive-ok n text = ground arith

test_ok : (test : Bool) (text : String) → require test text ≡ ok tt → test ≡ true
unfolding require
test_ok test text = ground arith

-- What every part has, from the last on.
abbrev ValidWebsocket : WebSocketConfig → Type 0
ValidWebsocket w =
    IsPositive w.max_connections_per_user
    × IsPositive w.heartbeat_interval
    × (w.reconnect_attempts ≤ 9223372036854775807)
    × IsPositive w.reconnect_delay

websocket_ok : (w : WebSocketConfig) → validate_websocket w ≡ ok tt → ValidWebsocket w
unfolding validate_websocket
websocket_ok w h =
    let (a, bcd) = then_ok _ _ h in
    let (b, cd) = then_ok _ _ bcd in
    let (c, d) = then_ok _ _ cd in
    (
      IsPositive-ok _ _ a,
      IsPositive-ok _ _ b,
      ground (arith, test_ok _ _ c),
      IsPositive-ok _ _ (then_ok _ _ d).0,
    )

services_ok :
    (c : Config)
    → validate_services c ≡ ok tt
    → (one_of c.logging.level log_levels ≡ true)
      × (one_of c.logging.format log_formats ≡ true)
      × IsPositive c.cache.guild_ttl_hours
      × IsPositive c.cache.channel_ttl_minutes
      × IsPositive c.cache.message_ttl_minutes
      × ValidWebsocket c.websocket
unfolding validate_services
services_ok c h =
    let (level, h1) = then_ok _ _ h in
    let (format, h2) = then_ok _ _ h1 in
    let (guild_ttl, h3) = then_ok _ _ h2 in
    let (channel_ttl, h4) = then_ok _ _ h3 in
    let (message_ttl, w) = then_ok _ _ h4 in
    (
      test_ok _ _ level,
      test_ok _ _ format,
      IsPositive-ok _ _ guild_ttl,
      IsPositive-ok _ _ channel_ttl,
      IsPositive-ok _ _ message_ttl,
      websocket_ok _ w,
    )

security_ok :
    (c : Config)
    → validate_security c ≡ ok tt
    → (length c.security.token_encryption_key ≡ 32)
      × IsPositive c.security.session_expiry_hours
      × IsPositive c.security.state_expiry_minutes
      × (validate_services c ≡ ok tt)
unfolding validate_security
security_ok c h =
    let (key, h1) = then_ok _ _ h in
    let (session_expiry, h2) = then_ok _ _ h1 in
    let (state_expiry, services) = then_ok _ _ h2 in
    (
      ground (arith, test_ok _ _ key),
      IsPositive-ok _ _ session_expiry,
      IsPositive-ok _ _ state_expiry,
      services,
    )

-- Every configuration that Validate accepts has its required texts, a key of 32 bytes, a level
-- and a format that the logger knows, and durations and counts that are positive.
pub validate-IsValid : (c : Config) → validate c ≡ ok tt → IsValid c
unfolding validate
validate-IsValid c h =
    let (client_id, h1) = then_ok _ _ h in
    let (client_secret, h2) = then_ok _ _ h1 in
    let (redirect_uri, h3) = then_ok _ _ h2 in
    let (bot_token, h4) = then_ok _ _ h3 in
    let (user, h5) = then_ok _ _ h4 in
    let (password, h6) = then_ok _ _ h5 in
    let (name, security) = then_ok _ _ h6 in
    let (key, session_expiry, state_expiry, services) = security_ok c security in
    let (level, format, guild, channel, messages, websocket) = services_ok c services in
    let (connections, heartbeat, attempts, delay) = websocket in
    record {
      client_id = set_ok _ _ client_id;
      client_secret = set_ok _ _ client_secret;
      redirect_uri = set_ok _ _ redirect_uri;
      bot_token = set_ok _ _ bot_token;
      user = set_ok _ _ user;
      password = set_ok _ _ password;
      name = set_ok _ _ name;
      key = key;
      session_expiry = session_expiry;
      state_expiry = state_expiry;
      level = level;
      format = format;
      guild_ttl = guild;
      channel_ttl = channel;
      message_ttl = messages;
      connections = connections;
      heartbeat = heartbeat;
      attempts = attempts;
      delay = delay;
    }
