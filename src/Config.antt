-- ===== src/Config.antt =====
-- internal/config/config.go: the configuration, its validation and its loading.
pub mod Validity
use Prim.Native.String.{◌++◌}
use discord_lite_server.Base.{
  ℕ, Bool, true, false, not, ◌&&◌, String, Option, none, some, List, [], ◌∷◌, ◌==◌, nat_eq,
  string_eq, if◌then◌else◌,
}
use discord_lite_server.Base.Lists.{length}
use discord_lite_server.Base.Words.{is_positive, is_negative}
use discord_lite_server.Effect.{Result, ok, err, Error, message, wrapped, external, wrap_result}

pub record ServerConfig : Type 0 where
  pub http_port : String
  pub grpc_port : String
  pub host : String
  pub env : String

pub record DiscordConfig : Type 0 where
  pub client_id : String
  pub client_secret : String
  pub redirect_uri : String
  pub scopes : List String
  pub bot_token : String

pub record DatabaseConfig : Type 0 where
  pub host : String
  pub port : String
  pub user : String
  pub password : String
  pub name : String
  pub ssl_mode : String
  pub max_open_conns : ℕ
  pub max_idle_conns : ℕ

pub record SecurityConfig : Type 0 where
  pub token_encryption_key : List ℕ
  pub session_expiry_hours : ℕ
  pub state_expiry_minutes : ℕ

pub record LoggingConfig : Type 0 where
  pub level : String
  pub format : String

pub record CacheConfig : Type 0 where
  pub guild_ttl_hours : ℕ
  pub channel_ttl_minutes : ℕ
  pub message_ttl_minutes : ℕ

pub record WebSocketConfig : Type 0 where
  pub enabled : Bool
  pub max_connections_per_user : ℕ
  pub heartbeat_interval : ℕ
  pub reconnect_attempts : ℕ
  pub reconnect_delay : ℕ

pub record Config : Type 0 where
  pub server : ServerConfig
  pub discord : DiscordConfig
  pub database : DatabaseConfig
  pub security : SecurityConfig
  pub logging : LoggingConfig
  pub cache : CacheConfig
  pub websocket : WebSocketConfig

-- `if !test { return fmt.Errorf(text) }`, and an error that ends the function.
unfoldable pub require : Bool → String → Result (Unit {0})
require test text = if test then ok tt else err (message text)

infixl 5 ◌>>◌
unfoldable pub ◌>>◌ : Result (Unit {0}) → Result (Unit {0}) → Result (Unit {0})
ok done >> r = r
err e >> r = err e

abbrev pub is_set : String → Bool
is_set x = not (x == "")

-- A map from strings to true.
abbrev pub one_of : String → List String → Bool
one_of x [] = false
one_of x (y ∷ ys) = if x == y then true else one_of x ys

abbrev pub log_levels : List String
log_levels = "debug" ∷ "info" ∷ "warn" ∷ "error" ∷ []

abbrev pub log_formats : List String
log_formats = "json" ∷ "console" ∷ []

unfoldable pub validate_websocket : WebSocketConfig → Result (Unit {0})
validate_websocket w = do
  require (is_positive w.max_connections_per_user)
      "WEBSOCKET_MAX_CONNECTIONS_PER_USER must be positive"
  require (is_positive w.heartbeat_interval) "WEBSOCKET_HEARTBEAT_INTERVAL must be positive"
  require (not (is_negative w.reconnect_attempts))
      "WEBSOCKET_RECONNECT_ATTEMPTS must be non-negative"
  require (is_positive w.reconnect_delay) "WEBSOCKET_RECONNECT_DELAY must be positive"
  ok tt

-- The validation of the logging, the cache and the WebSocket parts.
unfoldable pub validate_services : Config → Result (Unit {0})
validate_services c = do
  require (one_of c.logging.level log_levels) "LOG_LEVEL must be one of: debug, info, warn, error"
  require (one_of c.logging.format log_formats) "LOG_FORMAT must be one of: json, console"
  require (is_positive c.cache.guild_ttl_hours) "CACHE_GUILD_TTL_HOURS must be positive"
  require (is_positive c.cache.channel_ttl_minutes) "CACHE_CHANNEL_TTL_MINUTES must be positive"
  require (is_positive c.cache.message_ttl_minutes) "CACHE_MESSAGE_TTL_MINUTES must be positive"
  validate_websocket c.websocket

unfoldable pub validate_security : Config → Result (Unit {0})
validate_security c = do
  require (length c.security.token_encryption_key == 32)
      "TOKEN_ENCRYPTION_KEY must be exactly 32 bytes (64 hex characters) for AES-256"
  require (is_positive c.security.session_expiry_hours) "SESSION_EXPIRY_HOURS must be positive"
  require (is_positive c.security.state_expiry_minutes) "STATE_EXPIRY_MINUTES must be positive"
  validate_services c

unfoldable pub validate : Config → Result (Unit {0})
validate c = do
  require (is_set c.discord.client_id) "DISCORD_CLIENT_ID is required"
  require (is_set c.discord.client_secret) "DISCORD_CLIENT_SECRET is required"
  require (is_set c.discord.redirect_uri) "DISCORD_REDIRECT_URI is required"
  require (is_set c.discord.bot_token) "DISCORD_BOT_TOKEN is required"
  require (is_set c.database.user) "DB_USER is required"
  require (is_set c.database.password) "DB_PASSWORD is required"
  require (is_set c.database.name) "DB_NAME is required"
  validate_security c

-- os.Getenv with its empty text for a variable that is not set, the number that strconv.Atoi
-- returns (next to an error, which the code ignores, too), hex.DecodeString and strings.Split.
pub record Host : Type 0 where
  pub getenv : String → String
  pub atoi : String → ℕ
  pub decode_hex : String → Option (List ℕ)
  pub split : String → String → List String

abbrev pub checked : Config → Result (Unit {0}) → Result Config
checked c (ok done) = ok c
checked c (err e) = err (wrapped "configuration validation failed" e)

module _ (host : Host) where
  unfoldable pub get_env : String → String → String
  get_env key default = if host.getenv key == "" then default else host.getenv key

  unfoldable pub get_int : String → String → ℕ
  get_int key default = host.atoi (get_env key default)

  unfoldable pub read_config : List ℕ → Config
  read_config encryption_key = record {
    server = record {
      http_port = get_env "HTTP_PORT" "8080";
      grpc_port = get_env "GRPC_PORT" "50051";
      host = get_env "SERVER_HOST" "localhost";
      env = get_env "ENVIRONMENT" "development";
    };
    discord = record {
      client_id = get_env "DISCORD_CLIENT_ID" "";
      client_secret = get_env "DISCORD_CLIENT_SECRET" "";
      redirect_uri = get_env "DISCORD_REDIRECT_URI" "";
      scopes = host.split (get_env "DISCORD_OAUTH_SCOPES" "identify email guilds") " ";
      bot_token = get_env "DISCORD_BOT_TOKEN" "";
    };
    database = record {
      host = get_env "DB_HOST" "localhost";
      port = get_env "DB_PORT" "5432";
      user = get_env "DB_USER" "discordlite";
      password = get_env "DB_PASSWORD" "";
      name = get_env "DB_NAME" "discordlite_db";
      ssl_mode = get_env "DB_SSLMODE" "disable";
      max_open_conns = get_int "DB_MAX_OPEN_CONNS" "25";
      max_idle_conns = get_int "DB_MAX_IDLE_CONNS" "5";
    };
    security = record {
      token_encryption_key = encryption_key;
      session_expiry_hours = get_int "SESSION_EXPIRY_HOURS" "24";
      state_expiry_minutes = get_int "STATE_EXPIRY_MINUTES" "10";
    };
    logging = record { level = get_env "LOG_LEVEL" "info"; format = get_env "LOG_FORMAT" "json" };
    cache = record {
      guild_ttl_hours = get_int "CACHE_GUILD_TTL_HOURS" "1";
      channel_ttl_minutes = get_int "CACHE_CHANNEL_TTL_MINUTES" "30";
      message_ttl_minutes = get_int "CACHE_MESSAGE_TTL_MINUTES" "5";
    };
    websocket = record {
      enabled = get_env "WEBSOCKET_ENABLED" "true" == "true";
      max_connections_per_user = get_int "WEBSOCKET_MAX_CONNECTIONS_PER_USER" "5";
      heartbeat_interval = get_int "WEBSOCKET_HEARTBEAT_INTERVAL" "30";
      reconnect_attempts = get_int "WEBSOCKET_RECONNECT_ATTEMPTS" "3";
      reconnect_delay = get_int "WEBSOCKET_RECONNECT_DELAY" "5";
    };
  }

  abbrev pub load_with : Option (List ℕ) → Result Config
  load_with none =
      err (wrapped "invalid TOKEN_ENCRYPTION_KEY: must be a hex-encoded string" external)
  load_with (some key) = checked (read_config key) (validate (read_config key))

  -- The variables of a .env file are in the environment already.
  unfoldable pub load : Result Config
  load = load_with (host.decode_hex (get_env "TOKEN_ENCRYPTION_KEY" ""))

-- GetDSN
unfoldable pub get_dsn : DatabaseConfig → String
get_dsn c =
    "host=" ++ c.host ++ " port=" ++ c.port ++ " user=" ++ c.user ++ " password=" ++ c.password
    ++ " dbname=" ++ c.name ++ " sslmode=" ++ c.ssl_mode
