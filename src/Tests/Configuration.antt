-- ===== src/Tests/Configuration.antt =====
-- An environment that Load accepts.
use discord_lite_server.Base.{String, some, [], ◌∷◌, ◌≡◌, refl, ◌==◌, string_eq, if◌then◌else◌}
use discord_lite_server.Effect.{ok}
use discord_lite_server.Config.{
  Config, require, ◌>>◌, validate_websocket, validate_services, validate_security, validate, Host,
  get_env, get_int, read_config,
}
use discord_lite_server.Config.Validity.{IsValid, validate-IsValid}
use discord_lite_server.Tests.Services.{settings}

-- The variables without a default are set, all to one text; every number is 5.
abbrev getenv : String → String
getenv key = if key == "LOG_LEVEL" then "" else if key == "LOG_FORMAT" then "" else "set"

abbrev host : Host
host = record {
  getenv = getenv;
  atoi = λ x. 5;
  decode_hex = λ x. some settings.encryption_key;
  split = λ x sep. x ∷ [];
}

abbrev loaded : Config
loaded = read_config host settings.encryption_key

validates : validate loaded ≡ ok tt
unfolding validate validate_security validate_services validate_websocket require read_config
    get_env get_int ◌>>◌
validates = refl

validate-IsValid_example : IsValid loaded
validate-IsValid_example = validate-IsValid loaded validates
