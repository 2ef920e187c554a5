-- ===== src/Grpc/CacheManager.antt =====
-- internal/grpc/cache_manager.go. A check that fails is a miss.
pub mod Lifetime
use discord_lite_server.Base.{ℕ, ◌*◌, Bool, false, String, Option, none, some}
use discord_lite_server.Models.{CacheType, guild, channel, message}
use discord_lite_server.Effect.{Env, Action, pure, catch, attempt, ◌>>=◌, ◌>>◌}
use discord_lite_server.Database.Cache.{set_cache_metadata, is_cache_valid, invalidate_cache}
use discord_lite_server.Auth.Discord.{minute}
use discord_lite_server.Grpc.AuthServer.{hour}

module _ (env : Env) where
  unfoldable pub check_guild_cache : ℕ → Action Bool
  check_guild_cache uid =
      catch (is_cache_valid env guild "user_guilds" (some uid)) (λ _. pure false)

  unfoldable pub set_guild_cache : ℕ → Action (Unit {0})
  set_guild_cache uid = set_cache_metadata env guild "user_guilds" (some uid) (1 * hour)

  unfoldable pub check_channel_cache : String → ℕ → Action Bool
  check_channel_cache guild_id uid =
      catch (is_cache_valid env channel guild_id (some uid)) (λ _. pure false)

  unfoldable pub set_channel_cache : String → ℕ → Action (Unit {0})
  set_channel_cache guild_id uid = set_cache_metadata env channel guild_id (some uid) (30 * minute)

  unfoldable pub check_message_cache : String → ℕ → Action Bool
  check_message_cache channel_id uid =
      catch (is_cache_valid env message channel_id (some uid)) (λ _. pure false)

  unfoldable pub set_message_cache : String → ℕ → Action (Unit {0})
  set_message_cache channel_id uid =
      set_cache_metadata env message channel_id (some uid) (5 * minute)

  unfoldable pub invalidate_channel_cache : String → Action (Unit {0})
  invalidate_channel_cache channel_id = invalidate_cache env message channel_id none

  -- The error is only logged.
  unfoldable pub invalidate_guild_cache : String → Action (Unit {0})
  invalidate_guild_cache guild_id = do attempt (invalidate_cache env channel guild_id none); pure tt
