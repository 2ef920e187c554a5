-- ===== src/Tests/Caches.antt =====
-- An entry of the cache that is set, checked and invalidated.
use discord_lite_server.Base.{suc, ◌+◌, some, none, ◌≡◌, refl, not, true, [], ◌∷◌, ltb, arith}
use discord_lite_server.Base.Rows.{find, remove, count}
use discord_lite_server.Models.{message, migrated}
use discord_lite_server.Effect.{World, ok, statement, now, ◌>>=◌}
use discord_lite_server.Database.Cache.{
  upsert_cache, delete_cache, set_cache_metadata, is_cache_valid, invalidate_cache,
}
use discord_lite_server.Grpc.CacheManager.{
  set_message_cache, check_message_cache, invalidate_channel_cache,
}
use discord_lite_server.Grpc.CacheManager.Lifetime.{
  is_cache_valid-set, check_message_cache-invalidate,
}
use discord_lite_server.Tests.Services.{env}

-- The user 1 exists: the entries of a user refer to it.
abbrev start : World
start = record {
  tables = record migrated {
    users =
        record {
          id = 1;
          discord_id = "7";
          username = "ann";
          discriminator = none;
          avatar = none;
          email = none;
          created_at = 0;
          updated_at = 0;
        }
        ∷ [];
    next_user = 2;
  };
  step = 0;
}

-- A lifetime of three nanoseconds, which a check at the instant 3 still meets.
abbrev set : World
set = (set_cache_metadata env message "channel" (some 1) 3 start).1

sets : set_cache_metadata env message "channel" (some 1) 3 start ≡ (ok tt, set)
unfolding set_cache_metadata upsert_cache find statement now ◌>>=◌
sets = refl

is_cache_valid-set_example :
    (is_cache_valid env message "channel" (some 1) set).0
    ≡ ok (not (ltb (env.clock start.step + 3) (env.clock (suc set.step))))
is_cache_valid-set_example =
    is_cache_valid-set message "channel" 1 env 3 start set set sets refl refl

abbrev filled : World
filled = (set_message_cache env "channel" 1 start).1

fills : set_message_cache env "channel" 1 start ≡ (ok tt, filled)
unfolding set_message_cache set_cache_metadata upsert_cache find statement now ◌>>=◌
fills = refl

abbrev invalidated : World
invalidated = (invalidate_channel_cache env "channel" filled).1

invalidates : invalidate_channel_cache env "channel" filled ≡ (ok tt, invalidated)
unfolding invalidate_channel_cache invalidate_cache delete_cache set_message_cache
    set_cache_metadata upsert_cache find remove count statement now ◌>>=◌
invalidates = refl

check_message_cache-invalidate_example :
    (check_message_cache env "channel" 1 invalidated).0 ≡ ok true
unfolding invalidate_channel_cache invalidate_cache delete_cache set_message_cache
    set_cache_metadata upsert_cache find remove count statement now ◌>>=◌
check_message_cache-invalidate_example =
    check_message_cache-invalidate env "channel" 1 start filled invalidated fills invalidates refl
      (omega arith)
