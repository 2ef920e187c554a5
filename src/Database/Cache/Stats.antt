-- ===== src/Database/Cache/Stats.antt =====
-- internal/database/cache_queries.go: GetCacheStats.
use Prim.Native.String.{◌++◌}
use discord_lite_server.Base.{
  ℕ, ◌+◌, ◌≡◌, refl, Bool, not, ◌&&◌, String, List, [], ◌∷◌, ◌==◌, nat_eq, arith, ltb,
  if◌then◌else◌,
}
use discord_lite_server.Base.Rows.{any, count}
use discord_lite_server.Models.{CacheType, guild, channel, message, CacheMetadata}
use discord_lite_server.Effect.{Env, Action, ok, wrap, statement}
use discord_lite_server.Database.Cache.{type_index}

abbrev type_text : CacheType → String
type_text guild = "guild"
type_text channel = "channel"
type_text message = "message"

abbrev pub is_of : CacheType → CacheMetadata → Bool
is_of kind r = type_index r.cache_type == type_index kind

-- expires_at > NOW(), and its negation
abbrev pub valid_of : CacheType → ℕ → CacheMetadata → Bool
valid_of kind instant r = is_of kind r && ltb instant r.expires_at

abbrev pub expired_of : CacheType → ℕ → CacheMetadata → Bool
expired_of kind instant r = is_of kind r && not (ltb instant r.expires_at)

-- The entries of the map for one row of GROUP BY cache_type, which has no row for an absent type.
unfoldable pub type_stats :
    CacheType → ℕ → List CacheMetadata → List (String × ℕ) → List (String × ℕ)
type_stats kind instant rows rest =
    if any (is_of kind) rows
    then (type_text kind ++ "_total", count (is_of kind) rows)
      ∷ (type_text kind ++ "_valid", count (valid_of kind instant) rows)
      ∷ (type_text kind ++ "_expired", count (expired_of kind instant) rows)
      ∷ rest
    else rest

unfoldable pub cache_stats : ℕ → List CacheMetadata → List (String × ℕ)
cache_stats instant rows =
    type_stats guild instant rows
      (type_stats channel instant rows (type_stats message instant rows []))

unfoldable pub get_cache_stats : Env → Action (List (String × ℕ))
get_cache_stats env =
    wrap "failed to get cache stats"
      (statement env (λ instant t. (ok (cache_stats instant t.cache_metadata), t)))

-- The valid and the expired entries of a type are all of them.
pub total-valid_expired :
    (kind : CacheType) (instant : ℕ) (rows : List CacheMetadata)
    → count (is_of kind) rows
      ≡ count (valid_of kind instant) rows + count (expired_of kind instant) rows
unfolding count
total-valid_expired kind instant [] = refl
total-valid_expired kind instant (r ∷ rows) = ground (arith, total-valid_expired kind instant rows)
