-- ===== src/Models/Cache.antt =====
-- internal/models/cache.go.
use discord_lite_server.Base.{ℕ, Bool, not, String, Option, ltb}

pub data CacheType : Type 0 where
  guild channel message : CacheType

pub record CacheMetadata : Type 0 where
  pub id : ℕ
  pub cache_type : CacheType
  pub entity_id : String
  pub user_id : Option ℕ
  pub last_fetched_at : ℕ
  pub expires_at : ℕ
  pub created_at : ℕ
  pub updated_at : ℕ

abbrev pub cache_is_expired : ℕ → CacheMetadata → Bool
cache_is_expired now c = ltb c.expires_at now

abbrev pub cache_is_valid : ℕ → CacheMetadata → Bool
cache_is_valid now c = not (cache_is_expired now c)
