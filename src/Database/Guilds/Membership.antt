-- ===== src/Database/Guilds/Membership.antt =====
-- internal/database/guild_queries.go and channel_queries.go: who has access.
use discord_lite_server.Base.{
  ℕ, ◌≡◌, refl, ◌∙◌, subst, ap, Bool, false, ◌&&◌, String, some, List, [], ◌∷◌, ◌==◌, nat_eq,
  string_eq, beq_comm, eq_of_beq, arith, inl, inr, Bool-cases,
}
use discord_lite_server.Base.Rows.{find, remove, any, All, Distinct}
use discord_lite_server.Models.{Guild, UserGuild, Channel}
use discord_lite_server.Effect.{Env, World, ok}
use discord_lite_server.Effect.Returned.{bind-ok, wrap-ok, statement-ok}
use discord_lite_server.Database.Guilds.{
  has_discord_guild_id, is_membership, delete_membership, has_guild_access, delete_user_guild,
}
use discord_lite_server.Database.Channels.{has_discord_channel_id, has_channel_access}
use discord_lite_server.Database.Messages.Deleted.{found-ok}
use discord_lite_server.Database.Content.{IsContentSound}

module _ {A : Type 0} where
  any-removed :
      (p q : A → Bool)
      → ((a : A) → p a ≡ false → q a ≡ false)
      → (xs : List A) → any q (remove p xs) ≡ false
  unfolding any remove
  any-removed p q out [] = refl
  any-removed p q out (x ∷ xs) = ground (arith, out x, any-removed p q out xs)

  absent :
      (key : A → String) (id : A → ℕ) (n : ℕ) (d : String) (xs : List A)
      → All (λ a. (d == key a) ≡ false) xs
      → any (λ a. id a == n && key a == d) xs ≡ false
  unfolding any
  absent key id n d [] h = refl
  absent key id n d (x ∷ xs) h = ground (arith, h.0, beq_comm d (key x), absent key id n d xs h.1)

  -- The one row with a text refers to one id only.
  only_row :
      (key : A → String) (id : A → ℕ) (n : ℕ) (d : String) (xs : List A) (row : A)
      → Distinct key xs
      → find (λ a. key a == d) xs ≡ some row
      → (id row == n) ≡ false
      → any (λ a. id a == n && key a == d) xs ≡ false
  unfolding find any
  only_row key id n d [] row u e h = refl
  only_row key id n d (x ∷ xs) row u e h = elim (Bool-cases (key x == d)) [
    | inl here ↦
        let same : x ≡ row = ground arith in
        ground (
          arith,
          here,
          absent key id n d xs
              (subst (λ k. All (λ a. (k == key a) ≡ false) xs) (eq_of_beq (key x) d here) u.0),
          ap id same,
        )
    | inr there ↦ ground (arith, there, only_row key id n d xs row u.1)
  ]

module _ (env : Env) where
  delete_user_guild-tables :
      (uid gid : ℕ) (w w' : World)
      → delete_user_guild env uid gid w ≡ (ok tt, w')
      → (delete_membership uid gid (env.clock w.step) w.tables).1 ≡ w'.tables
  unfolding delete_user_guild
  delete_user_guild-tables uid gid w w' e =
      let (n, v, e1, e2) = bind-ok _ _ tt w w' e in
      ap (λ q. q.1) (statement-ok env (delete_membership uid gid) n w v (wrap-ok _ _ n w v e1))
      ∙ found-ok _ _ tt v w' e2

  -- From tables in which the Discord ids are unique: once DeleteUserGuild has removed a user from a
  -- guild, the user has access neither to the guild nor to a channel of it.
  pub delete_user_guild-revokes :
      (uid : ℕ) (g : Guild) (c : Channel) (w w' : World)
      → IsContentSound w.tables
      → find (has_discord_guild_id g.discord_guild_id) w.tables.guilds ≡ some g
      → find (has_discord_channel_id c.discord_channel_id) w.tables.channels ≡ some c
      → c.guild_id ≡ g.id
      → delete_user_guild env uid g.id w ≡ (ok tt, w')
      → (has_guild_access uid g.discord_guild_id w'.tables ≡ false)
        × (has_channel_access uid c.discord_channel_id w'.tables ≡ false)
  unfolding has_guild_access has_channel_access delete_membership
  delete_user_guild-revokes uid g c w w' v e k of ran =
      subst
        (λ t.
          (has_guild_access uid g.discord_guild_id t ≡ false)
          × (has_channel_access uid c.discord_channel_id t ≡ false))
        (delete_user_guild-tables uid g.id w w' ran)
        (
          any-removed (is_membership uid g.id) _ (no_guild v e) w.tables.user_guilds,
          any-removed (is_membership uid g.id) _ (no_channel v k of) w.tables.user_guilds,
        )
    where
      no_guild :
          IsContentSound w.tables
          → find (has_discord_guild_id g.discord_guild_id) w.tables.guilds ≡ some g
          → (m : UserGuild) → is_membership uid g.id m ≡ false
          → (m.user_id == uid
              && any
                  (λ x. x.id == m.guild_id && x.discord_guild_id == g.discord_guild_id)
                  w.tables.guilds)
            ≡ false
      no_guild v' e' m h = ground (
        arith,
        beq_comm m.guild_id g.id,
        only_row (λ (x : Guild). x.discord_guild_id) (λ (x : Guild). x.id) m.guild_id
            g.discord_guild_id w.tables.guilds g v'.guild_table.keys_distinct e',
      )

      no_channel :
          IsContentSound w.tables
          → find (has_discord_channel_id c.discord_channel_id) w.tables.channels ≡ some c
          → c.guild_id ≡ g.id
          → (m : UserGuild) → is_membership uid g.id m ≡ false
          → (m.user_id == uid
              && any
                  (λ x. x.guild_id == m.guild_id && x.discord_channel_id == c.discord_channel_id)
                  w.tables.channels)
            ≡ false
      no_channel v' k' of' m h = ground (
        arith,
        beq_comm m.guild_id g.id,
        of',
        only_row (λ (x : Channel). x.discord_channel_id) (λ (x : Channel). x.guild_id) m.guild_id
            c.discord_channel_id w.tables.channels c v'.channel_table.keys_distinct k',
      )
