-- ===== src/Database/Messages/Stored.antt =====
-- internal/database/message_queries.go: what is read after a message has been stored or deleted.
use discord_lite_server.Base.{
  ℕ, ◌≡◌, ◌≢◌, refl, sym, ◌∙◌, ap, Bool, true, false, String, Option, none, some, [], ◌∷◌, ◌++◌,
  nat_eq, string_eq, beq_refl, arith, inl, inr, Option-cases, Bool-cases,
}
use discord_lite_server.Base.Rows.{
  find, update, any, find-holds, find-append, find-append_some, find_single, find-update,
  find-update_other,
}
use discord_lite_server.Models.{Message, Tables}
use discord_lite_server.Effect.{Env, World, ok, statement, query, ◌>>=◌}
use discord_lite_server.Effect.Returned.{wrap-ok, statement-ok}
use discord_lite_server.Database.Channels.{has_channel_id}
use discord_lite_server.Database.Messages.{
  has_discord_message_id, merge_message, new_message, upsert_message, create_or_update_message,
  get_message_by_discord_id,
}

-- The row that a store leaves: the content and the time of the edit are the new ones, and of a
-- message that was known everything else is kept.
abbrev pub stored_row : Message → ℕ → ℕ → Option Message → Message
stored_row m next instant none = record {
  id = next;
  discord_message_id = m.discord_message_id;
  channel_id = m.channel_id;
  author_id = m.author_id;
  author_username = m.author_username;
  author_avatar = m.author_avatar;
  content = m.content;
  timestamp = m.timestamp;
  edited_timestamp = m.edited_timestamp;
  message_type = m.message_type;
  referenced_message_id = m.referenced_message_id;
  created_at = instant;
  updated_at = instant;
}
stored_row m next instant (some old) = record {
  id = old.id;
  discord_message_id = old.discord_message_id;
  channel_id = old.channel_id;
  author_id = old.author_id;
  author_username = old.author_username;
  author_avatar = old.author_avatar;
  content = m.content;
  timestamp = old.timestamp;
  edited_timestamp = m.edited_timestamp;
  message_type = old.message_type;
  referenced_message_id = old.referenced_message_id;
  created_at = old.created_at;
  updated_at = instant;
}

module _ (m : Message) (instant : ℕ) (t : Tables) where
  abbrev same_id : Message → Bool
  same_id = has_discord_message_id m.discord_message_id

  inserted_find :
      find same_id t.messages ≡ none
      → find same_id (t.messages ++ new_message m t.next_message instant ∷ [])
        ≡ some (new_message m t.next_message instant)
  inserted_find e =
      find-append same_id t.messages _ e ∙ find_single same_id _ (beq_refl m.discord_message_id)

  merged_find :
      (old : Message)
      → find same_id t.messages ≡ some old
      → find same_id (update same_id (merge_message m instant) t.messages)
        ≡ some (merge_message m instant old)
  merged_find old e = ground (
    arith,
    find-update same_id same_id (merge_message m instant) (λ (a : Message). refl) t.messages,
    find-holds same_id t.messages old e,
  )

  pub upsert_message-find :
      (r : Message) (t' : Tables)
      → upsert_message m instant t ≡ (ok r, t')
      → find same_id t'.messages
        ≡ some (stored_row m t.next_message instant (find same_id t.messages))
  unfolding upsert_message
  upsert_message-find r t' e = elim (Option-cases (find same_id t.messages)) [
    | inl new ↦ elim (Bool-cases (any (has_channel_id m.channel_id) t.channels)) [
      | inl there ↦
          let e' = rw (new, there, upsert_message) at e in
          rw new (ap (find same_id) (sym (ap (λ p. p.1.messages) e')) ∙ inserted_find new)
      | inr missing ↦ let e' = rw (new, missing, upsert_message) at e in cc
    ]
    | inr (old, known) ↦
        let e' = rw (known, upsert_message) at e in
        rw known (ap (find same_id) (sym (ap (λ p. p.1.messages) e')) ∙ merged_find old known)
  ]

  abbrev other_id : String → Message → Bool
  other_id = has_discord_message_id

  apart_ids :
      (d : String)
      → d ≢ m.discord_message_id
      → (a : Message) → other_id d a ≡ true
      → same_id a ≡ false
  apart_ids d ne a h = ground (
    arith,
    string_eq.beq_iff a.discord_message_id d,
    string_eq.beq_iff a.discord_message_id m.discord_message_id,
  )

  inserted_other :
      (d : String)
      → d ≢ m.discord_message_id
      → find (other_id d) (t.messages ++ new_message m t.next_message instant ∷ [])
        ≡ find (other_id d) t.messages
  unfolding find
  inserted_other d ne = elim (Option-cases (find (other_id d) t.messages)) [
    | inl e ↦ rw e (
        find-append (other_id d) t.messages _ e
        ∙ ground (arith, string_eq.beq_iff m.discord_message_id d))
    | inr (row, e) ↦ rw e (find-append_some (other_id d) t.messages _ row e)
  ]

  pub upsert_message-find_other :
      (d : String) (r : Message) (t' : Tables)
      → d ≢ m.discord_message_id
      → upsert_message m instant t ≡ (ok r, t')
      → find (other_id d) t'.messages ≡ find (other_id d) t.messages
  unfolding upsert_message
  upsert_message-find_other d r t' ne e = elim (Option-cases (find same_id t.messages)) [
    | inl new ↦ elim (Bool-cases (any (has_channel_id m.channel_id) t.channels)) [
      | inl there ↦
          let e' = rw (new, there, upsert_message) at e in
          ap (find (other_id d)) (sym (ap (λ p. p.1.messages) e')) ∙ inserted_other d ne
      | inr missing ↦ let e' = rw (new, missing, upsert_message) at e in cc
    ]
    | inr (old, known) ↦
        let e' = rw (known, upsert_message) at e in
        ap (find (other_id d)) (sym (ap (λ p. p.1.messages) e'))
        ∙ find-update_other same_id (other_id d) (merge_message m instant) (λ (a : Message). refl)
            (apart_ids d ne) t.messages
  ]

  pub upsert_message-id :
      (r : Message) (t' : Tables)
      → upsert_message m instant t ≡ (ok r, t')
      → r.id ≡ (stored_row m t.next_message instant (find same_id t.messages)).id
  unfolding upsert_message
  upsert_message-id r t' e = elim (Option-cases (find same_id t.messages)) [
    | inl new ↦ elim (Bool-cases (any (has_channel_id m.channel_id) t.channels)) [
      | inl there ↦ let e' = rw (new, there, upsert_message) at e in rw new (ground arith)
      | inr missing ↦ let e' = rw (new, missing, upsert_message) at e in cc
    ]
    | inr (old, known) ↦ let e' = rw (known, upsert_message) at e in rw known (ground arith)
  ]

module _ (env : Env) where
  read_back :
      (d : String) (row : Message) (w : World)
      → find (has_discord_message_id d) w.tables.messages ≡ some row
      → env.fails w.step ≡ false
      → (get_message_by_discord_id env d w).0 ≡ ok row
  unfolding get_message_by_discord_id query statement ◌>>=◌
  read_back d row w e up = ground arith

  -- A message that CreateOrUpdateMessage has stored is read back under its Discord id, by a read
  -- that answers: a new one as it was given, with the next id; of a known one only the content, the time of the edit and the
  -- time of the update are new. The id that the caller's struct gets is the one of that row, and
  -- every other message stays.
  pub get_message_by_discord_id-stored :
      (m r : Message) (d : String) (w w' : World)
      → create_or_update_message env m w ≡ (ok r, w')
      → env.fails w'.step ≡ false
      → d ≢ m.discord_message_id
      → let row =
          stored_row m w.tables.next_message
            (env.clock w.step)
            (find (has_discord_message_id m.discord_message_id) w.tables.messages) in
        ((get_message_by_discord_id env m.discord_message_id w').0 ≡ ok row)
        × (r.id ≡ row.id)
        × (find (has_discord_message_id d) w'.tables.messages
            ≡ find (has_discord_message_id d) w.tables.messages)
  unfolding create_or_update_message
  get_message_by_discord_id-stored m r d w w' e up ne =
      let p = statement-ok env (upsert_message m) r w w' (wrap-ok _ _ r w w' e) in
      (
        read_back m.discord_message_id _ w' (upsert_message-find m _ w.tables r w'.tables p) up,
        upsert_message-id m _ w.tables r w'.tables p,
        upsert_message-find_other m _ w.tables d r w'.tables ne p,
      )
