-- ===== src/Database/Messages/Deleted.antt =====
-- internal/database/message_queries.go: what DeleteMessage takes, and what it leaves.
use discord_lite_server.Base.{
  ℕ, ◌≡◌, ◌≢◌, refl, sym, ◌∙◌, subst, ap, Bool, true, false, String, none, some, List, [], ◌∷◌,
  ◌==◌, nat_eq, string_eq, eq_of_beq, beq_comm, arith, inl, inr, Bool-cases, if◌then◌else◌,
}
use discord_lite_server.Base.Rows.{
  find, select, remove, any, All, All-find, Distinct, find-holds, find-remove, find-remove_other,
}
use discord_lite_server.Base.Table.{any-none}
use discord_lite_server.Models.{Message, MessageAttachment, Tables}
use discord_lite_server.Effect.{Env, World, ok, Error, raise, pure}
use discord_lite_server.Effect.Returned.{bind-ok, wrap-ok, statement-ok}
use discord_lite_server.Database.Messages.{
  has_discord_message_id, delete_message_row, delete_message,
}
use discord_lite_server.Database.Cascade.{drop_messages}
use discord_lite_server.Database.Content.{IsContentSound}

module _ {A : Type 0} where
  select-remove_all :
      (p q : A → Bool)
      → ((a : A) → q a ≡ true → p a ≡ true)
      → (xs : List A) → select q (remove p xs) ≡ []
  unfolding select remove
  select-remove_all p q within [] = refl
  select-remove_all p q within (x ∷ xs) = ground (arith, within x, select-remove_all p q within xs)

  select-remove_other :
      (p q : A → Bool)
      → ((a : A) → q a ≡ true → p a ≡ false)
      → (xs : List A) → select q (remove p xs) ≡ select q xs
  unfolding select remove
  select-remove_other p q apart [] = refl
  select-remove_other p q apart (x ∷ xs) = ground (arith, apart x, select-remove_other p q apart xs)

  any-select_found :
      (p q : A → Bool) (xs : List A) (a : A)
      → find p xs ≡ some a
      → q a ≡ true
      → any q (select p xs) ≡ true
  unfolding find select any
  any-select_found p q [] a e h = absurd (ground arith)
  any-select_found p q (x ∷ xs) a e h = ground (arith, any-select_found p q xs a)

  All-select {κ} : (P : A → Type κ) (p : A → Bool) (xs : List A) → All P xs → All P (select p xs)
  unfolding select
  All-select P p [] h = tt
  All-select P p (x ∷ xs) h = elim (Bool-cases (p x)) [
    | inl e ↦ rw (e, select) (h.0, All-select P p xs h.1)
    | inr e ↦ rw (e, select) (All-select P p xs h.1)
  ]

  -- A row that is found and not selected shares its key with no selected row.
  any-select-Distinct :
      (key : A → ℕ) (p r : A → Bool) (xs : List A) (a : A)
      → Distinct key xs
      → find r xs ≡ some a
      → p a ≡ false
      → any (λ b. key b == key a) (select p xs) ≡ false
  unfolding find select any
  any-select-Distinct key p r [] a d e h = refl
  any-select-Distinct key p r (x ∷ xs) a d e h = elim (Bool-cases (r x)) [
    | inl here ↦
        let same : x ≡ a = ground arith in
        let apart : All (λ b. (key b == key a) ≡ false) xs =
          subst (λ y. All (λ b. (key b == key y) ≡ false) xs) same (turned xs d.0) in
        ground (arith, any-none (λ b. key b == key a) (select p xs) (All-select _ p xs apart))
    | inr there ↦
        let e' : find r xs ≡ some a = ground arith in
        ground (
          arith,
          any-select-Distinct key p r xs a d.1 e' h,
          All-find r (λ y. (key x == key y) ≡ false) xs a d.0 e',
        )
  ]
    where
      turned :
          (ys : List A)
          → All (λ y. (key x == key y) ≡ false) ys
          → All (λ y. (key y == key x) ≡ false) ys
      turned [] k = tt
      turned (y ∷ ys) k = (beq_comm (key y) (key x) ∙ k.0, turned ys k.1)

abbrev pub attached_to : Message → MessageAttachment → Bool
attached_to m a = a.message_id == m.id

pub found-ok :
    (b : Bool) (x : Error) (u : Unit {0}) (w w' : World)
    → (if b then raise x else pure tt) w ≡ (ok u, w')
    → w.tables ≡ w'.tables
unfolding raise pure
found-ok true x u w w' e = cc
found-ok false x u w w' e = ground arith

module _ (env : Env) where
  delete_message-tables :
      (d : String) (w w' : World)
      → delete_message env d w ≡ (ok tt, w')
      → drop_messages (has_discord_message_id d) w.tables ≡ w'.tables
  unfolding delete_message delete_message_row
  delete_message-tables d w w' e =
      let (n, v, e1, e2) = bind-ok _ _ tt w w' e in
      let p = statement-ok env (delete_message_row d) n w v (wrap-ok _ _ n w v e1) in
      ap (λ q. q.1) p ∙ found-ok _ _ tt v w' e2

  -- From tables whose ids are unique: when DeleteMessage succeeds, the message is gone and so are
  -- its attachments, and any other message is found as before, with the attachments it had.
  pub delete_message-gone :
      (d : String) (old other : Message) (w w' : World)
      → IsContentSound w.tables
      → find (has_discord_message_id d) w.tables.messages ≡ some old
      → find (has_discord_message_id other.discord_message_id) w.tables.messages ≡ some other
      → other.discord_message_id ≢ d
      → delete_message env d w ≡ (ok tt, w')
      → (find (has_discord_message_id d) w'.tables.messages ≡ none)
        × (select (attached_to old) w'.tables.message_attachments ≡ [])
        × (find (has_discord_message_id other.discord_message_id) w'.tables.messages ≡ some other)
        × (select (attached_to other) w'.tables.message_attachments
            ≡ select (attached_to other) w.tables.message_attachments)
  unfolding drop_messages
  delete_message-gone d old other w w' v e k ne ran =
      let gone = delete_message-tables d w w' ran in
      let p : Message → Bool = has_discord_message_id d in
      let taken : MessageAttachment → Bool =
        λ a. any (λ m. m.id == a.message_id) (select p w.tables.messages) in
      let messages = ap (λ (t : Tables). t.messages) gone in
      let attachments = ap (λ (t : Tables). t.message_attachments) gone in
      (
        ap (find p) (sym messages) ∙ find-remove p w.tables.messages,
        ap (select (attached_to old)) (sym attachments)
            ∙ select-remove_all taken (attached_to old) own w.tables.message_attachments,
        ap (find (has_discord_message_id other.discord_message_id)) (sym messages)
            ∙ find-remove_other p (has_discord_message_id other.discord_message_id) apart
                w.tables.messages
            ∙ k,
        ap (select (attached_to other)) (sym attachments)
            ∙ select-remove_other taken (attached_to other) foreign w.tables.message_attachments,
      )
    where
      apart :
          (a : Message)
          → has_discord_message_id other.discord_message_id a ≡ true
          → has_discord_message_id d a ≡ false
      apart a h = ground (
        arith,
        string_eq.beq_iff a.discord_message_id other.discord_message_id,
        string_eq.beq_iff a.discord_message_id d,
      )

      own :
          (a : MessageAttachment)
          → attached_to old a ≡ true
          → any (λ m. m.id == a.message_id) (select (has_discord_message_id d) w.tables.messages)
            ≡ true
      own a h =
          any-select_found (has_discord_message_id d) (λ m. m.id == a.message_id) _ old e
            (beq_comm old.id a.message_id ∙ h)

      foreign :
          (a : MessageAttachment)
          → attached_to other a ≡ true
          → any (λ m. m.id == a.message_id) (select (has_discord_message_id d) w.tables.messages)
            ≡ false
      foreign a h =
          subst
            (λ id.
              any (λ m. m.id == id) (select (has_discord_message_id d) w.tables.messages) ≡ false)
            (sym (eq_of_beq a.message_id other.id h))
            (any-select-Distinct (λ (m : Message). m.id) (has_discord_message_id d)
              (has_discord_message_id other.discord_message_id) w.tables.messages other
              v.message_table.ids_distinct k (apart other (find-holds _ w.tables.messages other k)))
