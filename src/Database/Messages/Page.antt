-- ===== src/Database/Messages/Page.antt =====
-- internal/database/message_queries.go: what a page of GetMessagesByChannelID holds.
use discord_lite_server.Base.{
  ℕ, ◌≤◌, ◌<◌, ◌≡◌, ◌≢◌, refl, sym, subst, Bool, true, ◌⊎◌, inl, inr, String, some, List, [], ◌∷◌,
  ◌++◌, nat_eq, string_eq, arith, Bool-cases, ◌==◌, ◌&&◌, leb, ltb, false,
}
use mathlib.Core.List.{Perm}
use discord_lite_server.Base.Rows.{find, select, All, All-map}
use discord_lite_server.Base.Lists.{length, take, drop, length-take-le}
use discord_lite_server.Base.Sort.{
  sort_by, sort_by-Perm, sort_by-IsOrdered, All-sort_by, IsOrdered, take-drop, All-take, full-take,
  IsOrdered-take, ahead_of_rest,
}
use discord_lite_server.Models.{Message}
use discord_lite_server.Effect.{Env, World, ok}
use discord_lite_server.Effect.Returned.{wrap-ok, query-ok}
use discord_lite_server.Database.Messages.{
  page_limit, anchor, in_page, page_order, message_page, get_messages_by_channel_id,
}

-- What ORDER BY and LIMIT promise of the rows that satisfy a WHERE clause: the page and the rows
-- that are left out are the selected rows in some order; the page is ordered, every row of it
-- stands before every row that is left out, and rows are left out only of a full page.
pub record IsPage {A : Type 0} (p : A → Bool) (le : A → A → Bool) (n : ℕ) (rows page : List A)
    : Type 0 where
  pub left_out : List A
  pub permutation : Perm (page ++ left_out) (select p rows)
  pub ordered : IsOrdered le page
  pub ahead : All (λ a. All (λ b. le a b ≡ true) left_out) page
  pub bounded : length page ≤ n
  pub full : (left_out ≡ []) ⊎ (length page ≡ n)

module _ {A : Type 0} where
  All-select : (p : A → Bool) (xs : List A) → All (λ a. p a ≡ true) (select p xs)
  unfolding select
  All-select p [] = tt
  All-select p (x ∷ xs) = elim (Bool-cases (p x)) [
    | inl e ↦ rw (e, select) (e, All-select p xs)
    | inr e ↦ rw (e, select) (All-select p xs)
  ]

  pub take-IsPage :
      (p : A → Bool) (le : A → A → Bool)
      → ((a b : A) → le a b ≡ false → le b a ≡ true)
      → ((a b c : A) → le a b ≡ true → le b c ≡ true → le a c ≡ true)
      → (n : ℕ) (rows : List A) → IsPage p le n rows (take n (sort_by le (select p rows)))
  take-IsPage p le total chain n rows =
      let sorted = sort_by-IsOrdered le total chain (select p rows) in
      record {
        left_out = drop n (sort_by le (select p rows));
        permutation =
            subst (λ xs. Perm xs (select p rows)) (sym (take-drop n (sort_by le (select p rows))))
              (sort_by-Perm le (select p rows));
        ordered = IsOrdered-take le n _ sorted;
        ahead = ahead_of_rest le n _ sorted;
        bounded = length-take-le n _;
        full = full-take n _;
      }

pub page_limit-le : (limit : ℕ) → page_limit limit ≤ 100
unfolding page_limit
page_limit-le limit = ground arith

-- What a request of at most `limit` messages means: the number that is given, where it lies
-- between 1 and 100, and 50 otherwise. A negative int is a pattern that lies far above 100.
pub data MeansLimit : ℕ → ℕ → Type 0 where
  given : {n : ℕ} → 1 ≤ n → n ≤ 100 → MeansLimit n n
  not_given : MeansLimit 0 50
  too_large : {n : ℕ} → 100 < n → MeansLimit n 50

-- What the bounds `before` and `after` mean, among the stored messages: which messages of the
-- channel are asked for, and which come first.
pub data MeansBounds (cid : ℕ) (ms : List Message)
    : String → String → (Message → Bool) → (Message → Message → Bool) → Type 0 where
  no_bound :
      MeansBounds cid ms "" "" (λ m. m.channel_id == cid) (λ a b. leb b.timestamp a.timestamp)
  older_than :
      {before after : String} {bound : Message}
      → before ≢ ""
      → find (λ m. m.discord_message_id == before) ms ≡ some bound
      → MeansBounds cid ms before after
          (λ m. m.channel_id == cid && ltb m.timestamp bound.timestamp)
          (λ a b. leb b.timestamp a.timestamp)
  newer_than :
      {after : String} {bound : Message}
      → after ≢ ""
      → find (λ m. m.discord_message_id == after) ms ≡ some bound
      → MeansBounds cid ms "" after
          (λ m. m.channel_id == cid && ltb bound.timestamp m.timestamp)
          (λ a b. leb a.timestamp b.timestamp)

page_limit-means : {limit n : ℕ} → MeansLimit limit n → page_limit limit ≡ n
unfolding page_limit
page_limit-means (given lower upper) = ground arith
page_limit-means not_given = refl
page_limit-means (too_large over) = ground arith

page_order-total :
    (before after : String) (a b : Message)
    → page_order before after a b ≡ false
    → page_order before after b a ≡ true
unfolding page_order
page_order-total before after a b = ground arith

page_order-chain :
    (before after : String) (a b c : Message)
    → page_order before after a b ≡ true
    → page_order before after b c ≡ true
    → page_order before after a c ≡ true
unfolding page_order
page_order-chain before after a b c = ground arith

module _ (cid : ℕ) (ms : List Message) where
  -- The tests of the statement that is chosen are those that the bounds mean.
  in_page-means :
      {before after : String} {p : Message → Bool} {le : Message → Message → Bool}
      → MeansBounds cid ms before after p le
      → (m : Message) → in_page cid before after ms m ≡ p m
  unfolding in_page anchor
  in_page-means no_bound m = refl
  in_page-means {before} (older_than ne e) m = ground (arith, e, string_eq.beq_iff before "")
  in_page-means {after = after} (newer_than ne e) m = ground (arith, e, string_eq.beq_iff after "")

  page_order-means :
      {before after : String} {p : Message → Bool} {le : Message → Message → Bool}
      → MeansBounds cid ms before after p le
      → (a b : Message) → page_order before after a b ≡ le a b
  unfolding page_order
  page_order-means no_bound a b = refl
  page_order-means {before} (older_than ne e) a b = ground (arith, string_eq.beq_iff before "")
  page_order-means {after = after} (newer_than ne e) a b =
      ground (arith, string_eq.beq_iff after "")

  message_page-IsPage :
      {before after : String} {p : Message → Bool} {le : Message → Message → Bool} (limit : ℕ)
      → MeansBounds cid ms before after p le
      → IsPage p le (page_limit limit) ms (message_page cid limit before after ms)
  unfolding message_page
  message_page-IsPage {before} {after} {p} {le} limit bounds =
      let tests : in_page cid before after ms ≡ p = λ i m. in_page-means bounds m i in
      let order : page_order before after ≡ le = λ i a b. page_order-means bounds a b i in
      subst (λ q. IsPage q le (page_limit limit) ms (message_page cid limit before after ms)) tests
        (subst
          (λ l.
            IsPage (in_page cid before after ms) l (page_limit limit) ms
              (message_page cid limit before after ms))
          order
          (take-IsPage _ _ (page_order-total before after) (page_order-chain before after) _ _))

-- GetMessagesByChannelID implements the page that its arguments mean: of the stored messages of
-- the channel, without a bound, or older than the message `before`, or newer than the message
-- `after` where `before` is empty, those that come first by time (newest first, or oldest first
-- after a message), in this order, as many as the limit and fewer only where there are no more. The
-- bound is a message that is stored.
pub get_messages_by_channel_id-IsPage :
    (env : Env) (cid limit n : ℕ) (before after : String) (p : Message → Bool)
    (le : Message → Message → Bool) (page : List Message) (w w' : World)
    → MeansLimit limit n
    → MeansBounds cid w.tables.messages before after p le
    → get_messages_by_channel_id env cid limit before after w ≡ (ok page, w')
    → IsPage p le n w.tables.messages page
unfolding get_messages_by_channel_id
get_messages_by_channel_id-IsPage env cid limit n before after p le page w w' number bounds e =
    subst (IsPage p le n w.tables.messages)
      (query-ok env (λ t. message_page cid limit before after t.messages) page w w'
        (wrap-ok _ _ page w w' e)).0
      (subst
        (λ k.
          IsPage p le k w.tables.messages (message_page cid limit before after w.tables.messages))
        (page_limit-means number) (message_page-IsPage cid w.tables.messages limit bounds))

-- The rows of a page satisfy what follows from its WHERE clause.
in_page-All :
    (P : Message → Type 0) (cid limit : ℕ) (before after : String) (ms : List Message)
    → ((m : Message) → in_page cid before after ms m ≡ true → P m)
    → All P (message_page cid limit before after ms)
unfolding message_page
in_page-All P cid limit before after ms f =
    All-take P _ _ (All-sort_by _ P _ (All-map _ P f _ (All-select _ ms)))

later :
    (cid time : ℕ) (after : String) (ms : List Message)
    → after ≢ ""
    → anchor after ms ≡ some time
    → (m : Message) → in_page cid "" after ms m ≡ true
    → (m.channel_id ≡ cid) × (time < m.timestamp)
unfolding in_page
later cid time after ms ne e m h =
    ground
      (arith, string_eq.beq_iff after "", string_eq.beq_iff "" "", nat_eq.beq_iff m.channel_id cid)

module _ (env : Env) (cid limit time : ℕ) (page : List Message) (w w' : World) where
  -- A page after a known message holds messages of the channel that are newer than it.
  pub page_after :
      (after : String)
      → after ≢ ""
      → anchor after w.tables.messages ≡ some time
      → get_messages_by_channel_id env cid limit "" after w ≡ (ok page, w')
      → All (λ m. (m.channel_id ≡ cid) × (time < m.timestamp)) page
  unfolding get_messages_by_channel_id
  page_after after ne known e =
      subst (All (λ m. (m.channel_id ≡ cid) × (time < m.timestamp)))
        (query-ok env (λ t. message_page cid limit "" after t.messages) page w w'
          (wrap-ok _ _ page w w' e)).0
        (in_page-All _ cid limit "" after w.tables.messages
          (later cid time after w.tables.messages ne known))
