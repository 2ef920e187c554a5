-- ===== src/Base/Rows.antt =====
-- A table is a list of rows. A statement's WHERE clause is a Boolean test on rows.
use Prim.Native.Nat.{ℕ, suc}
use mathlib.Core.Path.{◌≡◌, refl}
use mathlib.Core.Bool.{Bool, true, false}
use mathlib.Core.Option
use mathlib.Core.Option.{Option, none, some}
use mathlib.Core.List.{List, [], ◌∷◌, ◌++◌}
use native.Mathlib.Omega.{arith}
use discord_lite_server.Base.Tests.{if◌then◌else◌}
use discord_lite_server.Base.Keys.{Eq, ◌==◌}

module _ {ℓ} {A : Type ℓ} where
  -- SELECT of one row
  unfoldable pub find : (A → Bool) → List A → Option A
  find p [] = none
  find p (x ∷ xs) = if p x then some x else find p xs

  -- SELECT of all rows
  unfoldable pub select : (A → Bool) → List A → List A
  select p [] = []
  select p (x ∷ xs) = if p x then x ∷ select p xs else select p xs

  -- DELETE
  unfoldable pub remove : (A → Bool) → List A → List A
  remove p [] = []
  remove p (x ∷ xs) = if p x then remove p xs else x ∷ remove p xs

  -- UPDATE
  unfoldable pub update : (A → Bool) → (A → A) → List A → List A
  update p f [] = []
  update p f (x ∷ xs) = (if p x then f x else x) ∷ update p f xs

  -- The rows affected by an UPDATE or a DELETE.
  unfoldable pub count : (A → Bool) → List A → ℕ
  count p [] = 0
  count p (x ∷ xs) = if p x then suc (count p xs) else count p xs

  -- EXISTS
  unfoldable pub any : (A → Bool) → List A → Bool
  any p [] = false
  any p (x ∷ xs) = if p x then true else any p xs

  abbrev pub All {κ} : (A → Type κ) → List A → Type κ
  All P [] = Unit
  All P (x ∷ xs) = P x × All P xs

  module _ (p : A → Bool) where
    pub find-holds : (xs : List A) (a : A) → find p xs ≡ some a → p a ≡ true
    unfolding find
    find-holds [] a e = ground arith
    find-holds (x ∷ xs) a e = ground (arith, find-holds xs a)

    pub find-remove : (xs : List A) → find p (remove p xs) ≡ none
    unfolding find remove
    find-remove [] = refl
    find-remove (x ∷ xs) = ground (arith, find-remove xs)

    pub find_single : (a : A) → p a ≡ true → find p (a ∷ []) ≡ some a
    unfolding find
    find_single a h = ground arith

    pub find-append : (xs ys : List A) → find p xs ≡ none → find p (xs ++ ys) ≡ find p ys
    unfolding find
    find-append [] ys e = refl
    find-append (x ∷ xs) ys e = ground (arith, find-append xs ys)

    pub find-append_some :
        (xs ys : List A) (a : A) → find p xs ≡ some a → find p (xs ++ ys) ≡ some a
    unfolding find
    find-append_some [] ys a e = ground arith
    find-append_some (x ∷ xs) ys a e = ground (arith, find-append_some xs ys a)

    pub count-find : (xs : List A) → find p xs ≡ none → count p xs ≡ 0
    unfolding find count
    count-find [] e = refl
    count-find (x ∷ xs) e = ground (arith, count-find xs)

    pub find-count : (xs : List A) → count p xs ≡ 0 → find p xs ≡ none
    unfolding find count
    find-count [] e = refl
    find-count (x ∷ xs) e = ground (arith, find-count xs)

    pub All-find {κ} : (P : A → Type κ) (xs : List A) (a : A) → All P xs → find p xs ≡ some a → P a
    unfolding find
    All-find P [] a h e = absurd (ground arith)
    All-find P (x ∷ xs) a h e = ground (arith, h.0, All-find P xs a h.1)

    pub All-remove {κ} : (P : A → Type κ) (xs : List A) → All P xs → All P (remove p xs)
    unfolding remove
    All-remove P [] h = tt
    All-remove P (x ∷ xs) h = ground (arith, h.0, All-remove P xs h.1)

    pub All-update {κ} :
        (P : A → Type κ) (f : A → A)
        → ((a : A) → P a → P (f a))
        → (xs : List A) → All P xs
        → All P (update p f xs)
    unfolding update
    All-update P f keep [] h = tt
    All-update P f keep (x ∷ xs) h = ground (arith, h.0, keep x h.0, All-update P f keep xs h.1)

  pub All-append {κ} : (P : A → Type κ) (xs ys : List A) → All P xs → All P ys → All P (xs ++ ys)
  All-append P [] ys h k = k
  All-append P (x ∷ xs) ys h k = (h.0, All-append P xs ys h.1 k)

  pub All-map {κ μ} :
      (P : A → Type κ) (Q : A → Type μ)
      → ((a : A) → P a → Q a)
      → (xs : List A) → All P xs
      → All Q xs
  All-map P Q f [] h = tt
  All-map P Q f (x ∷ xs) h = (f x h.0, All-map P Q f xs h.1)

  -- A DELETE of other rows leaves what a SELECT finds.
  pub find-remove_other :
      (p q : A → Bool)
      → ((a : A) → q a ≡ true → p a ≡ false)
      → (xs : List A) → find q (remove p xs) ≡ find q xs
  unfolding find remove
  find-remove_other p q apart [] = refl
  find-remove_other p q apart (x ∷ xs) = ground (arith, apart x, find-remove_other p q apart xs)

  -- An UPDATE that does not touch what the WHERE clause reads changes the row that is found.
  pub find-update :
      (p q : A → Bool) (f : A → A)
      → ((a : A) → q (f a) ≡ q a)
      → (xs : List A)
      → find q (update p f xs) ≡ Option.map (λ a. if p a then f a else a) (find q xs)
  unfolding find update
  find-update p q f same [] = refl
  find-update p q f same (x ∷ xs) = ground (arith, same x, find-update p q f same xs)

  pub find-update_other :
      (p q : A → Bool) (f : A → A)
      → ((a : A) → q (f a) ≡ q a)
      → ((a : A) → q a ≡ true → p a ≡ false)
      → (xs : List A) → find q (update p f xs) ≡ find q xs
  unfolding find update
  find-update_other p q f same apart [] = refl
  find-update_other p q f same apart (x ∷ xs) =
      ground (arith, same x, apart x, find-update_other p q f same apart xs)

-- No two rows agree on a UNIQUE column.
module _ {ℓ κ} {A : Type ℓ} {K : Type κ} ⦃e : Eq K⦄ (key : A → K) where
  abbrev pub Distinct : List A → Type ℓ
  Distinct [] = Unit
  Distinct (x ∷ xs) = All (λ y. (key x == key y) ≡ false) xs × Distinct xs
