-- ===== src/Base/Table.antt =====
-- A table with a serial id and a UNIQUE text, and a foreign key between two tables.
use discord_lite_server.Base.Tests.{Bool-cases}
use discord_lite_server.Base.Keys.{◌==◌, nat_eq, string_eq}
use discord_lite_server.Base.Rows.{
  find, select, remove, update, any, All, All-append, All-map, All-remove, All-update, Distinct,
}
use discord_lite_server.Base.Distinct.{find-none, Distinct-append, Distinct-remove, Distinct-update}
use Prim.Native.Nat.{ℕ, suc, ◌<◌}
use Prim.Native.String.{String}
use mathlib.Core.Path.{◌≡◌, refl}
use mathlib.Core.Logic.{inl, inr}
use mathlib.Core.Bool.{Bool, true, false}
use mathlib.Core.Option.{none}
use mathlib.Core.List.{List, [], ◌∷◌, ◌++◌}
use native.Mathlib.Omega.{arith}

module _ {ℓ} {A : Type ℓ} where
  pub any-append : (p : A → Bool) (xs ys : List A) → any p xs ≡ true → any p (xs ++ ys) ≡ true
  unfolding any
  any-append p [] ys h = cc
  any-append p (x ∷ xs) ys h = ground (arith, any-append p xs ys)

  -- An UPDATE that leaves what the test reads.
  pub any-update :
      (p q : A → Bool) (f : A → A)
      → ((a : A) → q (f a) ≡ q a)
      → (xs : List A) → any q (update p f xs) ≡ any q xs
  unfolding any update
  any-update p q f same [] = refl
  any-update p q f same (x ∷ xs) = ground (arith, same x, any-update p q f same xs)

  -- A row is one that a DELETE takes or one that it leaves.
  pub any-remove :
      (p q : A → Bool) (xs : List A)
      → any q xs ≡ true
      → any q (select p xs) ≡ false
      → any q (remove p xs) ≡ true
  unfolding any select remove
  any-remove p q [] h k = h
  any-remove p q (x ∷ xs) h k = ground (arith, any-remove p q xs)

  pub any-All :
      (p q : A → Bool)
      → ((a : A) → q a ≡ true → p a ≡ false)
      → (xs : List A) → All (λ a. p a ≡ true) xs
      → any q xs ≡ false
  unfolding any
  any-All p q apart [] h = refl
  any-All p q apart (x ∷ xs) h = ground (arith, h.0, apart x, any-All p q apart xs h.1)

  pub any-false : (p : A → Bool) (xs : List A) → any p xs ≡ false → All (λ a. p a ≡ false) xs
  unfolding any
  any-false p [] h = tt
  any-false p (x ∷ xs) h = (ground arith, any-false p xs (ground arith))

  pub any-none : (p : A → Bool) (xs : List A) → All (λ a. p a ≡ false) xs → any p xs ≡ false
  unfolding any
  any-none p [] h = refl
  any-none p (x ∷ xs) h = ground (arith, h.0, any-none p xs h.1)

module _ {ℓ} {A : Type ℓ} (id : A → ℕ) (key : A → String) where
  pub record IsTable (next : ℕ) (rows : List A) : Type ℓ where
    pub keys_distinct : Distinct key rows
    pub ids_distinct : Distinct id rows
    pub ids_below : All (λ a. id a < next) rows

  pub IsTable-empty : (next : ℕ) → IsTable next []
  IsTable-empty next = record { keys_distinct = tt; ids_distinct = tt; ids_below = tt }

  fresh :
      (next : ℕ) (xs : List A) → All (λ a. id a < next) xs → All (λ a. (id a == next) ≡ false) xs
  fresh next xs = All-map _ _ (λ a h. ground (arith, h)) xs

  -- A sequence that moves on without a row.
  pub IsTable-suc : (next : ℕ) (xs : List A) → IsTable next xs → IsTable (suc next) xs
  IsTable-suc next xs v = record {
    keys_distinct = v.keys_distinct;
    ids_distinct = v.ids_distinct;
    ids_below = All-map _ _ (λ a h. omega arith) xs v.ids_below;
  }

  -- INSERT of a row with the sequence's next id and a text that no row has.
  pub IsTable-append :
      (next : ℕ) (xs : List A) (a : A)
      → find (λ b. key b == key a) xs ≡ none
      → id a ≡ next
      → IsTable next xs
      → IsTable (suc next) (xs ++ a ∷ [])
  IsTable-append next xs a new e v = record {
    keys_distinct = Distinct-append key xs a (find-none _ xs new) v.keys_distinct;
    ids_distinct = Distinct-append id xs a (rw e (fresh next xs v.ids_below)) v.ids_distinct;
    ids_below =
        All-append _ xs _ (All-map _ _ (λ b h. omega arith) xs v.ids_below) (omega (arith, e), tt);
  }

  pub IsTable-remove :
      (p : A → Bool) (next : ℕ) (xs : List A) → IsTable next xs → IsTable next (remove p xs)
  IsTable-remove p next xs v = record {
    keys_distinct = Distinct-remove key p xs v.keys_distinct;
    ids_distinct = Distinct-remove id p xs v.ids_distinct;
    ids_below = All-remove p _ xs v.ids_below;
  }

  pub IsTable-update :
      (p : A → Bool) (f : A → A)
      → ((a : A) → key (f a) ≡ key a)
      → ((a : A) → id (f a) ≡ id a)
      → (next : ℕ) (xs : List A) → IsTable next xs
      → IsTable next (update p f xs)
  IsTable-update p f same_key same_id next xs v = record {
    keys_distinct = Distinct-update key p f same_key xs v.keys_distinct;
    ids_distinct = Distinct-update id p f same_id xs v.ids_distinct;
    ids_below = All-update p _ f (λ a h. omega (arith, same_id a, h)) xs v.ids_below;
  }

-- Every row of `ys` refers to a row of `xs`.
module _ {ℓ κ} {A : Type ℓ} {B : Type κ} (id : A → ℕ) (ref : B → ℕ) where
  abbrev pub Refers : List A → List B → Type 0
  Refers xs ys = All (λ b. any (λ a. id a == ref b) xs ≡ true) ys

  pub Refers-append_target :
      (xs more : List A) (ys : List B) → Refers xs ys → Refers (xs ++ more) ys
  Refers-append_target xs more ys =
      All-map _ _ (λ b h. any-append (λ a. id a == ref b) xs more h) ys

  pub Refers-update_target :
      (p : A → Bool) (f : A → A)
      → ((a : A) → id (f a) ≡ id a)
      → (xs : List A) (ys : List B) → Refers xs ys
      → Refers (update p f xs) ys
  Refers-update_target p f same xs ys = All-map _ _ kept ys
    where
      kept :
          (b : B)
          → any (λ a. id a == ref b) xs ≡ true
          → any (λ a. id a == ref b) (update p f xs) ≡ true
      kept b h = rw (any-update p (λ a. id a == ref b) f (λ a. rw (same a) refl) xs) h

  pub Refers-append :
      (xs : List A) (ys : List B) (b : B)
      → any (λ a. id a == ref b) xs ≡ true
      → Refers xs ys
      → Refers xs (ys ++ b ∷ [])
  Refers-append xs ys b there h = All-append _ ys _ h (there, tt)

  pub Refers-update :
      (xs : List A) (p : B → Bool) (f : B → B)
      → ((b : B) → any (λ a. id a == ref b) xs ≡ true → any (λ a. id a == ref (f b)) xs ≡ true)
      → (ys : List B) → Refers xs ys
      → Refers xs (update p f ys)
  Refers-update xs p f keep ys h = All-update p _ f keep ys h

  pub Refers-remove :
      (xs : List A) (p : B → Bool) (ys : List B) → Refers xs ys → Refers xs (remove p ys)
  Refers-remove xs p ys h = All-remove p _ ys h

  -- ON DELETE CASCADE
  pub Refers-cascade :
      (p : A → Bool) (xs : List A) (ys : List B)
      → Refers xs ys
      → Refers (remove p xs) (remove (λ b. any (λ a. id a == ref b) (select p xs)) ys)
  unfolding remove
  Refers-cascade p xs [] h = tt
  Refers-cascade p xs (b ∷ ys) h = elim (Bool-cases (any (λ a. id a == ref b) (select p xs))) [
    | inl gone ↦ rw (gone, remove) (Refers-cascade p xs ys h.1)
    | inr stays ↦
        rw (stays, remove)
          (any-remove p (λ a. id a == ref b) xs h.0 stays, Refers-cascade p xs ys h.1)
  ]
