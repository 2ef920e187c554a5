-- ===== src/Base/Sort.antt =====
-- ORDER BY, as an insertion sort by a Boolean order. The order of rows that compare equal is the
-- database's choice; here it is the order of the table.
use discord_lite_server.Base.Tests.{if◌then◌else◌, Bool-cases}
use discord_lite_server.Base.Rows.{All}
use mathlib.Core.Path.{◌≡◌, refl, ap}
use mathlib.Core.Logic.{◌⊎◌, inl, inr}
use mathlib.Core.Bool.{Bool, true, false}
use mathlib.Core.List.{List, [], ◌∷◌, ◌++◌, Perm}
use mathlib.Core.List.Perm
use Prim.Native.Nat.{ℕ, zero, suc}
use discord_lite_server.Base.Lists.{take, drop, length}

module _ {ℓ} {A : Type ℓ} where
  unfoldable pub insert_by : (A → A → Bool) → A → List A → List A
  insert_by le x [] = x ∷ []
  insert_by le x (y ∷ ys) = if le x y then x ∷ y ∷ ys else y ∷ insert_by le x ys

  unfoldable pub sort_by : (A → A → Bool) → List A → List A
  sort_by le [] = []
  sort_by le (x ∷ xs) = insert_by le x (sort_by le xs)

  -- Every row stands before the rows that it is not after.
  abbrev pub IsOrdered : (A → A → Bool) → List A → Type ℓ
  IsOrdered le [] = Unit
  IsOrdered le (x ∷ xs) = All (λ y. le x y ≡ true) xs × IsOrdered le xs

  module _ (le : A → A → Bool) where
    insert_by-Perm : (x : A) (xs : List A) → Perm (insert_by le x xs) (x ∷ xs)
    unfolding insert_by
    insert_by-Perm x [] = Perm.rfl
    insert_by-Perm x (y ∷ ys) = elim (Bool-cases (le x y)) [
      | inl e ↦ rw (e, insert_by) Perm.rfl
      | inr e ↦
          rw (e, insert_by) (Perm.trans (Perm.cons y (insert_by-Perm x ys)) (Perm.swap x y ys))
    ]

    pub sort_by-Perm : (xs : List A) → Perm (sort_by le xs) xs
    unfolding sort_by
    sort_by-Perm [] = Perm.rfl
    sort_by-Perm (x ∷ xs) =
        Perm.trans (insert_by-Perm x (sort_by le xs)) (Perm.cons x (sort_by-Perm xs))

    All-insert_by {κ} :
        (P : A → Type κ) (x : A) (xs : List A) → P x → All P xs → All P (insert_by le x xs)
    unfolding insert_by
    All-insert_by P x [] p h = (p, tt)
    All-insert_by P x (y ∷ ys) p h = elim (Bool-cases (le x y)) [
      | inl e ↦ rw (e, insert_by) (p, h)
      | inr e ↦ rw (e, insert_by) (h.0, All-insert_by P x ys p h.1)
    ]

    pub All-sort_by {κ} : (P : A → Type κ) (xs : List A) → All P xs → All P (sort_by le xs)
    unfolding sort_by
    All-sort_by P [] h = tt
    All-sort_by P (x ∷ xs) h = All-insert_by P x _ h.0 (All-sort_by P xs h.1)

    module _ (total : (a b : A) → le a b ≡ false → le b a ≡ true)
        (chain : (a b c : A) → le a b ≡ true → le b c ≡ true → le a c ≡ true) where
      before_all :
          (x y : A) (ys : List A)
          → le x y ≡ true
          → All (λ z. le y z ≡ true) ys
          → All (λ z. le x z ≡ true) ys
      before_all x y [] e h = tt
      before_all x y (z ∷ zs) e h = (chain x y z e h.0, before_all x y zs e h.1)

      insert_by-IsOrdered :
          (x : A) (xs : List A) → IsOrdered le xs → IsOrdered le (insert_by le x xs)
      unfolding insert_by
      insert_by-IsOrdered x [] h = (tt, tt)
      insert_by-IsOrdered x (y ∷ ys) h = elim (Bool-cases (le x y)) [
        | inl e ↦ rw (e, insert_by) ((e, before_all x y ys e h.0), h)
        | inr e ↦
            rw (e, insert_by)
              (
                All-insert_by (λ z. le y z ≡ true) x ys (total x y e) h.0,
                insert_by-IsOrdered x ys h.1,
              )
      ]

      pub sort_by-IsOrdered : (xs : List A) → IsOrdered le (sort_by le xs)
      unfolding sort_by
      sort_by-IsOrdered [] = tt
      sort_by-IsOrdered (x ∷ xs) = insert_by-IsOrdered x _ (sort_by-IsOrdered xs)

-- LIMIT: what a list of ordered rows is cut into.
module _ {ℓ} {A : Type ℓ} where
  pub take-drop : (n : ℕ) (xs : List A) → take n xs ++ drop n xs ≡ xs
  take-drop zero xs = refl
  take-drop (suc n) [] = refl
  take-drop (suc n) (x ∷ xs) = ap (◌∷◌ x) (take-drop n xs)

  pub All-take {κ} : (P : A → Type κ) (n : ℕ) (xs : List A) → All P xs → All P (take n xs)
  All-take P zero xs h = tt
  All-take P (suc n) [] h = tt
  All-take P (suc n) (x ∷ xs) h = (h.0, All-take P n xs h.1)

  pub All-drop {κ} : (P : A → Type κ) (n : ℕ) (xs : List A) → All P xs → All P (drop n xs)
  All-drop P zero xs h = h
  All-drop P (suc n) [] h = tt
  All-drop P (suc n) (x ∷ xs) h = All-drop P n xs h.1

  -- Rows are left over only where the limit was reached.
  pub full-take : (n : ℕ) (xs : List A) → (drop n xs ≡ []) ⊎ (length (take n xs) ≡ n)
  full-take zero xs = inr refl
  full-take (suc n) [] = inl refl
  full-take (suc n) (x ∷ xs) = elim (full-take n xs) [ inl e ↦ inl e | inr e ↦ inr (ap suc e) ]

  module _ (le : A → A → Bool) where
    pub IsOrdered-take : (n : ℕ) (xs : List A) → IsOrdered le xs → IsOrdered le (take n xs)
    IsOrdered-take zero xs h = tt
    IsOrdered-take (suc n) [] h = tt
    IsOrdered-take (suc n) (x ∷ xs) h = (All-take _ n xs h.0, IsOrdered-take n xs h.1)

    pub ahead_of_rest :
        (n : ℕ) (xs : List A)
        → IsOrdered le xs
        → All (λ a. All (λ b. le a b ≡ true) (drop n xs)) (take n xs)
    ahead_of_rest zero xs h = tt
    ahead_of_rest (suc n) [] h = tt
    ahead_of_rest (suc n) (x ∷ xs) h = (All-drop _ n xs h.0, ahead_of_rest n xs h.1)
