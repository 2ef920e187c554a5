-- ===== src/Base/Distinct.antt =====
-- Rows with a UNIQUE column: how the statements keep it.
use discord_lite_server.Base.Tests.{if◌then◌else◌}
use discord_lite_server.Base.Keys.{Eq, ◌==◌}
use discord_lite_server.Base.Rows.{find, remove, update, All, All-remove, Distinct}
use mathlib.Core.Path.{◌≡◌, refl}
use mathlib.Core.Bool.{Bool, true, false}
use mathlib.Core.Option.{none}
use mathlib.Core.List.{List, [], ◌∷◌, ◌++◌}
use native.Mathlib.Omega.{arith}

pub find-none {ℓ} :
    {A : Type ℓ} (p : A → Bool) (xs : List A) → find p xs ≡ none → All (λ x. p x ≡ false) xs
unfolding find
find-none p [] e = tt
find-none p (x ∷ xs) e = (ground arith, find-none p xs (ground arith))

module _ {ℓ κ} {A : Type ℓ} {K : Type κ} ⦃e : Eq K⦄ (key : A → K) where
  pub Distinct-append :
      (xs : List A) (a : A)
      → All (λ y. (key y == key a) ≡ false) xs
      → Distinct key xs
      → Distinct key (xs ++ a ∷ [])
  Distinct-append [] a h d = (tt, tt)
  Distinct-append (x ∷ xs) a h d = (apart xs d.0, Distinct-append xs a h.1 d.1)
    where
      apart :
          (ys : List A)
          → All (λ y. (key x == key y) ≡ false) ys
          → All (λ y. (key x == key y) ≡ false) (ys ++ a ∷ [])
      apart [] k = (h.0, tt)
      apart (y ∷ ys) k = (k.0, apart ys k.1)

  pub Distinct-remove : (p : A → Bool) (xs : List A) → Distinct key xs → Distinct key (remove p xs)
  unfolding remove
  Distinct-remove p [] d = tt
  Distinct-remove p (x ∷ xs) d =
      ground (arith, All-remove p (λ y. (key x == key y) ≡ false) xs d.0, Distinct-remove p xs d.1)

  module _ (p : A → Bool) (f : A → A) (same : (a : A) → key (f a) ≡ key a) where
    apart_updated :
        (k : K) (xs : List A)
        → All (λ y. (k == key y) ≡ false) xs
        → All (λ y. (k == key y) ≡ false) (update p f xs)
    unfolding update
    apart_updated k [] h = tt
    apart_updated k (x ∷ xs) h = ground (arith, h.0, same x, apart_updated k xs h.1)

    updated_key : (b : Bool) (x : A) → key (if b then f x else x) ≡ key x
    updated_key true x = same x
    updated_key false x = refl

    pub Distinct-update : (xs : List A) → Distinct key xs → Distinct key (update p f xs)
    unfolding update
    Distinct-update [] d = tt
    Distinct-update (x ∷ xs) d =
        (rw (updated_key (p x) x) (apart_updated (key x) xs d.0), Distinct-update xs d.1)
