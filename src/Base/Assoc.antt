-- ===== src/Base/Assoc.antt =====
-- Maps as association lists with the newest entry in front.
use discord_lite_server.Base.Tests.{if◌then◌else◌}
use discord_lite_server.Base.Keys.{Eq, ◌==◌}
use mathlib.Core.Path.{◌≡◌}
use mathlib.Core.Option.{Option, none, some}
use mathlib.Core.List.{List, [], ◌∷◌}
use native.Mathlib.Omega.{arith}

module _ {ℓ κ} {K : Type ℓ} {V : Type κ} ⦃keys : Eq K⦄ where
  unfoldable pub lookup : K → List (K × V) → Option V
  lookup key [] = none
  lookup key ((here, value) ∷ rest) = if here == key then some value else lookup key rest

  unfoldable pub delete : K → List (K × V) → List (K × V)
  delete key [] = []
  delete key ((here, value) ∷ rest) =
      if here == key then delete key rest else (here, value) ∷ delete key rest

  abbrev pub insert : K → V → List (K × V) → List (K × V)
  insert key value entries = (key, value) ∷ delete key entries

  pub lookup-delete :
      (gone key : K) (entries : List (K × V))
      → lookup key (delete gone entries) ≡ (if gone == key then none else lookup key entries)
  unfolding lookup delete
  lookup-delete gone key [] = ground arith
  lookup-delete gone key ((here, value) ∷ rest) = ground (
    arith,
    lookup-delete gone key rest,
    keys.beq_iff gone key,
    keys.beq_iff here gone,
    keys.beq_iff here key,
  )

  pub lookup-insert :
      (new key : K) (value : V) (entries : List (K × V))
      → lookup key (insert new value entries)
        ≡ (if new == key then some value else lookup key entries)
  unfolding lookup
  lookup-insert new key value entries = ground (arith, lookup-delete new key entries)
