-- ===== src/Effect/Returned.antt =====
-- What is known of the parts when an action has returned a value.
use discord_lite_server.Base.{ℕ, String, Option, none, some, ◌≡◌, refl, arith, inl, inr, Bool-cases}
use discord_lite_server.Models.{Tables}
use discord_lite_server.Effect.{
  Action, World, Result, ok, err, Error, wrap, or_return, continue, pure, statement, now, Env,
  query, or_fail, ◌>>=◌,
}

module _ {A B : Type 0} where
  continue-ok :
      (r : Result A) (f : A → Action B) (b : B) (w w' : World)
      → continue r f w ≡ (ok b, w')
      → (a : A) × (r ≡ ok a) × (f a w ≡ (ok b, w'))
  continue-ok (ok a) f b w w' e = (a, refl, e)
  continue-ok (err x) f b w w' e = cc

  pub bind-ok :
      (m : Action A) (f : A → Action B) (b : B) (w w' : World)
      → (m >>= f) w ≡ (ok b, w')
      → (a : A) × (v : World) × (m w ≡ (ok a, v)) × (f a v ≡ (ok b, w'))
  unfolding ◌>>=◌
  bind-ok m f b w w' e =
      let (a, p, q) = continue-ok (m w).0 f b (m w).1 w' e in (a, (m w).1, ground arith, q)

module _ {A : Type 0} where
  pub wrap-ok :
      (text : String) (m : Action A) (a : A) (w w' : World)
      → wrap text m w ≡ (ok a, w')
      → m w ≡ (ok a, w')
  unfolding wrap
  wrap-ok text m a w w' e = ground arith

  pub or_return-ok :
      (x : Error) (m : Action A) (a : A) (w w' : World)
      → or_return x m w ≡ (ok a, w')
      → m w ≡ (ok a, w')
  unfolding or_return
  or_return-ok x m a w w' e = ground arith

  pub pure-ok : (a b : A) (w w' : World) → pure a w ≡ (ok b, w') → (a ≡ b) × (w.tables ≡ w'.tables)
  unfolding pure
  pure-ok a b w w' e = (ground arith, ground arith)

  pub statement-ok :
      (env : Env) (run : ℕ → Tables → Result A × Tables) (a : A) (w w' : World)
      → statement env run w ≡ (ok a, w')
      → run (env.clock w.step) w.tables ≡ (ok a, w'.tables)
  unfolding statement
  statement-ok env run a w w' e = elim (Bool-cases (env.fails w.step)) [
    | inl down ↦ absurd (ground arith)
    | inr up ↦ let p = rw up at e in ground arith
  ]

pub now-ok :
    (env : Env) (instant : ℕ) (w w' : World) → now env w ≡ (ok instant, w') → w.tables ≡ w'.tables
unfolding now
now-ok env instant w w' e = ground arith

module _ {A : Type 0} where
  pub or_fail-ok :
      (x : Error) (o : Option A) (a : A) (w w' : World)
      → or_fail x o w ≡ (ok a, w')
      → (o ≡ some a) × (w.tables ≡ w'.tables)
  unfolding or_fail
  or_fail-ok x none a w w' e = cc
  or_fail-ok x (some b) a w w' e = (ground arith, ground arith)

  pub query-ok :
      (env : Env) (f : Tables → A) (a : A) (w w' : World)
      → query env f w ≡ (ok a, w')
      → (f w.tables ≡ a) × (w.tables ≡ w'.tables)
  unfolding query
  query-ok env f a w w' e =
      let p = statement-ok env (λ i t. (ok (f t), t)) a w w' e in (ground arith, ground arith)

-- The rest of a sequence runs from where its beginning has returned.
pub bind-value :
    {A B : Type 0} (m : Action A) (f : A → Action B) (a : A) (w : World)
    → (m w).0 ≡ ok a
    → (m >>= f) w ≡ f a (m w).1
unfolding ◌>>=◌
bind-value m f a w e = rw e refl

pub bind-run :
    {A B : Type 0} (m : Action A) (f : A → Action B) (a : A) (w v : World)
    → m w ≡ (ok a, v)
    → (m >>= f) w ≡ f a v
unfolding ◌>>=◌
bind-run m f a w v e = rw e refl

-- An error ends a sequence.
pub bind-error :
    {A B : Type 0} (m : Action A) (f : A → Action B) (x : Error) (w v : World)
    → m w ≡ (err x, v)
    → (m >>= f) w ≡ (err x, v)
unfolding ◌>>=◌
bind-error m f x w v e = rw e refl
