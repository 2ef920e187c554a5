-- ===== src/Effect/Outcomes.antt =====
-- Relations that hold only when an action fails, and facts about the tables that hold when it
-- returns.
use discord_lite_server.Base.{Bool, true, false, if◌then◌else◌, String, ◌≡◌, refl, subst}
use discord_lite_server.Models.{Tables}
use discord_lite_server.Effect.{
  Action, World, Result, ok, err, Error, raise, wrap, wrap_result, or_return, replace_result,
  continue, ◌>>=◌,
}
use discord_lite_server.Effect.Moves.{Order, Moves}

abbrev pub OnErr : {A : Type 0} → (Tables → Type 0) → Result A × World → Type 0
OnErr Q (ok a, w) = Unit
OnErr Q (err e, w) = Q w.tables

abbrev pub OnOk : {A : Type 0} → (Tables → Type 0) → Result A × World → Type 0
OnOk Q (ok a, w) = Q w.tables
OnOk Q (err e, w) = Unit

-- If `m` fails, it has moved the tables along `R`.
pub record FailsAlong {A : Type 0} (R : Tables → Tables → Type 0) (m : Action A) : Type 0 where
  pub at : (w : World) → OnErr (R w.tables) (m w)

-- If `m` returns, the tables satisfy `Q`.
pub record Leaves {A : Type 0} (Q : Tables → Type 0) (m : Action A) : Type 0 where
  pub at : (w : World) → OnOk Q (m w)

module _ {A : Type 0} {R : Tables → Tables → Type 0} where
  pub FailsAlong-Moves : (m : Action A) → Moves R m → FailsAlong R m
  FailsAlong-Moves m k = record { at = λ w. go w (m w) (k.at w) }
    where
      go : (w : World) (p : Result A × World) → R w.tables p.1.tables → OnErr (R w.tables) p
      go w (ok a, v) h = tt
      go w (err e, v) h = h

  pub FailsAlong-wrap : (text : String) (m : Action A) → FailsAlong R m → FailsAlong R (wrap text m)
  unfolding wrap
  FailsAlong-wrap text m k = record { at = λ w. go w (m w).0 (m w).1 (k.at w) }
    where
      go :
          (w : World) (r : Result A) (v : World)
          → OnErr (R w.tables) (r, v)
          → OnErr (R w.tables) (wrap_result text r, v)
      go w (ok a) v h = tt
      go w (err e) v h = h

module _ {A B : Type 0} {R : Tables → Tables → Type 0} (o : Order R) where
  pub FailsAlong-bind :
      (m : Action A) (f : A → Action B)
      → Moves R m
      → ((a : A) → FailsAlong R (f a))
      → FailsAlong R (m >>= f)
  unfolding ◌>>=◌
  FailsAlong-bind m f km kf = record { at = λ w. go w (m w).0 (m w).1 (km.at w) }
    where
      moved :
          (w v : World) (p : Result B × World)
          → R w.tables v.tables
          → OnErr (R v.tables) p
          → OnErr (R w.tables) p
      moved w v (ok b, u) h k = tt
      moved w v (err e, u) h k = o.chain _ _ _ h k

      go :
          (w : World) (r : Result A) (v : World)
          → R w.tables v.tables
          → OnErr (R w.tables) (continue r f v)
      go w (ok a) v h = moved w v (f a v) h ((kf a).at v)
      go w (err e) v h = h

module _ {A : Type 0} {Q : Tables → Type 0} where
  pub Leaves-wrap : (text : String) (m : Action A) → Leaves Q m → Leaves Q (wrap text m)
  unfolding wrap
  Leaves-wrap text m k = record { at = λ w. go (m w).0 (m w).1 (k.at w) }
    where
      go : (r : Result A) (v : World) → OnOk Q (r, v) → OnOk Q (wrap_result text r, v)
      go (ok a) v h = h
      go (err e) v h = tt

  pub Leaves-intro :
      (m : Action A) → ((a : A) (w w' : World) → m w ≡ (ok a, w') → Q w'.tables) → Leaves Q m
  Leaves-intro m k = record { at = λ w. go w (m w).0 (m w).1 refl }
    where
      go : (w : World) (r : Result A) (w' : World) → m w ≡ (r, w') → OnOk Q (r, w')
      go w (ok a) w' e = k a w w' e
      go w (err x) w' e = tt

  pub Leaves-or_return : (x : Error) (m : Action A) → Leaves Q m → Leaves Q (or_return x m)
  unfolding or_return
  Leaves-or_return x m k = record { at = λ w. go (m w).0 (m w).1 (k.at w) }
    where
      go : (r : Result A) (v : World) → OnOk Q (r, v) → OnOk Q (replace_result x r, v)
      go (ok a) v h = h
      go (err e) v h = tt

  pub Leaves-raise : (e : Error) → Leaves Q (raise {A = A} e)
  unfolding raise
  Leaves-raise e = record { at = λ w. tt }

  pub Leaves-if :
      (b : Bool) (m n : Action A) → Leaves Q m → Leaves Q n → Leaves Q (if b then m else n)
  Leaves-if true m n km kn = km
  Leaves-if false m n km kn = kn

  pub Leaves-ok :
      (m : Action A) (a : A) (w w' : World) → Leaves Q m → m w ≡ (ok a, w') → Q w'.tables
  Leaves-ok m a w w' k e = subst (OnOk Q) e (k.at w)

pub Leaves-map :
    {A : Type 0} {P Q : Tables → Type 0} (m : Action A)
    → ((t : Tables) → P t → Q t)
    → Leaves P m
    → Leaves Q m
Leaves-map {A} {P = P} {Q = Q} m f k = record { at = λ w. go (m w) (k.at w) }
  where
    go : (p : Result A × World) → OnOk P p → OnOk Q p
    go (ok a, v) h = f v.tables h
    go (err e, v) h = tt

module _ {A B : Type 0} {Q : Tables → Type 0} where
  pub Leaves-bind :
      (m : Action A) (f : A → Action B) → ((a : A) → Leaves Q (f a)) → Leaves Q (m >>= f)
  unfolding ◌>>=◌
  Leaves-bind m f kf = record { at = λ w. go (m w).0 (m w).1 }
    where
      go : (r : Result A) (v : World) → OnOk Q (continue r f v)
      go (ok a) v = (kf a).at v
      go (err e) v = tt
