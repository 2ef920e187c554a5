-- ===== src/Effect/Gives.antt =====
-- What is known of the value that an action returns, wherever it starts.
use discord_lite_server.Base.{Bool, true, false, String, ◌≡◌, refl, subst, if◌then◌else◌}
use discord_lite_server.Effect.{
  Action, World, Result, ok, err, Error, pure, raise, wrap, wrap_result, continue, ◌>>=◌,
}

abbrev pub Of : {A : Type 0} → (A → Type 0) → Result A → Type 0
Of F (ok a) = F a
Of F (err e) = Unit

pub record Gives {A : Type 0} (F : A → Type 0) (m : Action A) : Type 0 where
  pub at : (w : World) → Of F (m w).0

module _ {A : Type 0} where
  pub Gives-any : (m : Action A) → Gives (λ _. Unit) m
  Gives-any m = record { at = λ w. anything (m w).0 }
    where
      anything : (r : Result A) → Of (λ _. Unit) r
      anything (ok a) = tt
      anything (err e) = tt

  module _ {F : A → Type 0} where
    pub Gives-pure : (a : A) → F a → Gives F (pure a)
    unfolding pure
    Gives-pure a h = record { at = λ w. h }

    pub Gives-raise : (e : Error) → Gives F (raise e)
    unfolding raise
    Gives-raise e = record { at = λ w. tt }

    pub Gives-wrap : (text : String) (m : Action A) → Gives F m → Gives F (wrap text m)
    unfolding wrap
    Gives-wrap text m k = record { at = λ w. same (m w).0 (k.at w) }
      where
        same : (r : Result A) → Of F r → Of F (wrap_result text r)
        same (ok a) h = h
        same (err e) h = tt

    pub Gives-if :
        (b : Bool) (m n : Action A)
        → (b ≡ true → Gives F m)
        → (b ≡ false → Gives F n)
        → Gives F (if b then m else n)
    Gives-if true m n km kn = km refl
    Gives-if false m n km kn = kn refl

    pub Gives-intro : (m : Action A) → ((a : A) (w w' : World) → m w ≡ (ok a, w') → F a) → Gives F m
    Gives-intro m k = record { at = λ w. value w (m w).0 (m w).1 refl }
      where
        value : (w : World) (r : Result A) (w' : World) → m w ≡ (r, w') → Of F r
        value w (ok a) w' e = k a w w' e
        value w (err x) w' e = tt

    pub Gives-ok : (m : Action A) (a : A) (w w' : World) → Gives F m → m w ≡ (ok a, w') → F a
    Gives-ok m a w w' k e = subst (λ p. Of F p.0) e (k.at w)

module _ {A B : Type 0} {F : A → Type 0} {G : B → Type 0} where
  pub Gives-bind :
      (m : Action A) (f : A → Action B)
      → Gives F m
      → ((a : A) → F a → Gives G (f a))
      → Gives G (m >>= f)
  unfolding ◌>>=◌
  Gives-bind m f km kf = record { at = λ w. next (m w).0 (m w).1 (km.at w) }
    where
      next : (r : Result A) (w : World) → Of F r → Of G (continue r f w).0
      next (ok a) w h = (kf a h).at w
      next (err e) w h = tt
