-- ===== src/Effect/Moves.antt =====
-- What an action may do to the tables: a relation between the tables before and after, with one
-- rule for each way to build an action. An invariant is such a relation, and so is the statement
-- that some rows are left alone.
use discord_lite_server.Base.{
  ℕ, suc, Bool, true, false, String, Option, none, some, ◌≡◌, subst, arith, if◌then◌else◌,
}
use discord_lite_server.Models.{Tables}
use discord_lite_server.Effect.{
  Action, World, Env, Result, ok, err, Error, pure, raise, lift, or_fail, wrap, or_return, attempt,
  catch, caught, transaction, now, query, statement, continue, ◌>>=◌,
}

pub record Order (R : Tables → Tables → Type 0) : Type 0 where
  pub same : (t : Tables) → R t t
  pub chain : (t u v : Tables) → R t u → R u v → R t v

-- Whether it returns or fails, `m` moves the tables along `R`.
pub record Moves {A : Type 0} (R : Tables → Tables → Type 0) (m : Action A) : Type 0 where
  pub at : (w : World) → R w.tables (m w).1.tables

abbrev pub Invariant : (Tables → Type 0) → Tables → Tables → Type 0
Invariant P t u = P t → P u

pub Invariant-Order : (P : Tables → Type 0) → Order (Invariant P)
Invariant-Order P = record { same = λ t h. h; chain = λ t u v f g h. g (f h) }

module _ {A : Type 0} {R : Tables → Tables → Type 0} (o : Order R) where
  pub Moves-pure : (a : A) → Moves R (pure a)
  unfolding pure
  Moves-pure a = record { at = λ w. o.same w.tables }

  pub Moves-raise : (e : Error) → Moves R (raise {A = A} e)
  unfolding raise
  Moves-raise e = record { at = λ w. o.same w.tables }

  pub Moves-lift : (r : Result A) → Moves R (lift r)
  unfolding lift
  Moves-lift r = record { at = λ w. o.same w.tables }

  pub Moves-or_fail : (e : Error) (r : Option A) → Moves R (or_fail e r)
  unfolding or_fail
  Moves-or_fail e none = record { at = λ w. o.same w.tables }
  Moves-or_fail e (some a) = record { at = λ w. o.same w.tables }

module _ {A : Type 0} {R : Tables → Tables → Type 0} where
  pub Moves-wrap : (text : String) (m : Action A) → Moves R m → Moves R (wrap text m)
  unfolding wrap
  Moves-wrap text m k = record { at = λ w. k.at w }

  pub Moves-or_return : (e : Error) (m : Action A) → Moves R m → Moves R (or_return e m)
  unfolding or_return
  Moves-or_return e m k = record { at = λ w. k.at w }

  pub Moves-attempt : (m : Action A) → Moves R m → Moves R (attempt m)
  unfolding attempt
  Moves-attempt m k = record { at = λ w. k.at w }

  pub Moves-if : (b : Bool) (m n : Action A) → Moves R m → Moves R n → Moves R (if b then m else n)
  Moves-if true m n km kn = km
  Moves-if false m n km kn = kn

module _ {R : Tables → Tables → Type 0} (o : Order R) (env : Env) where
  pub Moves-now : Moves R (now env)
  unfolding now
  Moves-now = record { at = λ w. o.same w.tables }

  pub Moves-statement :
      {A : Type 0} (run : ℕ → Tables → Result A × Tables)
      → ((instant : ℕ) (t : Tables) → R t (run instant t).1)
      → Moves R (statement env run)
  unfolding statement
  Moves-statement run k = record {
    at = λ w. ground (arith, o.same w.tables, k (env.clock w.step) w.tables);
  }

  pub Moves-query : {A : Type 0} (f : Tables → A) → Moves R (query env f)
  unfolding query
  Moves-query f = record { at = λ w. ground (arith, o.same w.tables) }

module _ {A : Type 0} {R : Tables → Tables → Type 0} (o : Order R) where
  pub Moves-catch :
      (m : Action A) (h : Error → Action A)
      → Moves R m
      → ((e : Error) → Moves R (h e))
      → Moves R (catch m h)
  unfolding catch
  Moves-catch m h km kh = record { at = λ w. o.chain _ _ _ (km.at w) (after (m w).0 (m w).1) }
    where
      after : (r : Result A) (w : World) → R w.tables (caught r h w).1.tables
      after (ok a) w = o.same w.tables
      after (err e) w = (kh e).at w

  pub Moves-transaction : (env : Env) (m : Action A) → Moves R m → Moves R (transaction env m)
  unfolding transaction ◌>>=◌ statement
  Moves-transaction env m km = record {
    at = λ w. ground (arith, o.same w.tables, km.at (record w { step = suc w.step }));
  }

module _ {A B : Type 0} {R : Tables → Tables → Type 0} (o : Order R) where
  Moves-continue :
      (r : Result A) (f : A → Action B) → ((a : A) → Moves R (f a)) → Moves R (continue r f)
  Moves-continue (ok a) f k = record { at = λ w. (k a).at w }
  Moves-continue (err e) f k = record { at = λ w. o.same w.tables }

  pub Moves-bind :
      (m : Action A) (f : A → Action B) → Moves R m → ((a : A) → Moves R (f a)) → Moves R (m >>= f)
  unfolding ◌>>=◌
  Moves-bind m f km kf = record {
    at = λ w. o.chain _ _ _ (km.at w) ((Moves-continue (m w).0 f kf).at (m w).1);
  }

-- Where a run is known, so is where it has moved.
pub Moves-to :
    {A : Type 0} {R : Tables → Tables → Type 0} {m : Action A} {r : Result A} {w w' : World}
    → Moves R m
    → m w ≡ (r, w')
    → R w.tables w'.tables
Moves-to {R = R} {w = w} k e = subst (λ p. R w.tables p.1.tables) e (k.at w)

pub ruleset moves_rules = (
  Moves-pure, Moves-raise, Moves-lift, Moves-or_fail, Moves-wrap, Moves-or_return, Moves-attempt,
  Moves-if, Moves-now, Moves-query, Moves-catch, Moves-transaction, Moves-bind,
)
