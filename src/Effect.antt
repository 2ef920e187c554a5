-- ===== src/Effect.antt =====
-- What a function of the server may do besides computing: read the clock, run a SQL statement,
-- and fail. Each clock reading and each statement is one step; the environment says what the
-- clock shows at a step and whether the database answers there. A statement that fails has no
-- effect on the tables.
pub mod Moves
pub mod Returned
pub mod Gives
pub mod Outcomes
use discord_lite_server.Base.{
  ℕ, suc, Bool, true, false, String, Option, none, some, ◌≡◌, arith, if◌then◌else◌,
}
use discord_lite_server.Models.{Tables}

-- google.golang.org/grpc/codes, as far as the services use it.
pub data Code : Type 0 where
  invalid_argument not_found permission_denied internal : Code
  unauthenticated unavailable canceled aborted : Code

pub data Error : Type 0 where
  -- an error of the database driver or of a remote service
  external : Error
  -- fmt.Errorf with a text, and with a text in front of `%w`
  message : String → Error
  wrapped : String → Error → Error
  -- an answer of the Discord API with another status than 200
  http_status : ℕ → String → Error
  -- status.Errorf
  status : Code → String → Error

pub data Result (A : Type 0) : Type 0 where
  ok : A → Result A
  err : Error → Result A

abbrev pub IsErr : {A : Type 0} → Result A → Type 0
IsErr (ok a) = ⊥
IsErr (err e) = Unit

pub record World : Type 0 where
  pub tables : Tables
  pub step : ℕ

abbrev pub Action : Type 0 → Type 0
Action A = World → Result A × World

pub record Env : Type 0 where
  pub fails : ℕ → Bool
  pub clock : ℕ → ℕ
  -- the order of texts in the database's collation
  pub text_le : String → String → Bool

module _ {A : Type 0} where
  unfoldable pub pure : A → Action A
  pure a w = (ok a, w)

  unfoldable pub raise : Error → Action A
  raise e w = (err e, w)

  unfoldable pub lift : Result A → Action A
  lift r w = (r, w)

  unfoldable pub or_fail : Error → Option A → Action A
  or_fail e none w = (err e, w)
  or_fail e (some a) w = (ok a, w)

  -- `if err != nil { return fmt.Errorf(text + ": %w", err) }`
  abbrev pub wrap_result : String → Result A → Result A
  wrap_result text (ok a) = ok a
  wrap_result text (err e) = err (wrapped text e)

  unfoldable pub wrap : String → Action A → Action A
  wrap text m w = let (r, w') = m w in (wrap_result text r, w')

  -- `if err != nil { return status.Errorf(code, text) }`
  abbrev pub replace_result : Error → Result A → Result A
  replace_result e' (ok a) = ok a
  replace_result e' (err e) = err e'

  unfoldable pub or_return : Error → Action A → Action A
  or_return e m w = let (r, w') = m w in (replace_result e r, w')

  -- `if err != nil { log }`: the caller looks at the error and goes on.
  abbrev pub caught : Result A → (Error → Action A) → Action A
  caught (ok a) h w = (ok a, w)
  caught (err e) h w = h e w

  -- `if err != nil { return h(err) }`
  unfoldable pub catch : Action A → (Error → Action A) → Action A
  catch m h w = let (r, w') = m w in caught r h w'

  unfoldable pub attempt : Action A → Action (Result A)
  attempt m w = let (r, w') = m w in (ok r, w')

module _ {A B : Type 0} where
  abbrev pub continue : Result A → (A → Action B) → Action B
  continue (ok a) f w = f a w
  continue (err e) f w = (err e, w)

  infixl 5 ◌>>=◌ ◌>>◌
  -- Opening this opens the other ways to build an action too.
  unfoldable pub ◌>>=◌ : Action A → (A → Action B) → Action B
  unfolding pure raise lift or_fail wrap or_return catch attempt
  ◌>>=◌ m f w = let (r, w') = m w in continue r f w'

  abbrev pub ◌>>◌ : Action A → Action B → Action B
  m >> n = m >>= λ _. n

module _ (env : Env) where
  -- time.Now()
  unfoldable pub now : Action ℕ
  now w = (ok (env.clock w.step), record w { step = suc w.step })

  -- The answer of a statement that the database runs at an instant.
  abbrev pub answer : {A : Type 0} → World → Result A × Tables → Result A × World
  answer w (r, t) = (r, record { tables = t; step = suc w.step })

  unfoldable pub statement : {A : Type 0} → (ℕ → Tables → Result A × Tables) → Action A
  statement run w =
      if env.fails w.step
      then (err external, record w { step = suc w.step })
      else answer w (run (env.clock w.step) w.tables)

  -- A SELECT.
  unfoldable pub query : {A : Type 0} → (Tables → A) → Action A
  unfolding statement
  query f = statement (λ instant t. (ok (f t), t))

  -- BeginTx, the body, and Commit; a deferred Rollback undoes what was not committed.
  abbrev pub nothing : ℕ → Tables → Result (Unit {0}) × Tables
  nothing instant t = (ok tt, t)

  abbrev pub rolled_back : {A : Type 0} → Tables → Error → World → Result A × World
  rolled_back saved e w = (err e, record w { tables = saved })

  abbrev pub committed : {A : Type 0} → Tables → A → Result (Unit {0}) × World → Result A × World
  committed saved a (ok done, w) = (ok a, w)
  committed saved a (err e, w) = rolled_back saved (wrapped "failed to commit transaction" e) w

  abbrev pub ended : {A : Type 0} → Tables → Result A × World → Result A × World
  ended saved (ok a, w) = committed saved a (statement nothing w)
  ended saved (err e, w) = rolled_back saved e w

  unfoldable pub transaction : {A : Type 0} → Action A → Action A
  unfolding wrap
  transaction body = do
    wrap "failed to begin transaction" (statement nothing)
    (λ w. ended w.tables (body w))
