-- ===== src/Websocket/Channels.antt =====
-- Go channels as internal/websocket/manager.go uses them: a heap of buffers of at most 100
-- events. A send on a closed channel and a second close end the process.
use discord_lite_server.Base.{
  ℕ, Bool, true, false, Option, none, some, List, [], ◌∷◌, ◌++◌, ltb, if◌then◌else◌,
}
use discord_lite_server.Base.Lists.{length, get_elem?, set}

pub data Outcome (A : Type 0) : Type 0 where
  done : A → Outcome A
  panics : Outcome A

infixl 5 ◌>>=◌
abbrev pub ◌>>=◌ : {A B : Type 0} → Outcome A → (A → Outcome B) → Outcome B
done a >>= f = f a
panics >>= f = panics

pub record Chan (E : Type 0) : Type 0 where
  pub buffer : List E
  pub closed : Bool

-- make(chan *messagev1.MessageEvent, 100)
abbrev pub capacity : ℕ
capacity = 100

module _ {E : Type 0} where
  abbrev pub new_chan : Chan E
  new_chan = record { buffer = []; closed = false }

  abbrev put : Chan E → E → Chan E
  put ch event =
      if ltb (length ch.buffer) capacity then record ch { buffer = ch.buffer ++ event ∷ [] } else ch

  abbrev send_at : List (Chan E) → ℕ → E → Option (Chan E) → Outcome (List (Chan E))
  send_at heap id event none = done heap
  send_at heap id event (some ch) = if ch.closed then panics else done (set heap id (put ch event))

  -- select { case c <- event: default: }: a full buffer drops the event.
  unfoldable pub send : List (Chan E) → ℕ → E → Outcome (List (Chan E))
  send heap id event = send_at heap id event (get_elem? heap id)

  abbrev close_at : List (Chan E) → ℕ → Option (Chan E) → Outcome (List (Chan E))
  close_at heap id none = done heap
  close_at heap id (some ch) =
      if ch.closed then panics else done (set heap id (record ch { closed = true }))

  -- close(c)
  unfoldable pub close : List (Chan E) → ℕ → Outcome (List (Chan E))
  close heap id = close_at heap id (get_elem? heap id)
