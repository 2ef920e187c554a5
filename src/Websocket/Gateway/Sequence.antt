-- ===== src/Websocket/Gateway/Sequence.antt =====
-- internal/websocket/gateway.go: which sequence number a heartbeat carries.
use discord_lite_server.Base.{
  ℕ, ◌≡◌, refl, ap, ◌∙◌, Bool, true, false, Option, none, some, List, [], ◌∷◌, nat_eq, string_eq,
  arith, inl, inr, Bool-cases,
}
use discord_lite_server.Websocket.Channels.{Outcome, done, panics}
use discord_lite_server.Websocket.Gateway.{GatewayConnection, close_connection}
use discord_lite_server.Websocket.Gateway.Protocol.{
  GatewayPayload, Decoder, Output, heartbeats, Signal, frames, read_fails, ticks, closes,
  handle_payload, send_heartbeat, receive, step, run, set_sequence,
}

-- The number of the last frame that has one.
abbrev pub or_number : Option ℕ → ℕ → ℕ
or_number none n = n
or_number (some m) n = m

abbrev pub numbered : Signal → ℕ → ℕ
numbered (frames now writes none) n = n
numbered (frames now writes (some p)) n = or_number p.s n
numbered read_fails n = n
numbered (ticks now writes) n = n
numbered closes n = n

abbrev pub last_sequence : List Signal → ℕ → ℕ
last_sequence [] n = n
last_sequence (signal ∷ signals) n = last_sequence signals (numbered signal n)

set_sequence-number :
    (s : Option ℕ) (gc : GatewayConnection)
    → (set_sequence s gc).sequence_num ≡ or_number s gc.sequence_num
set_sequence-number none gc = refl
set_sequence-number (some n) gc = refl

module _ (json : Decoder) where
  handle_payload-sequence :
      (now : ℕ) (writes : Bool) (p : GatewayPayload) (gc g : GatewayConnection) (o : List Output)
      → handle_payload json now writes p gc ≡ done (g, o)
      → g.sequence_num ≡ gc.sequence_num
  unfolding handle_payload
  handle_payload-sequence now writes p gc g o e = ground arith

  receive-sequence :
      (signal : Signal) (gc g : GatewayConnection) (o : List Output)
      → receive json signal gc ≡ done (g, o)
      → g.sequence_num ≡ numbered signal gc.sequence_num
  unfolding receive close_connection send_heartbeat
  receive-sequence (frames now writes none) gc g o e = ground arith
  receive-sequence (frames now writes (some p)) gc g o e =
      handle_payload-sequence now writes p (set_sequence p.s gc) g o e ∙ set_sequence-number p.s gc
  receive-sequence read_fails gc g o e = ground arith
  receive-sequence (ticks now writes) gc g o e = ground arith
  receive-sequence closes gc g o e = ground arith

  -- A step of an open connection numbers it; a closed one stays as it is.
  step-sequence :
      (signal : Signal) (gc g : GatewayConnection) (o : List Output)
      → gc.close_signalled ≡ false
      → step json signal gc ≡ done (g, o)
      → g.sequence_num ≡ numbered signal gc.sequence_num
  unfolding step
  step-sequence signal gc g o live e = receive-sequence signal gc g o (ground (arith, e))

  run_cons :
      (signal : Signal) (signals : List Signal) (gc g : GatewayConnection) (o : List Output)
      → run json (signal ∷ signals) gc ≡ done (g, o)
      → (h : GatewayConnection) × (p : List Output) × (q : List Output) × (step json signal gc
          ≡ done (h, p))
        × (run json signals h ≡ done (g, q))
  unfolding run
  run_cons signal signals gc g o e = go (step json signal gc) refl
    where
      go :
          (r : Outcome (GatewayConnection × List Output))
          → step json signal gc ≡ r
          → (h : GatewayConnection) × (p : List Output) × (q : List Output) × (step json signal gc
              ≡ done (h, p))
            × (run json signals h ≡ done (g, q))
      go panics f = absurd (ground (arith, e, f))
      go (done (h, p)) f = after h p f (run json signals h) refl
        where
          after :
              (h : GatewayConnection) (p : List Output)
              → step json signal gc ≡ done (h, p)
              → (r : Outcome (GatewayConnection × List Output)) → run json signals h ≡ r
              → (h : GatewayConnection) × (p : List Output) × (q : List Output) × (step json signal
                    gc
                  ≡ done (h, p))
                × (run json signals h ≡ done (g, q))
          after h p f panics k = absurd (ground (arith, e, f, k))
          after h p f (done (g', q)) k = (h, p, q, f, ground (arith, e, f, k))

  closed_stays :
      (signals : List Signal) (gc g : GatewayConnection) (o : List Output)
      → gc.close_signalled ≡ true
      → run json signals gc ≡ done (g, o)
      → g.close_signalled ≡ true
  unfolding run step
  closed_stays [] gc g o c e = ground arith
  closed_stays (signal ∷ signals) gc g o c e =
      let (h, p, q, f, k) = run_cons signal signals gc g o e in
      closed_stays signals h g q (ground (arith, c, f)) k

  run-sequence :
      (signals : List Signal) (gc g : GatewayConnection) (o : List Output)
      → run json signals gc ≡ done (g, o)
      → g.close_signalled ≡ false
      → g.sequence_num ≡ last_sequence signals gc.sequence_num
  unfolding run
  run-sequence [] gc g o e live = ground arith
  run-sequence (signal ∷ signals) gc g o e live =
      let (h, p, q, f, k) = run_cons signal signals gc g o e in
      elim (Bool-cases gc.close_signalled) [
        | inl shut ↦ absurd (ground (arith, live, closed_stays (signal ∷ signals) gc g o shut e))
        | inr open_before ↦
            run-sequence signals h g q k live
            ∙ ap (last_sequence signals) (step-sequence signal gc h p open_before f)
      ]

  -- After any signals that leave the connection open and do not end the process, a tick with a
  -- working socket sends a heartbeat with the number of the last frame that had one, the initial
  -- number if there was none, and notes its time.
  pub step-run_heartbeat :
      (signals : List Signal) (gc g : GatewayConnection) (o : List Output) (now : ℕ)
      → run json signals gc ≡ done (g, o)
      → g.close_signalled ≡ false
      → g.has_conn ≡ true
      → step json (ticks now true) g
        ≡ done (
          record g { last_heartbeat_at = now },
          heartbeats (last_sequence signals gc.sequence_num) ∷ [],
        )
  unfolding step receive send_heartbeat
  step-run_heartbeat signals gc g o now e live connected =
      ground (arith, live, connected, run-sequence signals gc g o e live)
