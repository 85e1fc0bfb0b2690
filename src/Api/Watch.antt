-- ===== src/Api/Watch.antt =====
-- `Watch` of internal/api/handler.go: any number of streams that read the one channel.
use mathlib.Core.List
use mathlib.Core.List.{append_assoc, append-nil}
use truthmetal.Base.{
  ℕ, ◌≡◌, refl, sym, ap, ◌∙◌, Bool, false, ◌||◌, Bool-cases, inl, inr, nat_eq, List, [], ◌∷◌, ◌++◌,
  map, if◌then◌else◌,
}
use truthmetal.Exec.{Outcome, returns, fails, panics, Exec, pure, ◌>>=◌, ◌>>◌}
use truthmetal.Exec.Keeps.{IsPreorder, Keeps, Keeps-pure, Keeps-bind}
use truthmetal.Model.{LedgerEvent}
use truthmetal.Ledger.{Process, Service, on_world}
use truthmetal.Ledger.Requests.{Request, step}
use truthmetal.Ledger.Channel.{queue, Extends, Extends-preorder, broadcast-Extends, step-Keeps}
use truthmetal.Api.Messages.{EventMessage}
use truthmetal.Api.{event_to_proto, event_message}

-- What a round of the loop ends with, unless its `return` gives an error.
pub data Round : Type 0 where
  waiting : Round
  sent : EventMessage → Round

-- The streams read and `Submit` writes: the process, who received which event, in order, and the
-- streams that an error or a panic ended. A client that calls again has a stream with another
-- number.
pub record Streams (W : Type 0) : Type 0 where
  pub process : Process W
  pub received : List (ℕ × LedgerEvent)
  pub ended : List ℕ

-- A request is served, or a stream makes a round of its loop.
pub data Move : Type 0 where
  serve : Request → Move
  watch : ℕ → Move

unfoldable pub has_ended : ℕ → List ℕ → Bool
has_ended n [] = false
has_ended n (m ∷ ms) = nat_eq n m || has_ended n ms

-- The streams that have ended behind a round of `n`: `return err` ends it, and so does a panic.
abbrev pub ended_behind : ℕ → Outcome Round → List ℕ → List ℕ
ended_behind n (returns r) ns = ns
ended_behind n (fails e) ns = n ∷ ns
ended_behind n panics ns = n ∷ ns

-- What the stream receives from a channel.
unfoldable pub receive : ℕ → List LedgerEvent → List (ℕ × LedgerEvent)
receive n [] = []
receive n (e ∷ es) = (n, e) ∷ []

module _ {W Doc : Type 0} (svc : Service W Doc) (send : EventMessage → Exec W (Unit {0})) where
  -- The case of an event.
  unfoldable pub send_event : LedgerEvent → Exec (Process W) Round
  send_event e = do m ← on_world (event_to_proto svc e); on_world (send m); pure (sent m)

  -- The case of the channel in `select`; the channel is never closed, and the request is not
  -- read. In the other case, of a context that is done, the stream makes no more rounds.
  unfoldable pub watch_round : List LedgerEvent → Exec (Process W) Round
  watch_round [] s = pure waiting s
  watch_round (e ∷ es) s = send_event e (record s { events = es })

  -- A round of the loop of a stream.
  unfoldable pub round : Streams W → ℕ → Streams W
  round f n = record {
    process = (watch_round f.process.events f.process).1;
    received = f.received ++ receive n f.process.events;
    ended = ended_behind n (watch_round f.process.events f.process).0 f.ended;
  }

  unfoldable pub move : Streams W → Move → Streams W
  move f (serve request) = record f { process = step svc f.process request }
  move f (watch n) = if has_ended n f.ended then f else round f n

  unfoldable pub moves : Streams W → List Move → Streams W
  moves f [] = f
  moves f (m ∷ ms) = moves (move f m) ms

  -- All events so far: the received ones, in order, and those in the channel.
  abbrev pub stream : Streams W → List LedgerEvent
  stream f = map (λ r. r.1) f.received ++ f.process.events

  Level : List LedgerEvent → List LedgerEvent → Type 0
  Level before after = after ≡ before

  Level-preorder : IsPreorder Level
  unfolding Level
  Level-preorder = record { reflexive = λ d. refl; transitive = λ d e f h k. k ∙ h }

  send_event-Level : (e : LedgerEvent) → Keeps Level queue (send_event e)
  unfolding Level send_event
  send_event-Level e =
      Keeps-bind Level-preorder queue _ _ (record { at = λ s. refl })
        λ m.
          Keeps-bind Level-preorder queue _ _ (record { at = λ s. refl })
            λ _. Keeps-pure Level-preorder queue (sent m)

  watched :
      (n : ℕ) (es : List LedgerEvent) (s : Process W)
      → s.events ≡ es
      → map (λ r. r.1) (receive n es) ++ (watch_round es s).1.events ≡ es
  unfolding receive watch_round Level
  watched n [] s h = h
  watched n (e ∷ es) s h = ap (λ q. e ∷ q) ((send_event-Level e).at (record s { events = es }))

  round-stream : (f : Streams W) (n : ℕ) → stream (round f n) ≡ stream f
  unfolding round
  round-stream f n =
      let es = f.process.events in
      ap (λ q. q ++ (watch_round es f.process).1.events)
        (List.map-append (λ r. r.1) f.received (receive n es))
      ∙ append_assoc (map (λ r. r.1) f.received) (map (λ r. r.1) (receive n es)) _
      ∙ ap (λ q. map (λ r. r.1) f.received ++ q) (watched n es f.process refl)

  move-Extends : (f : Streams W) (m : Move) → Extends (stream f) (stream (move f m))
  unfolding move
  move-Extends f (serve request) =
      let (added, e) = step-Keeps svc Extends-preorder broadcast-Extends f.process request in
      (added, rw e (sym (append_assoc _ f.process.events added)))
  move-Extends f (watch n) = elim (Bool-cases (has_ended n f.ended)) [
    | inl t ↦ rw t (Extends-preorder.reflexive (stream f))
    | inr h ↦ rw h ([], round-stream f n ∙ sym (append-nil _))
  ]

  -- However requests and streams take turns, and whether or not the streams can be sent to, the
  -- events that some stream received, in the order of their receipt, followed by those in the
  -- channel, only grow at the end: each event that was broadcast goes to one stream, not to all
  -- of them, and first come is first served.
  pub moves-Extends : (f : Streams W) (ms : List Move) → Extends (stream f) (stream (moves f ms))
  unfolding moves
  moves-Extends f [] = Extends-preorder.reflexive (stream f)
  moves-Extends f (m ∷ ms) =
      Extends-preorder.transitive _ _ _ (move-Extends f m) (moves-Extends (move f m) ms)

  pub emptied :
      (e : LedgerEvent) (es : List LedgerEvent) (s : Process W)
      → (watch_round (e ∷ es) s).1.events ≡ es
  unfolding watch_round Level
  emptied e es s = (send_event-Level e).at (record s { events = es })

  pub goes_on : (n : ℕ) (f : Streams W) → has_ended n f.ended ≡ false → move f (watch n) ≡ round f n
  unfolding move
  goes_on n f h = rw h refl

  module _ (clock : (w : W) → (t : ℕ) × ((svc.env.now w).0 ≡ returns t))
      (sends : (m : EventMessage) (w : W) → (send m w).0 ≡ returns tt) where
    translated :
        (e : LedgerEvent) (w : W) → (m : EventMessage) × ((event_to_proto svc e w).0 ≡ returns m)
    unfolding event_to_proto ◌>>=◌
    translated e w = elim (Bool-cases (nat_eq e.occurred_at 0)) [
      | inl t ↦ (event_message e (clock w).0, rw (t, (clock w).1))
      | inr h ↦ (event_message e e.occurred_at, rw h)
    ]

    sent_event :
        (e : LedgerEvent) (s : Process W)
        → (m : EventMessage) × ((send_event e s).0 ≡ returns (sent m))
    unfolding send_event ◌>>=◌
    sent_event e s =
        let (m, h) = translated e s.world in (m, rw (h, sends m (event_to_proto svc e s.world).1))

    received-round :
        (n : ℕ) (e : LedgerEvent) (es : List LedgerEvent) (f : Streams W)
        → f.process.events ≡ e ∷ es
        → ((round f n).received ≡ f.received ++ (n, e) ∷ [])
          × ((round f n).process.events ≡ es)
          × ((round f n).ended ≡ f.ended)
    unfolding round receive watch_round
    received-round n e es f h = (
      rw h,
      ap (λ q. (watch_round q f.process).1.events) h ∙ emptied e es f.process,
      rw (h, (sent_event e (record f.process { events = es })).1),
    )

    drained :
        (n : ℕ) (es : List LedgerEvent) (f : Streams W)
        → has_ended n f.ended ≡ false
        → f.process.events ≡ es
        → ((moves f (map (λ e. watch n) es)).received ≡ f.received ++ map (λ e. (n, e)) es)
          × ((moves f (map (λ e. watch n) es)).process.events ≡ [])
    unfolding moves
    drained n [] f going h = (sym (append-nil f.received), h)
    drained n (e ∷ es) f going h =
        let (r, q, k) = received-round n e es f h in
        let (rs, qs) = drained n es (round f n) (ap (has_ended n) k ∙ going) q in
        let on = goes_on n f going in
        (
          ap (λ g. (moves g (map (λ e. watch n) es)).received) on
              ∙ rs
              ∙ ap (λ x. x ++ map (λ e. (n, e)) es) r
              ∙ append_assoc f.received _ _,
          ap (λ g. (moves g (map (λ e. watch n) es)).process.events) on ∙ qs,
        )

    -- Suppose the clock and `Send` return in every state. A stream that has not ended, and that
    -- makes as many rounds as there are events in the channel, with no other move in between,
    -- receives all of them, in their order, and leaves the channel empty.
    pub moves_drain :
        (n : ℕ) (f : Streams W)
        → has_ended n f.ended ≡ false
        → ((moves f (map (λ e. watch n) f.process.events)).received
            ≡ f.received ++ map (λ e. (n, e)) f.process.events)
          × ((moves f (map (λ e. watch n) f.process.events)).process.events ≡ [])
    moves_drain n f going = drained n f.process.events f going refl
