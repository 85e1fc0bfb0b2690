-- ===== src/Api/Stopped.antt =====
-- `Watch` of internal/api/handler.go behind an error of `stream.Send`, which ends the stream.
use mathlib.Core.Bool.{false≢true}
use mathlib.Core.List.{append-nil}
use truthmetal.Base.{
  ℕ, ◌≡◌, refl, sym, ap, ◌∙◌, Bool, true, false, ◌||◌, Bool-cases, inl, inr, nat_eq, arith, List,
  [], ◌∷◌, ◌++◌, if◌then◌else◌,
}
use truthmetal.Exec.{Error, Outcome, returns, fails, panics, Exec}
use truthmetal.Model.{LedgerEvent}
use truthmetal.Ledger.{Service}
use truthmetal.Api.Messages.{EventMessage}
use truthmetal.Api.Watch.{
  Round, Streams, Move, serve, watch, has_ended, ended_behind, receive, send_event, watch_round,
  round, move, moves, emptied, goes_on,
}

-- What one stream received, in order.
unfoldable pub heard : ℕ → List (ℕ × LedgerEvent) → List LedgerEvent
heard n [] = []
heard n (r ∷ rs) = let rest = heard n rs in if nat_eq n r.0 then r.1 ∷ rest else rest

heard-++ : (n : ℕ) (rs ts : List (ℕ × LedgerEvent)) → heard n (rs ++ ts) ≡ heard n rs ++ heard n ts
unfolding heard
heard-++ n [] ts = refl
heard-++ n (r ∷ rs) ts = elim (Bool-cases (nat_eq n r.0)) [
  | inl t ↦ rw t (ap (λ x. r.1 ∷ x) (heard-++ n rs ts))
  | inr f ↦ rw f (heard-++ n rs ts)
]

heard-receive :
    (n m : ℕ) (rs : List (ℕ × LedgerEvent)) (es : List LedgerEvent)
    → nat_eq n m ≡ false
    → heard n (rs ++ receive m es) ≡ heard n rs
unfolding heard receive
heard-receive n m rs [] h = ap (heard n) (append-nil rs)
heard-receive n m rs (e ∷ es) h = heard-++ n rs ((m, e) ∷ []) ∙ rw h (append-nil (heard n rs))

distinct :
    (n m : ℕ) (ns : List ℕ) → has_ended n ns ≡ true → has_ended m ns ≡ false → nat_eq n m ≡ false
distinct n m ns h k = elim (Bool-cases (nat_eq n m)) [
  | inl t ↦
      let same : n ≡ m = ground arith in
      absurd (false≢true (sym k ∙ ap (λ i. has_ended i ns) (sym same) ∙ h))
  | inr f ↦ f
]

nat_eq_refl : (n : ℕ) → nat_eq n n ≡ true
nat_eq_refl n = ground arith

or_true : (b : Bool) {c : Bool} → c ≡ true → (b || c) ≡ true
or_true true h = refl
or_true false h = h

stays_ended :
    (n m : ℕ) (o : Outcome Round) (ns : List ℕ)
    → has_ended n ns ≡ true
    → has_ended n (ended_behind m o ns) ≡ true
unfolding has_ended
stays_ended n m (returns r) ns h = h
stays_ended n m (fails e) ns h = or_true _ h
stays_ended n m panics ns h = or_true _ h

module _ {W Doc : Type 0} (svc : Service W Doc) (send : EventMessage → Exec W (Unit {0})) where
  -- A stream that has ended is told nothing, and stays at its end.
  move_silent :
      (n : ℕ) (f : Streams W) (m : Move)
      → has_ended n f.ended ≡ true
      → (heard n (move svc send f m).received ≡ heard n f.received)
        × (has_ended n (move svc send f m).ended ≡ true)
  unfolding move round
  move_silent n f (serve request) h = (refl, h)
  move_silent n f (watch m) h = elim (Bool-cases (has_ended m f.ended)) [
    | inl t ↦ rw t (refl, h)
    | inr k ↦ rw k (
      heard-receive n m f.received f.process.events (distinct n m f.ended h k),
      stays_ended n m _ f.ended h,
    )
  ]

  moves_silent :
      (n : ℕ) (f : Streams W) (ms : List Move)
      → has_ended n f.ended ≡ true
      → heard n (moves svc send f ms).received ≡ heard n f.received
  unfolding moves
  moves_silent n f [] h = refl
  moves_silent n f (m ∷ ms) h =
      let (same, still) = move_silent n f m h in moves_silent n (move svc send f m) ms still ∙ same

  module _ (n : ℕ) (e : LedgerEvent) (es : List LedgerEvent) (f : Streams W)
      (waits : f.process.events ≡ e ∷ es) where
    round_events : (round svc send f n).process.events ≡ es
    unfolding round
    round_events =
        ap (λ q. (watch_round svc send q f.process).1.events) waits
        ∙ emptied svc send e es f.process

    heard-round : heard n (round svc send f n).received ≡ heard n f.received ++ e ∷ []
    unfolding round receive heard
    heard-round = rw waits (heard-++ n f.received ((n, e) ∷ []) ∙ rw (nat_eq_refl n) refl)

    round_ends :
        {failure : Error}
        → (send_event svc send e (record f.process { events = es })).0 ≡ fails failure
        → has_ended n (round svc send f n).ended ≡ true
    unfolding round watch_round has_ended
    round_ends failed = rw (waits, failed, nat_eq_refl n) refl

  -- If a stream that has not ended takes an event from the channel and fails with it, as it does
  -- where `Send` fails, then the event is no longer in the channel, and it is the last one that
  -- the stream takes, whatever requests and rounds of this and other streams follow.
  pub moves_stopped :
      (n : ℕ) (e : LedgerEvent) (es : List LedgerEvent) (f : Streams W) {failure : Error}
      → has_ended n f.ended ≡ false
      → f.process.events ≡ e ∷ es
      → (send_event svc send e (record f.process { events = es })).0 ≡ fails failure
      → ((moves svc send f (watch n ∷ [])).process.events ≡ es)
        × ((ms : List Move)
            → heard n (moves svc send f (watch n ∷ ms)).received ≡ heard n f.received ++ e ∷ [])
  unfolding moves
  moves_stopped n e es f going waits failed =
      let next = goes_on svc send n f going in
      (
        ap (λ g. g.process.events) next ∙ round_events n e es f waits,
        λ ms.
            ap (λ g. heard n (moves svc send g ms).received) next
            ∙ moves_silent n (round svc send f n) ms (round_ends n e es f waits failed)
            ∙ heard-round n e es f waits,
      )
