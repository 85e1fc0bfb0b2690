-- ===== src/Ledger/Unblocked.antt =====
-- `Submit` of internal/ledger/ledger.go and the channel of events, from which nobody need read.
use mathlib.Core.List.{append-nil}
use truthmetal.Base.{
  ◌≡◌, refl, ltb, Bool-cases, inl, inr, Option, none, some, List, [], ◌++◌, Result, ok, err, length,
  if◌then◌else◌,
}
use truthmetal.Exec.{Error, Outcome, returns, fails, panics, Exec, pure, attempt, continue, ◌>>=◌}
use truthmetal.Model.{Parameter, ParameterState, SubmitRequest, LedgerEvent}
use truthmetal.Ledger.{Process, Service, on_world, broadcast, publish, finish, submit}

-- What becomes of a channel that holds `es` when `new` is offered to it.
abbrev pub offer : List LedgerEvent → List LedgerEvent → List LedgerEvent
offer es new = if ltb (length es) 256 then es ++ new else es

offer-nil : (es : List LedgerEvent) → offer es [] ≡ es
offer-nil es = elim (Bool-cases (ltb (length es) 256)) [
  | inl t ↦ rw t (append-nil es)
  | inr f ↦ rw f refl
]

-- An action that ends as it does at an empty channel, to which it offers what it puts there.
Unblocked : {W A : Type 0} → Exec (Process W) A → Type 0
Unblocked {W} m =
    (w : W) (es : List LedgerEvent)
    → m (record { world = w; events = es }) ≡ (
      (m (record { world = w; events = [] })).0,
      record {
        world = (m (record { world = w; events = [] })).1.world;
        events = offer es (m (record { world = w; events = [] })).1.events;
      },
    )

module _ {W A B : Type 0} where
  continue-Unblocked :
      (f : A → Exec (Process W) B)
      → ((a : A) → Unblocked (f a))
      → (o : Outcome A) → Unblocked (λ s. continue o f s)
  unfolding Unblocked
  continue-Unblocked f h (returns a) w es = h a w es
  continue-Unblocked f h (fails e) w es = rw (offer-nil es) refl
  continue-Unblocked f h panics w es = rw (offer-nil es) refl

  on_world-Unblocked :
      (m : Exec W A) (f : A → Exec (Process W) B)
      → ((a : A) → Unblocked (f a))
      → Unblocked (on_world m >>= f)
  unfolding Unblocked ◌>>=◌
  on_world-Unblocked m f h w es = continue-Unblocked f h (m w).0 (m w).1 es

pure-Unblocked : (W : Type 0) {A : Type 0} (a : A) → Unblocked (pure {S = Process W} a)
unfolding Unblocked
pure-Unblocked W a w es = rw (offer-nil es) refl

broadcast-Unblocked :
    (W : Type 0) {A : Type 0} (e : LedgerEvent) (a : A)
    → Unblocked (broadcast {W = W} e >>= λ _. pure a)
unfolding Unblocked ◌>>=◌ broadcast
broadcast-Unblocked W e a w es = elim (Bool-cases (ltb (length es) 256)) [
  | inl t ↦ rw t refl
  | inr f ↦ rw f refl
]

module _ {W Doc : Type 0} (svc : Service W Doc) where
  publish-Unblocked : (p : Parameter) (r : Result Error Parameter) → Unblocked (publish svc p r)
  unfolding publish
  publish-Unblocked p (err e) = pure-Unblocked W p
  publish-Unblocked p (ok fresh) =
      on_world-Unblocked _ _ λ _. on_world-Unblocked _ _ λ now. broadcast-Unblocked W _ fresh

  finish-Unblocked :
      (p : Parameter) (verdict : ParameterState × Option Error) → Unblocked (finish svc p verdict)
  unfolding finish Unblocked
  finish-Unblocked p (state, some e) w es = rw (offer-nil es) refl
  finish-Unblocked p (state, none) w es =
      on_world-Unblocked (attempt (svc.store.get_parameter_by_id p.id)) _
        (publish-Unblocked (record p { state = state })) w es

  -- However many events wait in the channel, `Submit` answers and writes what it does where none
  -- waits. An event that it broadcasts there goes behind the waiting ones if they are fewer than
  -- 256, and is dropped otherwise; the waiting ones stay.
  pub submit_unblocked :
      (req : SubmitRequest) (w : W) (es : List LedgerEvent)
      → submit svc req (record { world = w; events = es }) ≡ (
        (submit svc req (record { world = w; events = [] })).0,
        record {
          world = (submit svc req (record { world = w; events = [] })).1.world;
          events =
              if ltb (length es) 256
              then es ++ (submit svc req (record { world = w; events = [] })).1.events
              else es;
        },
      )
  unfolding submit Unblocked
  submit_unblocked req w es =
      on_world-Unblocked _ _ (λ p. on_world-Unblocked _ _ (λ v. finish-Unblocked p v)) w es
