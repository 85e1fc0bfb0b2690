-- ===== src/Ledger/Threads.antt =====
-- Requests that overlap in time: each `Submit` of internal/ledger/ledger.go runs in a goroutine
-- of its own, here a thread with four steps, and between two of its steps other threads take
-- theirs and other requests are served. A panic ends its thread alone: the server recovers it.
pub mod Kept
pub mod Typed
mod Twins
mod Samples
use truthmetal.Base.{ℕ, zero, suc, ◌≡◌, refl, sym, ap, ◌∙◌, Option, List, [], ◌∷◌, Result}
use truthmetal.Exec.{Error, Outcome, returns, fails, panics, Exec, attempt, continue, ◌>>=◌}
use truthmetal.Model.{Parameter, ParameterState, SubmitRequest}
use truthmetal.Ledger.{Process, Service, on_world, create_version, propose, finish, submit}
use truthmetal.Ledger.Requests.{Request, step}

-- Where a `Submit` stands: in front of `GetParameter`, of what it creates, of `Evaluate`, of what
-- it does with the verdict, or at its end.
pub data Thread : Type 0 where
  asking : SubmitRequest → Thread
  proposing : SubmitRequest → Result Error Parameter → Thread
  evaluating : Parameter → Thread
  finishing : Parameter → ParameterState × Option Error → Thread
  ended : Outcome Parameter → Thread

-- A value goes to the next step; an error or a panic is the end.
abbrev pub resumed : {A : Type 0} → (A → Thread) → Outcome A → Thread
resumed next (returns a) = next a
resumed next (fails e) = ended (fails e)
resumed next panics = ended panics

pub record System (W : Type 0) : Type 0 where
  pub process : Process W
  pub threads : List Thread

-- A whole request is served, or the thread at a place takes a step.
pub data Turn : Type 0 where
  serve : Request → Turn
  resume : ℕ → Turn

module _ {W Doc : Type 0} (svc : Service W Doc) where
  -- An action, and where its thread goes behind it.
  abbrev pub into :
      {A : Type 0} → (A → Thread) → Exec (Process W) A → Process W → Thread × Process W
  into next m s = (resumed next (m s).0, (m s).1)

  unfoldable pub advance : Thread → Process W → Thread × Process W
  advance (asking req) s =
      into (proposing req) (on_world (attempt (svc.store.get_parameter req.namespace req.key))) s
  advance (proposing req existing) s =
      into evaluating (on_world (create_version svc req existing)) s
  advance (evaluating p) s = into (finishing p) (on_world (svc.consensus.evaluate p)) s
  advance (finishing p verdict) s = into (λ q. ended (returns q)) (finish svc p verdict) s
  advance (ended o) s = (ended o, s)

  -- A step of the thread at a place, if there is one.
  unfoldable pub advance_at : ℕ → List Thread → Process W → List Thread × Process W
  advance_at n [] s = ([], s)
  advance_at zero (t ∷ ts) s = ((advance t s).0 ∷ ts, (advance t s).1)
  advance_at (suc n) (t ∷ ts) s = (t ∷ (advance_at n ts s).0, (advance_at n ts s).1)

  unfoldable pub turn : System W → Turn → System W
  turn sys (serve request) = record sys { process = step svc sys.process request }
  turn sys (resume n) = record {
    process = (advance_at n sys.threads sys.process).1;
    threads = (advance_at n sys.threads sys.process).0;
  }

  unfoldable pub turns : System W → List Turn → System W
  turns sys [] = sys
  turns sys (t ∷ ts) = turns (turn sys t) ts
