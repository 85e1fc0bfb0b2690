-- ===== src/Ledger/Threads/Kept.antt =====
-- What requests that overlap keep of the store: what its writes keep, in any order.
use truthmetal.Base.{ℕ, zero, suc, List, [], ◌∷◌}
use truthmetal.Exec.{IsEnv}
use truthmetal.Exec.Keeps.{Keeps-attempt}
use truthmetal.Store.Db.{Db}
use truthmetal.Store.Contract.{IsStore}
use truthmetal.Cache.{IsApart}
use truthmetal.Ledger.{Process, Service}
use truthmetal.Ledger.Reads.{lookup-Keeps, finish-Keeps}
use truthmetal.Ledger.Footprint.Runs.{IsServed, served_step-Keeps}
use truthmetal.Ledger.Threads.{
  Thread, asking, proposing, evaluating, finishing, ended, System, Turn, serve, resume, advance,
  advance_at, turn, turns,
}

module _ {W Doc : Type 0} (svc : Service W Doc) {view : W → Db} (contract : IsStore svc.store view)
    (clock : IsEnv svc.env view) (apart : IsApart svc.cache.client view) {R : Db → Db → Type 0}
    (served : IsServed svc view R) where
  abbrev pub shows : System W → Db
  shows sys = view sys.process.world

  pub advance-Keeps :
      (t : Thread) (s : Process W) → R (view s.world) (view (advance svc t s).1.world)
  unfolding advance
  advance-Keeps (asking req) s =
      (Keeps-attempt view _ (lookup-Keeps svc contract apart served.order req.namespace req.key)).at
        s.world
  advance-Keeps (proposing req existing) s = (served.creates req existing).at s.world
  advance-Keeps (evaluating p) s = (served.evaluates p).at s.world
  advance-Keeps (finishing p verdict) s =
      (finish-Keeps svc contract apart served.order clock p verdict).at s
  advance-Keeps (ended o) s = served.order.reflexive _

  advance_at-Keeps :
      (n : ℕ) (ts : List Thread) (s : Process W)
      → R (view s.world) (view (advance_at svc n ts s).1.world)
  unfolding advance_at
  advance_at-Keeps n [] s = served.order.reflexive _
  advance_at-Keeps zero (t ∷ ts) s = advance-Keeps t s
  advance_at-Keeps (suc n) (t ∷ ts) s = advance_at-Keeps n ts s

  turn-Keeps : (sys : System W) (t : Turn) → R (shows sys) (shows (turn svc sys t))
  unfolding turn
  turn-Keeps sys (serve request) =
      served_step-Keeps svc contract clock apart served sys.process request
  turn-Keeps sys (resume n) = advance_at-Keeps n sys.threads sys.process

  pub turns-Keeps : (sys : System W) (ts : List Turn) → R (shows sys) (shows (turns svc sys ts))
  unfolding turns
  turns-Keeps sys [] = served.order.reflexive _
  turns-Keeps sys (t ∷ ts) =
      served.order.transitive _ _ _ (turn-Keeps sys t) (turns-Keeps (turn svc sys t) ts)
