-- ===== src/Ledger/Threads/Typed.antt =====
-- Only values that passed the validation become canonical, whatever overlaps.
use truthmetal.Base.{ℕ, zero, suc, ◌≡◌, refl, List, [], ◌∷◌, map, All}
use truthmetal.Exec.{Outcome, returns, fails, panics, Env, IsEnv}
use truthmetal.Exec.Keeps.{Keeps, Keeps-attempt}
use truthmetal.Model.{Parameter, SubmitRequest, state_canonical, state_revoked}
use truthmetal.Store.{Store}
use truthmetal.Store.Db.{Db}
use truthmetal.Store.Contract.{IsStore, HasPrimaryKey}
use truthmetal.Store.Kept.{create_new-Keeps, update-Keeps, append-Keeps}
use truthmetal.Store.Typed.{
  Upholds, Upholds-preorder, CanonicalTyped, Stored, Stored-insert, Stored-set_state,
  Stored-add_event,
}
use truthmetal.Cache.{Cache, IsApart}
use truthmetal.Consensus.{Parsers, evaluate}
use truthmetal.Consensus.Footprint.{evaluate-Keeps}
use truthmetal.Ledger.{Process, Service, new_service}
use truthmetal.Ledger.Requests.{Request, step}
use truthmetal.Ledger.Footprint.{IsKept, revoke-Keeps}
use truthmetal.Ledger.Reads.{lookup-Keeps, finish-Keeps}
use truthmetal.Ledger.Footprint.Runs.{IsServed, kept-IsServed, step-Keeps, served_step-Keeps}
use truthmetal.Ledger.Typed.{
  Passes, Typed-IsKept, evaluate-Ready, create_version-Leads, submit-Typed,
}
use truthmetal.Ledger.Threads.{
  Thread, asking, proposing, evaluating, finishing, ended, resumed, System, Turn, serve, resume,
  advance, advance_at, turn, turns,
}
use truthmetal.Ledger.Threads.Kept.{advance-Keeps}

-- The version that a thread evaluates is stored with its value.
abbrev pub Steady : Thread → Db → Type 0
Steady (asking req) d = Unit
Steady (proposing req existing) d = Unit
Steady (evaluating p) d = Stored p d
Steady (finishing p verdict) d = Unit
Steady (ended o) d = Unit

resumed-Steady :
    {A : Type 0} (next : A → Thread) (o : Outcome A) (d : Db)
    → ((a : A) → o ≡ returns a → Steady (next a) d)
    → Steady (resumed next o) d
resumed-Steady next (returns a) d h = h a refl
resumed-Steady next (fails e) d h = tt
resumed-Steady next panics d h = tt

module _ {W Doc : Type 0} (store : Store W) (cache : Cache W Doc) (env : Env W) (parsers : Parsers)
    {view : W → Db} (contract : IsStore store view) (clock : IsEnv env view)
    (apart : IsApart cache.client view) (keyed : HasPrimaryKey store view) where
  abbrev svc : Service W Doc
  svc = new_service store cache env parsers

  abbrev Typed : Db → Type 0
  Typed = CanonicalTyped (Passes parsers)

  Typed-kept : IsKept store view (Upholds Typed)
  Typed-kept = Typed-IsKept store cache env parsers contract clock apart keyed

  -- What other threads and requests do leaves a version as it is stored.
  module _ (p : Parameter) where
    abbrev Keeping : Db → Db → Type 0
    Keeping = Upholds (Stored p)

    Stored-kept : IsKept store view Keeping
    Stored-kept = record {
      order = Upholds-preorder (Stored p);
      appends = λ e. append-Keeps (Upholds-preorder (Stored p)) contract e (Stored-add_event p e);
      revokes = λ id.
          update-Keeps (Upholds-preorder (Stored p)) contract id state_revoked
            (Stored-set_state p id state_revoked);
    }

    create-Keeping : (q : Parameter) → Keeps Keeping view (store.create_parameter q)
    create-Keeping q =
        create_new-Keeps (Upholds-preorder (Stored p)) contract keyed q λ d n. Stored-insert p q d n

    evaluate-Keeping : (q : Parameter) → Keeps Keeping view (evaluate env store parsers q)
    evaluate-Keeping q = evaluate-Keeps env store parsers clock q (record {
      order = Upholds-preorder (Stored p);
      appends = Stored-kept.appends;
      updates = λ state n.
          update-Keeps (Upholds-preorder (Stored p)) contract q.id state
            (Stored-set_state p q.id state);
      promotes = λ passed.
          update-Keeps (Upholds-preorder (Stored p)) contract q.id state_canonical
            (Stored-set_state p q.id state_canonical);
    })

    Keeping-IsServed : IsServed svc view Keeping
    Keeping-IsServed =
        kept-IsServed svc contract clock apart Stored-kept create-Keeping evaluate-Keeping

    advance-Keeping :
        (t : Thread) (s : Process W) → Keeping (view s.world) (view (advance svc t s).1.world)
    advance-Keeping = advance-Keeps svc contract clock apart Keeping-IsServed

    step-Keeping :
        (s : Process W) (r : Request) → Keeping (view s.world) (view (step svc s r).world)
    step-Keeping = served_step-Keeps svc contract clock apart Keeping-IsServed

  -- The canonical values have their types, and each thread is steady.
  abbrev Sound : List Thread → Db → Type 0
  Sound ts d = Typed d × All (λ t. Steady t d) ts

  advance-Steady :
      (t u : Thread) (s : Process W)
      → Steady u (view s.world)
      → Steady u (view (advance svc t s).1.world)
  advance-Steady t (asking req) s h = tt
  advance-Steady t (proposing req existing) s h = tt
  advance-Steady t (evaluating p) s h = advance-Keeping p t s h
  advance-Steady t (finishing p verdict) s h = tt
  advance-Steady t (ended o) s h = tt

  -- A step of a thread, for the thread itself.
  advance-Sound :
      (t : Thread) (s : Process W)
      → Typed (view s.world)
      → Steady t (view s.world)
      → Typed (view (advance svc t s).1.world)
        × Steady (advance svc t s).0 (view (advance svc t s).1.world)
  unfolding advance
  advance-Sound (asking req) s h k = (
    (Keeps-attempt view _
          (lookup-Keeps svc contract apart Typed-kept.order req.namespace req.key)).at
        s.world h,
    resumed-Steady (proposing req) _ _ (λ a e. tt),
  )
  advance-Sound (proposing req existing) s h k =
      let l =
        create_version-Leads store cache env parsers contract clock apart keyed req existing in
      (l.upheld s.world h, resumed-Steady evaluating _ _ (λ p e. (l.returned s.world p h e).1))
  advance-Sound (evaluating p) s h k = (
    ((evaluate-Ready store cache env parsers contract clock apart keyed p).at s.world (h, k)).0,
    resumed-Steady (finishing p) _ _ (λ a e. tt),
  )
  advance-Sound (finishing p verdict) s h k = (
    (finish-Keeps svc contract apart Typed-kept.order clock p verdict).at s h,
    resumed-Steady (λ q. ended (returns q)) _ _ (λ a e. tt),
  )
  advance-Sound (ended o) s h k = (h, tt)

  all-Steady :
      (t : Thread) (us : List Thread) (s : Process W)
      → All (λ u. Steady u (view s.world)) us
      → All (λ u. Steady u (view (advance svc t s).1.world)) us
  all-Steady t [] s h = tt
  all-Steady t (u ∷ us) s (h, k) = (advance-Steady t u s h, all-Steady t us s k)

  unmoved :
      (n : ℕ) (u : Thread) (ts : List Thread) (s : Process W)
      → Steady u (view s.world)
      → Steady u (view (advance_at svc n ts s).1.world)
  unfolding advance_at
  unmoved n u [] s h = h
  unmoved zero u (t ∷ ts) s h = advance-Steady t u s h
  unmoved (suc n) u (t ∷ ts) s h = unmoved n u ts s h

  advance_at-Sound :
      (n : ℕ) (ts : List Thread) (s : Process W)
      → Sound ts (view s.world)
      → Sound (advance_at svc n ts s).0 (view (advance_at svc n ts s).1.world)
  unfolding advance_at
  advance_at-Sound n [] s h = h
  advance_at-Sound zero (t ∷ ts) s (h, (k, ks)) =
      let (typed, steady) = advance-Sound t s h k in (typed, (steady, all-Steady t ts s ks))
  advance_at-Sound (suc n) (t ∷ ts) s (h, (k, ks)) =
      let (typed, steady) = advance_at-Sound n ts s (h, ks) in (typed, (unmoved n t ts s k, steady))

  served :
      (request : Request) (ts : List Thread) (s : Process W)
      → All (λ t. Steady t (view s.world)) ts
      → All (λ t. Steady t (view (step svc s request).world)) ts
  served request [] s h = tt
  served request (evaluating p ∷ ts) s (h, k) = (step-Keeping p s request h, served request ts s k)
  served request (asking req ∷ ts) s (h, k) = (tt, served request ts s k)
  served request (proposing req existing ∷ ts) s (h, k) = (tt, served request ts s k)
  served request (finishing p verdict ∷ ts) s (h, k) = (tt, served request ts s k)
  served request (ended o ∷ ts) s (h, k) = (tt, served request ts s k)

  turn-Sound :
      (sys : System W) (t : Turn)
      → Sound sys.threads (view sys.process.world)
      → Sound (turn svc sys t).threads (view (turn svc sys t).process.world)
  unfolding turn
  turn-Sound sys (serve request) (h, k) = (
    step-Keeps svc contract clock apart Typed-kept.order
        (revoke-Keeps svc contract clock apart Typed-kept)
        (submit-Typed store cache env parsers contract clock apart keyed) sys.process request h,
    served request sys.threads sys.process k,
  )
  turn-Sound sys (resume n) h = advance_at-Sound n sys.threads sys.process h

  turns-Sound :
      (sys : System W) (ts : List Turn)
      → Sound sys.threads (view sys.process.world)
      → Sound (turns svc sys ts).threads (view (turns svc sys ts).process.world)
  unfolding turns
  turns-Sound sys [] h = h
  turns-Sound sys (t ∷ ts) h = turns-Sound (turn svc sys t) ts (turn-Sound sys t h)

  asking-Steady : (reqs : List SubmitRequest) (d : Db) → All (λ t. Steady t d) (map asking reqs)
  asking-Steady [] d = tt
  asking-Steady (req ∷ reqs) d = (tt, asking-Steady reqs d)

  -- Suppose the store keeps its contract and its primary key, and Redis and the clock are apart
  -- from it. If the value of each canonical version has its type, then so it is behind any turns
  -- of any number of calls of `Submit` that overlap, with other requests between their steps:
  -- whatever fails and whatever comes in between, no version becomes canonical whose value does
  -- not pass the validation.
  pub turns-CanonicalTyped :
      (s : Process W) (reqs : List SubmitRequest) (ts : List Turn)
      → CanonicalTyped (Passes parsers) (view s.world)
      → CanonicalTyped
          (Passes parsers)
          (view (turns svc (record { process = s; threads = map asking reqs }) ts).process.world)
  turns-CanonicalTyped s reqs ts typed =
      (turns-Sound (record { process = s; threads = map asking reqs }) ts
        (typed, asking-Steady reqs (view s.world))).0
