-- ===== src/Ledger.antt =====
-- internal/ledger/ledger.go: the service. A process is the world with the buffered channel.
pub mod Panics
pub mod Revocation
pub mod Channel
mod Unblocked
pub mod Samples
mod NoFirstVersion
mod LostValue
mod Reads
pub mod Footprint
mod Immutability
pub mod Typed
pub mod Requests
mod Stages
mod Proposal
pub mod ReadBack
mod Supersession
pub mod Unreadable
pub mod Audit
pub mod Overlap
pub mod Threads
pub mod Telling
use Prim.Native.String
use truthmetal.Base.{
  ℕ, String, Bool, true, false, Option, none, some, List, [], ◌∷◌, ◌++◌, Result, ok, err, length,
  ltb, ◌==◌, if◌then◌else◌,
}
use truthmetal.Base.Int.{ℤ, pos, leb_ℤ, add64}
use truthmetal.Exec.{
  Error, not_found, other, Outcome, returns, fails, panics, Exec, Env, pure, raise, lift, attempt,
  ignore, errors_as, struct_target, is_not_found_error, ◌>>=◌, ◌>>◌,
}
use truthmetal.Model.{
  Time, StringMap, ParameterState, state_submitted, state_canonical, state_revoked, Parameter,
  event_submitted, event_promoted, event_revoked, event_superseded, LedgerEvent, SubmitRequest,
}
use truthmetal.Store.{Store}
use truthmetal.Cache.{Cache, get_canonical, set_canonical, invalidate_canonical}
use truthmetal.Consensus.{Protocol, Parsers, simple_quorum}

-- The capacity of the channel `events`.
abbrev pub capacity : ℕ
capacity = 256

pub record Process (W : Type 0) : Type 0 where
  pub world : W
  pub events : List LedgerEvent

abbrev pub on_world : {W A : Type 0} → Exec W A → Exec (Process W) A
on_world m s = ((m s.world).0, record s { world = (m s.world).1 })

-- `select { case events <- e: default: }`
pub broadcast : {W : Type 0} → LedgerEvent → Exec (Process W) (Unit {0})
broadcast e s = (
  returns tt,
  (if ltb (length s.events) capacity then record s { events = s.events ++ e ∷ [] } else s),
)

pub record Service (W Doc : Type 0) : Type 0 where
  pub store : Store W
  pub cache : Cache W Doc
  pub consensus : Protocol W
  pub env : Env W

abbrev or_empty : StringMap → StringMap
or_empty none = some []
or_empty (some m) = some m

-- `p.State` and `PreviousVersionID` as `Submit` creates the version.
abbrev pub submitted_version : SubmitRequest → String → Time → ℤ × String → Parameter
submitted_version req id now v = record {
  id = id;
  key = req.key;
  value = req.value;
  value_type = req.value_type;
  namespace = req.namespace;
  source = req.source;
  source_ref = req.source_ref;
  version = v.0;
  previous_version_id = v.1;
  state = state_submitted;
  metadata = or_empty req.metadata;
  created_at = now;
  updated_at = now;
}

-- The version number and the id of the canonical version, from the answer of `GetParameter`.
pub next_version : {W : Type 0} → Result Error Parameter → Exec W (ℤ × String)
next_version (ok existing) = pure (add64 existing.version (pos 1), existing.id)
next_version (err e) = do
  found ← lift (errors_as struct_target e)
  if found then pure (pos 1, "") else if is_not_found_error e then pure (pos 1, "") else raise e

module _ {W Doc : Type 0} (svc : Service W Doc) where
  pub record_submission : SubmitRequest → Parameter → Time → Exec W (Unit {0})
  record_submission req p now = do
    id ← svc.env.new_uuid
    svc.store.append_event (record {
      id = id;
      parameter_id = p.id;
      event_type = event_submitted;
      from_state = "";
      to_state = state_submitted;
      actor = req.actor;
      reason = "new submission";
      context = some (("source", req.source) ∷ ("source_ref", req.source_ref) ∷ []);
      occurred_at = now;
    })

  append_superseded : String → Parameter → Time → Exec W (Unit {0})
  append_superseded prev_id p now = do
    id ← svc.env.new_uuid
    svc.store.append_event (record {
      id = id;
      parameter_id = prev_id;
      event_type = event_superseded;
      from_state = state_canonical;
      to_state = state_revoked;
      actor = "system";
      reason = String.◌++◌ "superseded by version " p.id;
      context = some (("new_version_id", p.id) ∷ []);
      occurred_at = now;
    })

  -- What is done to the previous canonical version, if there is one.
  pub supersede : SubmitRequest → String → Parameter → Time → Exec W (Unit {0})
  supersede req prev_id p now = if prev_id == "" then pure tt else do
    ignore (svc.store.update_parameter_state prev_id state_revoked)
    ignore (append_superseded prev_id p now)
    ignore (invalidate_canonical svc.cache req.namespace req.key)

  -- `Submit` between the lookup of the canonical version and the call of `Evaluate`.
  pub create_version : SubmitRequest → Result Error Parameter → Exec W Parameter
  create_version req existing = do
    v ← next_version existing
    now ← svc.env.now
    id ← svc.env.new_uuid
    let p = submitted_version req id now v
    svc.store.create_parameter p
    record_submission req p now
    supersede req v.1 p now
    pure p

  pub propose : SubmitRequest → Exec W Parameter
  propose req = do
    existing ← attempt (svc.store.get_parameter req.namespace req.key)
    create_version req existing

  pub cache_fresh : Parameter → Exec W (Unit {0})
  cache_fresh fresh =
      if fresh.state == state_canonical then ignore (set_canonical svc.cache fresh) else pure tt

  -- The end of `Submit`, from the answer of the refresh.
  publish : Parameter → Result Error Parameter → Exec (Process W) Parameter
  publish p (err e) = pure p
  publish p (ok fresh) = do
    on_world (cache_fresh fresh)
    now ← on_world svc.env.now
    broadcast (record {
      id = "";
      parameter_id = fresh.id;
      event_type = event_promoted;
      from_state = "";
      to_state = fresh.state;
      actor = "";
      reason = "";
      context = none;
      occurred_at = now;
    })
    pure fresh

  -- `Submit` behind the call of `Evaluate`.
  pub finish : Parameter → ParameterState × Option Error → Exec (Process W) Parameter
  finish p (final_state, some e) = raise e
  finish p (final_state, none) = do
    fresh ← attempt (on_world (svc.store.get_parameter_by_id p.id))
    publish (record p { state = final_state }) fresh

  pub submit : SubmitRequest → Exec (Process W) Parameter
  submit req = do
    p ← on_world (propose req)
    verdict ← on_world (svc.consensus.evaluate p)
    finish p verdict

  -- `Get` behind its lookup in the store.
  pub refill : Parameter → Exec W Parameter
  refill p = do ignore (set_canonical svc.cache p); pure p

  -- `Get` behind its look into the cache.
  get_stored : String → String → Result Error Parameter → Exec W Parameter
  get_stored namespace key (ok p) = pure p
  get_stored namespace key (err e) = do p ← svc.store.get_parameter namespace key; refill p

  pub get : String → String → Exec W Parameter
  get namespace key = do
    cached ← attempt (get_canonical svc.cache namespace key)
    get_stored namespace key cached

  pub get_by_id : String → Exec W Parameter
  get_by_id id = svc.store.get_parameter_by_id id

  append_revoked : Parameter → String → String → Exec W (Unit {0})
  append_revoked p actor reason = do
    id ← svc.env.new_uuid
    now ← svc.env.now
    svc.store.append_event (record {
      id = id;
      parameter_id = p.id;
      event_type = event_revoked;
      from_state = state_canonical;
      to_state = state_revoked;
      actor = actor;
      reason = reason;
      context = some [];
      occurred_at = now;
    })

  -- namespace, key, actor, reason
  pub revoke : String → String → String → String → Exec W Parameter
  revoke namespace key actor reason = do
    p ← svc.store.get_parameter namespace key
    svc.store.update_parameter_state p.id state_revoked
    append_revoked p actor reason
    ignore (invalidate_canonical svc.cache namespace key)
    pure (record p { state = state_revoked })

  unfoldable pub query_audit : String → String → ℤ → ℤ → Exec W (List LedgerEvent × ℤ)
  query_audit namespace key limit offset =
      let limit' = if leb_ℤ limit (pos 0) then pos 50 else limit in
      svc.store.query_audit namespace key limit' offset

-- The wiring of cmd/server/main.go: one store under the service and the consensus.
abbrev pub new_service : {W Doc : Type 0} → Store W → Cache W Doc → Env W → Parsers → Service W Doc
new_service store cache env parsers = record {
  store = store;
  cache = cache;
  consensus = simple_quorum env store parsers;
  env = env;
}
