-- ===== src/Ledger/Overlap.antt =====
-- A `Get` that `Revoke` overtakes: the request has looked the version up in the store, and goes on
-- with the cache behind the revocation.
use truthmetal.Base.{String, ◌≡◌, sym, ◌∙◌, subst}
use truthmetal.Exec.{returns, fails, Error, IsEnv, ◌>>=◌}
use truthmetal.Exec.Keeps.{Same-preorder}
use truthmetal.Model.{Parameter, state_revoked}
use truthmetal.Store.Db.{Db, NoCanonical}
use truthmetal.Store.Contract.{IsStore}
use truthmetal.Store.Canonical.{OnlyCanonical}
use truthmetal.Store.Writable.{IsWritable}
use truthmetal.Cache.{Cache, IsApart, cache_key, canonical_ttl, get_canonical, set_canonical}
use truthmetal.Ledger.{Service, refill, get_stored, get, revoke}
use truthmetal.Ledger.Reads.{get_canonical-Keeps, refill-Keeps}
use truthmetal.Ledger.Revocation.{revoke_leaves_none}

-- Redis keeps what it was told, and JSON brings back the version that it was made from.
pub record Remembers {W Doc : Type 0} (c : Cache W Doc) (p : Parameter) : Type 0 where
  pub doc : Doc
  pub marshalled : c.json.marshal p ≡ returns doc
  pub unmarshalled : c.json.unmarshal doc ≡ returns p
  pub set : (k : String) (w : W) → (c.client.set k doc canonical_ttl w).0 ≡ returns tt
  pub kept :
      (k : String) (w : W) → (c.client.get k (c.client.set k doc canonical_ttl w).1).0 ≡ returns doc

module _ {W Doc : Type 0} (svc : Service W Doc) (p : Parameter) where
  -- The state that `Get` leaves at its look into the cache and its lookup in the store.
  abbrev pub missed : W → W
  missed w = (get_canonical svc.cache p.namespace p.key w).1

  abbrev pub looked_up : W → W
  looked_up w = (svc.store.get_parameter p.namespace p.key (missed w)).1

  -- Two requests overlap: `Get` looks `p` up, `Revoke` runs, and `Get` goes on.
  abbrev pub overlapped : String → String → W → W
  overlapped actor reason w =
      (refill svc p (revoke svc p.namespace p.key actor reason (looked_up w)).1).1

module _ {W Doc : Type 0} (svc : Service W Doc) (p : Parameter)
    (remembers : Remembers svc.cache p) where
  cached : (w : W) → (get_canonical svc.cache p.namespace p.key (refill svc p w).1).0 ≡ returns p
  unfolding refill set_canonical get_canonical cache_key ◌>>=◌
  cached w =
      rw (remembers.marshalled, remembers.set _ w, remembers.kept _ w, remembers.unmarshalled)

  pub get_cached :
      (namespace key : String) (w : W)
      → (get_canonical svc.cache namespace key w).0 ≡ returns p
      → (get svc namespace key w).0 ≡ returns p
  unfolding get get_stored ◌>>=◌
  get_cached namespace key w h = rw h

  module _ {view : W → Db} (contract : IsStore svc.store view) (clock : IsEnv svc.env view)
      (apart : IsApart svc.cache.client view) (writable : IsWritable svc.store) where
    get_alone :
        (w : W) {e : Error}
        → (get_canonical svc.cache p.namespace p.key w).0 ≡ fails e
        → (svc.store.get_parameter p.namespace p.key (missed svc p w)).0 ≡ returns p
        → get svc p.namespace p.key w ≡ refill svc p (looked_up svc p w)
    unfolding get get_stored ◌>>=◌
    get_alone w miss found = rw (miss, found)

    looked_up_reads : (w : W) → view (looked_up svc p w) ≡ view w
    looked_up_reads w =
        contract.get_reads p.namespace p.key (missed svc p w)
        ∙ (get_canonical-Keeps svc contract apart Same-preorder p.namespace p.key).at w

    -- Suppose the store keeps its contract and refuses no write but for the unique index, the
    -- clock and the ids do not fail, Redis is apart from the store, answers deletions and keeps
    -- what it is told, and `p` is the one canonical version of its key. A `Get` that finds
    -- nothing in the cache, and whose lookup returns `p`, has only the cache to fill. If `Revoke`
    -- runs before it does, and its own lookup returns `p` as well, the revocation returns, and
    -- behind both requests the key has no canonical version, yet the next `Get` answers `p` as it
    -- was.
    pub get_overtaken :
        (actor reason : String) (w : W) {e : Error}
        → (get_canonical svc.cache p.namespace p.key w).0 ≡ fails e
        → (svc.store.get_parameter p.namespace p.key (missed svc p w)).0 ≡ returns p
        → (svc.store.get_parameter p.namespace p.key (looked_up svc p w)).0 ≡ returns p
        → OnlyCanonical p.namespace p.key p.id (view w)
        → (get svc p.namespace p.key w ≡ refill svc p (looked_up svc p w))
          × ((revoke svc p.namespace p.key actor reason (looked_up svc p w)).0
              ≡ returns (record p { state = state_revoked }))
          × NoCanonical p.namespace p.key (view (overlapped svc p actor reason w))
          × ((get svc p.namespace p.key (overlapped svc p actor reason w)).0 ≡ returns p)
    get_overtaken actor reason w miss read found only =
        let start = subst (OnlyCanonical p.namespace p.key p.id) (sym (looked_up_reads w)) only in
        let (revoked, none_left) =
          revoke_leaves_none svc contract clock apart writable p.namespace p.key p actor reason
            (looked_up svc p w) found start in
        (
          get_alone w miss read,
          revoked,
          subst (NoCanonical p.namespace p.key)
              (sym ((refill-Keeps svc contract apart Same-preorder p).at _)) none_left,
          get_cached p.namespace p.key _ (cached _),
        )
