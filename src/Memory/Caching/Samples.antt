-- ===== src/Memory/Caching/Samples.antt =====
-- A `Get` that a `Revoke` overtakes, over the memory with a cache.
use mathlib.Core.Bool.{false≢true}
use text.Mathlib.TextEquality.{eq_iff}
use truthmetal.Base.{String, ◌≡◌, ◌≢◌, refl, sym, ◌∙◌, string_dec, [], ◌∷◌, All, ◌==◌}
use truthmetal.Exec.{Error, other, returns, fails, ◌>>=◌}
use truthmetal.Model.{Parameter, state_revoked}
use truthmetal.Store.Db.{NoCanonical}
use truthmetal.Cache.{get_canonical}
use truthmetal.Ledger.{Service, new_service, submit, get, revoke, refill}
use truthmetal.Ledger.Overlap.{get_overtaken, overlapped}
use truthmetal.Ledger.Samples.{old, valid_request, ten_valid, old_named}
use truthmetal.Ledger.ReadBack.{Succeeds, get-submit}
use truthmetal.Memory.Contract.{find-ne-other}
use truthmetal.Memory.{test_parsers}
use truthmetal.Memory.Caching.{
  CachingWorld, caching_store, caching_env, caching_cache, database, caching_store-IsStore,
  caching_store-IsWritable, caching_store-IsTaking, caching_env-IsEnv, caching_cache-IsApart,
  caching_cache-Remembers,
}

abbrev service : Service CachingWorld Parameter
service = new_service caching_store caching_cache caching_env test_parsers

-- One version, and nothing in the cache.
abbrev held : CachingWorld
held = (
  record { db = record { parameters = old ∷ []; events = [] }; clock = 2 },
  λ k. fails (other "redis: nil"),
)

old_found : (caching_store.get_parameter "risk" "limit" held).0 ≡ returns old
unfolding string_dec
old_found = refl

abbrev behind : CachingWorld
behind = overlapped service old "ana" "wrong" held

get_overtaken_example :
    (get service "risk" "limit" held ≡ refill service old held)
    × ((revoke service "risk" "limit" "ana" "wrong" held).0
        ≡ returns (record old { state = state_revoked }))
    × NoCanonical "risk" "limit" (database behind)
    × ((get service "risk" "limit" behind).0 ≡ returns old)
unfolding get_canonical ◌>>=◌
get_overtaken_example =
    get_overtaken service old (caching_cache-Remembers old) caching_store-IsStore caching_env-IsEnv
      caching_cache-IsApart caching_store-IsWritable "ana" "wrong" held refl old_found old_found
      (λ c. refl, tt)

-- The one id of the generator is not that of the version that is held.
fresh_id :
    (w : CachingWorld) (id : String)
    → (caching_env.new_uuid w).0 ≡ returns id
    → All (λ r. r.id ≢ id) (database held).parameters
fresh_id w id e = (differs, tt)
  where
    same : "00000000-0000-4000-8000-000000000002" ≡ id
    same = cc

    differs : old.id ≢ id
    differs h = false≢true ((eq_iff old.id "00000000-0000-4000-8000-000000000002").1 (h ∙ sym same))

readable :
    (id : String) (w : CachingWorld) (m : String)
    → (caching_store.get_parameter_by_id id w).0 ≢ fails (Error.other m)
readable id w m = find-ne-other (λ p. p.id == id) m w.0.db.parameters

get-submit_example :
    (q : Parameter) × ((submit service valid_request (record { world = held; events = [] })).0
      ≡ returns q)
    × Succeeds valid_request old q
    × ((get service "risk" "limit"
          (submit service valid_request (record { world = held; events = [] })).1.world).0
        ≡ returns q)
get-submit_example =
    get-submit caching_store caching_cache caching_env test_parsers caching_env-IsEnv
      caching_store-IsStore caching_cache-IsApart caching_store-IsTaking caching_cache-Remembers
      (λ k w. refl) readable valid_request old (record { world = held; events = [] }) fresh_id
      ten_valid old_found old_named
