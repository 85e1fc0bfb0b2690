-- ===== src/Cache/Samples.antt =====
-- The keys of the cache at short texts.
use truthmetal.Base.{String, ◌≡◌, refl, arith}
use truthmetal.Cache.{cache_key}
use truthmetal.Cache.Keys.{NoColon, cache_key_collision, cache_key_injective}

cache_key_collision_example : cache_key "eu:risk" "limit" ≡ cache_key "eu" "risk:limit"
cache_key_collision_example = cache_key_collision "eu" "risk" "limit"

abbrev risk : String
risk = "risk"

abbrev limit : String
limit = "a:b"

risk-NoColon : NoColon risk
risk-NoColon = (omega arith, (omega arith, (omega arith, (omega arith, tt))))

cache_key_injective_example : (risk ≡ risk) × (limit ≡ limit)
cache_key_injective_example =
    cache_key_injective risk risk limit limit risk-NoColon risk-NoColon refl
