-- ===== src/Cache.antt =====
-- internal/cache/redis.go, over a Redis client and the JSON encoding of a parameter.
pub mod Keys
mod Samples
use Prim.Native.String
use truthmetal.Base.{ℕ, ◌*◌, ◌≡◌, ◌≢◌, String, Result, ok, err}
use truthmetal.Exec.{Error, Outcome, returns, fails, panics, Exec, lift, ◌>>=◌}
use truthmetal.Model.{Parameter}

-- `redis.Client`; a missing key is an error of `get`. The time to live is in nanoseconds.
pub record Redis (W Doc : Type 0) : Type 0 where
  pub get : String → Exec W Doc
  pub set : String → Doc → ℕ → Exec W (Unit {0})
  pub del : String → Exec W (Unit {0})

-- `json.Marshal` and `json.Unmarshal` at `model.Parameter`.
pub record ParameterJson (Doc : Type 0) : Type 0 where
  pub marshal : Parameter → Outcome Doc
  pub unmarshal : Doc → Outcome Parameter

-- 5 * time.Minute
abbrev pub canonical_ttl : ℕ
canonical_ttl = 5 * 60 * 1_000_000_000

unfoldable pub cache_key : String → String → String
cache_key namespace key = String.◌++◌ "tm:canonical:" (String.◌++◌ namespace (String.◌++◌ ":" key))

pub record Cache (W Doc : Type 0) : Type 0 where
  pub client : Redis W Doc
  pub json : ParameterJson Doc

module _ {W Doc : Type 0} (c : Cache W Doc) where
  unfoldable pub get_canonical : String → String → Exec W Parameter
  unfolding cache_key
  get_canonical namespace key = do
    doc ← c.client.get (cache_key namespace key)
    lift (c.json.unmarshal doc)

  unfoldable pub set_canonical : Parameter → Exec W (Unit {0})
  unfolding cache_key
  set_canonical p = do
    doc ← lift (c.json.marshal p)
    c.client.set (cache_key p.namespace p.key) doc canonical_ttl

  unfoldable pub invalidate_canonical : String → String → Exec W (Unit {0})
  unfolding cache_key
  invalidate_canonical namespace key = c.client.del (cache_key namespace key)

-- Redis is another service than the database: its calls change nothing that the view shows.
-- A deletion returns or fails.
pub record IsApart {W Doc D : Type 0} (client : Redis W Doc) (view : W → D) : Type 0 where
  pub get_reads : (k : String) (w : W) → view (client.get k w).1 ≡ view w
  pub set_reads : (k : String) (d : Doc) (n : ℕ) (w : W) → view (client.set k d n w).1 ≡ view w
  pub del_reads : (k : String) (w : W) → view (client.del k w).1 ≡ view w
  pub del_answers : (k : String) (w : W) → (client.del k w).0 ≢ panics
