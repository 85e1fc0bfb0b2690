-- ===== src/GoldenSuite/Libs.antt =====
-- What contract.go takes from net/url, time, encoding/base64, crypto/sha256 and strings, as
-- parameters of the validator.
use truthmetal.Base.{ℕ, String, Bool, Option, List}

-- The fields of a `url.URL` that `validateSource` reads; `user` is `parsed.User != nil`.
pub record Url : Type 0 where
  pub scheme : String
  pub host : String
  pub user : Bool
  pub path : String
  pub raw_query : String
  pub force_query : Bool
  pub fragment : String

pub record Libs : Type 0 where
  -- `url.Parse`; `none` is an error
  pub url_parse : String → Option Url
  -- `time.Parse(time.DateOnly, s)` returns no error
  pub is_date_only : String → Bool
  -- `base64.StdEncoding.DecodeString`; `none` is an error
  pub base64_decode : String → Option (List ℕ)
  -- the 32 bytes of `sha256.Sum256`
  pub sha256_sum : List ℕ → List ℕ
  -- `strings.ToLower`, `strings.TrimSpace`
  pub to_lower : String → String
  pub trim_space : String → String
