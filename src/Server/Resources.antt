-- ===== src/Server/Resources.antt =====
-- What `run` opens, it closes.
use truthmetal.Base.{ℕ, suc, ◌-◌, String, ◌≡◌, refl, arith}
use truthmetal.Exec.{Outcome, returns, fails, panics, Exec, continue, ◌>>=◌}
use truthmetal.Exec.Keeps.{Keeps, Same, Same-preorder, Keeps-pure, Keeps-bind}
use truthmetal.Server.{
  Config, ServerSettings, server_settings, shutdown_timeout, Platform, load_config, wrapped,
  in_context, deferring, run_migrations, serve, run_with_pool, run,
}

-- A call that opens something if it returns, by the numbers of what is open.
abbrev pub Opened : {A : Type 0} → Outcome A → ℕ → ℕ → Type 0
Opened (returns a) before after = after ≡ suc before
Opened (fails e) before after = after ≡ before
Opened panics before after = after ≡ before

-- `open_count` counts the pools, the clients and the contexts with a timeout that are open: no
-- other call of the platform changes it, whatever its outcome. What `migrate.New` opens, which
-- `runMigrations` does not close, is not counted.
pub record Counts {W : Type 0} (platform : Platform W) (open_count : W → ℕ) : Type 0 where
  pub new_pool :
      (url : String) (w : W)
      → Opened (platform.new_pool url w).0 (open_count w) (open_count (platform.new_pool url w).1)
  pub new_client :
      (url : String) (w : W)
      → Opened
          (platform.new_client url w).0
          (open_count w)
          (open_count (platform.new_client url w).1)
  pub close_pool : (h : ℕ) (w : W) → open_count (platform.close_pool h w).1 ≡ open_count w - 1
  pub close_client : (h : ℕ) (w : W) → open_count (platform.close_client h w).1 ≡ open_count w - 1
  pub ping_pool : (h : ℕ) (w : W) → open_count (platform.ping_pool h w).1 ≡ open_count w
  pub ping_client : (h : ℕ) (w : W) → open_count (platform.ping_client h w).1 ≡ open_count w
  pub new_migration :
      (path url : String) (w : W) → open_count (platform.new_migration path url w).1 ≡ open_count w
  pub up : (m : ℕ) (w : W) → open_count (platform.up m w).1 ≡ open_count w
  pub start :
      (settings : ServerSettings) (p c : ℕ) (w : W)
      → open_count (platform.start settings p c w).1 ≡ open_count w
  pub wait : (w : W) → open_count (platform.wait w).1 ≡ open_count w
  pub with_timeout :
      (seconds : ℕ) (w : W)
      → Opened
          (platform.with_timeout seconds w).0
          (open_count w)
          (open_count (platform.with_timeout seconds w).1)
  pub cancel : (c : ℕ) (w : W) → open_count (platform.cancel c w).1 ≡ open_count w - 1
  pub shutdown : (c : ℕ) (w : W) → open_count (platform.shutdown c w).1 ≡ open_count w

wrapped-Opened :
    {A : Type 0} (context : String) (o : Outcome A) (before after : ℕ)
    → Opened o before after
    → Opened (in_context context o) before after
wrapped-Opened context (returns a) before after h = h
wrapped-Opened context (fails e) before after h = h
wrapped-Opened context panics before after h = h

module _ {W : Type 0} (open_count : W → ℕ) where
  -- Opening, the rest, and the deferred closing.
  deferring-Same :
      {A B : Type 0} (m : Exec W A) (close : A → Exec W (Unit {0})) (rest : A → Exec W B)
      → ((w : W) → Opened (m w).0 (open_count w) (open_count (m w).1))
      → ((a : A) (w : W) → open_count (close a w).1 ≡ open_count w - 1)
      → ((a : A) → Keeps Same open_count (rest a))
      → Keeps Same open_count (m >>= λ a. deferring (close a) (rest a))
  unfolding ◌>>=◌
  deferring-Same {A = A} m close rest opens closes kept = record {
    at = λ w. after (m w).0 (open_count w) (m w).1 (opens w);
  }
    where
      after :
          (o : Outcome A) (before : ℕ) (w : W)
          → Opened o before (open_count w)
          → open_count (continue o (λ a. deferring (close a) (rest a)) w).1 ≡ before
      after (returns a) before w h = omega (arith, closes a (rest a w).1, (kept a).at w)
      after (fails e) before w h = h
      after panics before w h = h

module _ {W : Type 0} (platform : Platform W) {open_count : W → ℕ}
    (counts : Counts platform open_count) where
  migrations-Same : (url path : String) → Keeps Same open_count (run_migrations platform url path)
  unfolding run_migrations
  migrations-Same url path =
      Keeps-bind Same-preorder open_count _ _ (record { at = counts.new_migration path url })
        λ m.
          Keeps-bind Same-preorder open_count _ _ (record { at = counts.up m })
            λ done. Keeps-pure Same-preorder open_count tt

  serve-Same : (config : Config) (p c : ℕ) → Keeps Same open_count (serve platform config p c)
  unfolding serve
  serve-Same config p c =
      Keeps-bind Same-preorder open_count _ _ (record { at = counts.ping_client c })
        λ _.
          Keeps-bind Same-preorder open_count _ _
            (record { at = counts.start (server_settings config) p c })
            λ _.
              Keeps-bind Same-preorder open_count _ _ (record { at = counts.wait })
                λ _.
                  deferring-Same open_count (platform.with_timeout shutdown_timeout) platform.cancel
                    platform.shutdown (counts.with_timeout shutdown_timeout) counts.cancel
                    (λ context. record { at = counts.shutdown context })

  with_pool-Same :
      (config : Config) (p : ℕ) → Keeps Same open_count (run_with_pool platform config p)
  unfolding run_with_pool
  with_pool-Same config p =
      Keeps-bind Same-preorder open_count _ _ (record { at = counts.ping_pool p })
        λ _.
          Keeps-bind Same-preorder open_count _ _
            (record { at = (migrations-Same config.database_url config.migrations_path).at })
            λ _.
              Keeps-bind Same-preorder open_count _ _ (record { at = λ w. refl })
                λ options.
                  deferring-Same open_count (platform.new_client options) platform.close_client
                    (serve platform config p) (counts.new_client options) counts.close_client
                    (serve-Same config p)

  -- Whatever fails or panics in `run`, whenever it ends, as many pools, clients and contexts with a
  -- timeout are open as before: what was opened was closed.
  pub run_closes :
      (environment : String → String) (w : W)
      → open_count (run platform environment w).1 ≡ open_count w
  unfolding run
  run_closes environment w =
      (deferring-Same open_count
          (wrapped "db connect" (platform.new_pool (load_config environment).database_url))
          platform.close_pool (run_with_pool platform (load_config environment))
          (λ v.
            wrapped-Opened "db connect" _ _ _
              (counts.new_pool (load_config environment).database_url v))
          counts.close_pool (with_pool-Same (load_config environment))).at
        w
