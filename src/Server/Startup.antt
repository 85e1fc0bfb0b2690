-- ===== src/Server/Startup.antt =====
-- What `run` has done when it starts to serve.
use truthmetal.Base.{ℕ, String, ◌≡◌, refl, ◌∙◌, ◌⊎◌, inl, inr}
use truthmetal.Exec.{Outcome, returns, fails, panics, Exec, continue, pure, ◌>>=◌}
use truthmetal.Exec.Keeps.{IsPreorder, Keeps, Same, Same-preorder, Keeps-pure, Keeps-bind}
use truthmetal.Server.{
  Config, ServerSettings, server_settings, shutdown_timeout, Platform, Up, load_config, wrapped,
  in_context, deferring, run_migrations, serve, run_with_pool, run,
}

module _ {W : Type 0} (started : W → ℕ) (Migrated : W → Type 0) where
  abbrev Stays : W → W → Type 0
  Stays w v = Migrated w → Migrated v

  Stays-preorder : IsPreorder Stays
  Stays-preorder = record { reflexive = λ w h. h; transitive = λ u v w f g h. g (f h) }

  -- The call starts no server, and what is migrated stays so.
  pub record Quiet {A : Type 0} (m : Exec W A) : Type 0 where
    pub starts_none : Keeps Same started m
    pub stays : Keeps Stays (λ w. w) m

  -- No server was started, or the database is migrated.
  abbrev Guarded : {A : Type 0} → Exec W A → Type 0
  Guarded m = (w : W) → (started (m w).1 ≡ started w) ⊎ Migrated (m w).1

  module _ {A B : Type 0} where
    Guarded-bind :
        (m : Exec W A) (f : A → Exec W B) → Quiet m → ((a : A) → Guarded (f a)) → Guarded (m >>= f)
    unfolding ◌>>=◌
    Guarded-bind m f q g w = later (m w).0 (m w).1 (q.starts_none.at w)
      where
        later :
            (o : Outcome A) (v : W)
            → started v ≡ started w
            → (started (continue o f v).1 ≡ started w) ⊎ Migrated (continue o f v).1
        later (returns a) v e = elim (g a v) [ inl h ↦ inl (h ∙ e) | inr h ↦ inr h ]
        later (fails x) v e = inl e
        later panics v e = inl e

    Guarded-migration :
        (m : Exec W A) (f : A → Exec W B)
        → Keeps Same started m
        → ((a : A) (w : W) → (m w).0 ≡ returns a → Migrated (m w).1)
        → ((a : A) → Keeps Stays (λ w. w) (f a))
        → Guarded (m >>= f)
    unfolding ◌>>=◌
    Guarded-migration m f k done s w = later (m w).0 (m w).1 (k.at w) (λ a e. done a w e)
      where
        later :
            (o : Outcome A) (v : W)
            → started v ≡ started w
            → ((a : A) → o ≡ returns a → Migrated v)
            → (started (continue o f v).1 ≡ started w) ⊎ Migrated (continue o f v).1
        later (returns a) v e h = inr ((s a).at v (h a refl))
        later (fails x) v e h = inl e
        later panics v e h = inl e

  Guarded-deferring :
      {A : Type 0} (close : Exec W (Unit {0})) (rest : Exec W A)
      → Quiet close
      → Guarded rest
      → Guarded (deferring close rest)
  Guarded-deferring close rest q g w = elim (g w) [
    | inl h ↦ inl (q.starts_none.at _ ∙ h)
    | inr h ↦ inr (q.stays.at _ h)
  ]

  -- Only `start` starts a server, nothing undoes a migration, and `up` leaves the database
  -- migrated if it does not fail.
  pub record Phases (platform : Platform W) : Type 0 where
    pub new_pool : (url : String) → Quiet (platform.new_pool url)
    pub ping_pool : (h : ℕ) → Quiet (platform.ping_pool h)
    pub close_pool : (h : ℕ) → Quiet (platform.close_pool h)
    pub new_migration : (path url : String) → Quiet (platform.new_migration path url)
    pub up : (m : ℕ) → Quiet (platform.up m)
    pub new_client : (url : String) → Quiet (platform.new_client url)
    pub ping_client : (h : ℕ) → Quiet (platform.ping_client h)
    pub close_client : (h : ℕ) → Quiet (platform.close_client h)
    pub wait : Quiet platform.wait
    pub with_timeout : (seconds : ℕ) → Quiet (platform.with_timeout seconds)
    pub cancel : (c : ℕ) → Quiet (platform.cancel c)
    pub shutdown : (c : ℕ) → Quiet (platform.shutdown c)
    pub start :
        (settings : ServerSettings) (p c : ℕ) (w : W)
        → Migrated w
        → Migrated (platform.start settings p c w).1
    pub up_done :
        (m : ℕ) (w : W) (u : Up) → (platform.up m w).0 ≡ returns u → Migrated (platform.up m w).1

  module _ {platform : Platform W} (phases : Phases platform) where
    migrations-Same : (url path : String) → Keeps Same started (run_migrations platform url path)
    unfolding run_migrations
    migrations-Same url path =
        Keeps-bind Same-preorder started _ _ (phases.new_migration path url).starts_none λ m.
          Keeps-bind Same-preorder started _ _ (phases.up m).starts_none
            λ done. Keeps-pure Same-preorder started tt

    migrations_done :
        (url path : String) (w : W)
        → (run_migrations platform url path w).0 ≡ returns tt
        → Migrated (run_migrations platform url path w).1
    unfolding run_migrations ◌>>=◌
    migrations_done url path w h =
        made (platform.new_migration path url w).0 (platform.new_migration path url w).1 h
      where
        upped :
            (o : Outcome Up) (v : W)
            → ((u : Up) → o ≡ returns u → Migrated v)
            → (continue {S = W} o (λ done. pure tt) v).0 ≡ returns tt
            → Migrated (continue {S = W} o (λ done. pure tt) v).1
        upped (returns u) v k e = k u refl
        upped (fails x) v k e = cc
        upped panics v k e = cc

        made :
            (o : Outcome ℕ) (v : W)
            → (continue o (λ m. platform.up m >>= λ done. pure tt) v).0 ≡ returns tt
            → Migrated (continue o (λ m. platform.up m >>= λ done. pure tt) v).1
        made (returns m) v e =
            upped (platform.up m v).0 (platform.up m v).1 (λ u. phases.up_done m v u) e
        made (fails x) v e = cc
        made panics v e = cc

    Quiet-wrapped :
        {A : Type 0} (context : String) (m : Exec W A) → Quiet m → Quiet (wrapped context m)
    Quiet-wrapped context m q = record {
      starts_none = record { at = q.starts_none.at };
      stays = record { at = q.stays.at };
    }

    in_context_returns :
        {A : Type 0} (context : String) (o : Outcome A) (a : A)
        → in_context context o ≡ returns a
        → o ≡ returns a
    in_context_returns context (returns b) a e = e
    in_context_returns context (fails x) a e = cc
    in_context_returns context panics a e = cc

    Stays-deferring :
        {A : Type 0} (close : Exec W (Unit {0})) (rest : Exec W A)
        → Quiet close
        → Keeps Stays (λ w. w) rest
        → Keeps Stays (λ w. w) (deferring close rest)
    Stays-deferring close rest q k = record { at = λ w h. q.stays.at _ (k.at w h) }

    serve-Stays : (config : Config) (p c : ℕ) → Keeps Stays (λ w. w) (serve platform config p c)
    unfolding serve
    serve-Stays config p c =
        Keeps-bind Stays-preorder (λ w. w) _ _ (record { at = (phases.ping_client c).stays.at })
          λ _.
            Keeps-bind Stays-preorder (λ w. w) _ _
              (record { at = phases.start (server_settings config) p c })
              λ _.
                Keeps-bind Stays-preorder (λ w. w) _ _ phases.wait.stays
                  λ _.
                    Keeps-bind Stays-preorder (λ w. w) _ _
                      (phases.with_timeout shutdown_timeout).stays
                      λ context.
                        Stays-deferring (platform.cancel context) _ (phases.cancel context)
                          (phases.shutdown context).stays

    with_pool-Guarded : (config : Config) (p : ℕ) → Guarded (run_with_pool platform config p)
    unfolding run_with_pool
    with_pool-Guarded config p =
        let migrations = run_migrations platform config.database_url config.migrations_path in
        Guarded-bind _ _ (Quiet-wrapped "db ping" _ (phases.ping_pool p)) λ _.
          Guarded-migration (wrapped "migrations" migrations) _
            (record { at = (migrations-Same config.database_url config.migrations_path).at })
            (λ _ w e.
              migrations_done config.database_url config.migrations_path w
                (in_context_returns "migrations" (migrations w).0 tt e))
            λ _.
              Keeps-bind Stays-preorder (λ w. w) _ _ (record { at = λ w h. h })
                λ options.
                  Keeps-bind Stays-preorder (λ w. w) _ _ (phases.new_client options).stays
                    λ client.
                      Stays-deferring (platform.close_client client) _ (phases.close_client client)
                        (serve-Stays config p client)

    -- If only `start` starts a server, nothing undoes the migrations, and `up` leaves the
    -- database migrated if it does not fail, then whatever fails in `run`, either no server was
    -- started, or the database is migrated.
    pub run-Guarded :
        (environment : String → String) (w : W)
        → (started (run platform environment w).1 ≡ started w)
          ⊎ Migrated (run platform environment w).1
    unfolding run
    run-Guarded environment =
        let config = load_config environment in
        Guarded-bind _ _ (Quiet-wrapped "db connect" _ (phases.new_pool config.database_url))
          λ pool.
            Guarded-deferring (platform.close_pool pool) (run_with_pool platform config pool)
              (phases.close_pool pool) (with_pool-Guarded config pool)
