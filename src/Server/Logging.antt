-- ===== src/Server/Logging.antt =====
-- `loggingInterceptor` of cmd/server/main.go.
use truthmetal.Base.{ℕ, ◌-◌, ◌/◌, String, ◌≡◌, refl, ◌∙◌, Option, none, some, Result, ok, err}
use truthmetal.Exec.{
  Error, Outcome, returns, fails, panics, Exec, Env, IsEnv, caught, continue, raise, attempt, pure,
  ◌>>=◌, ◌>>◌,
}

-- `slog.Info("rpc", …)`: the procedure, the duration in milliseconds, and the error.
abbrev pub Log : Type 0 → Type 0
Log W = String → ℕ → Option Error → Exec W (Unit {0})

abbrev error_of : {A : Type 0} → Result Error A → Option Error
error_of (ok a) = none
error_of (err e) = some e

module _ {W A : Type 0} where
  -- `return res, err`
  abbrev pub give_back : Result Error A → Exec W A
  give_back (ok a) = pure a
  give_back (err e) = raise e

  -- The interceptor behind the call. Times are in nanoseconds, and the clock of a duration does
  -- not go back.
  unfoldable pub report : Env W → Log W → String → ℕ → Result Error A → Exec W A
  report env log procedure start result = do
    end ← env.now
    log procedure ((end - start) / 1_000_000) (error_of result)
    give_back result

  unfoldable pub logging_interceptor : Env W → Log W → String → Exec W A → Exec W A
  logging_interceptor env log procedure next = do
    start ← env.now
    result ← attempt next
    report env log procedure start result

-- A line of the log is written, whatever it says, and a view does not show it.
pub record IsLog {W D : Type 0} (log : Log W) (view : W → D) : Type 0 where
  pub written : (p : String) (n : ℕ) (e : Option Error) (w : W) → (log p n e w).0 ≡ returns tt
  pub reads : (p : String) (n : ℕ) (e : Option Error) (w : W) → view (log p n e w).1 ≡ view w

-- What a call ends with is this outcome, and it shows what this state shows.
abbrev pub EndsAs : {W D A : Type 0} → (W → D) → Outcome A × W → Outcome A → W → Type 0
EndsAs view x o w = (x.0 ≡ o) × (view x.1 ≡ view w)

module _ {W D A : Type 0} {env : Env W} {log : Log W} {view : W → D} (clock : IsEnv env view)
    (writes : IsLog log view) (procedure : String) where
  report_ok :
      (start : ℕ) (a : A) (w : W)
      → EndsAs view (report env log procedure start (ok a) w) (returns a) w
  unfolding report ◌>>=◌
  report_ok start a w =
      rw ((clock.now w).1, writes.written _ _ _ _) (refl, writes.reads _ _ _ _ ∙ clock.now_reads w)

  report_err :
      (start : ℕ) (e : Error) (w : W)
      → EndsAs view (report {A = A} env log procedure start (err e) w) (fails e) w
  unfolding report ◌>>=◌
  report_err start e w =
      rw ((clock.now w).1, writes.written _ _ _ _) (refl, writes.reads _ _ _ _ ∙ clock.now_reads w)

  reported :
      (start : ℕ) (o : Outcome A) (w : W)
      → EndsAs view (continue (caught o) (report env log procedure start) w) o w
  reported start (returns a) w = report_ok start a w
  reported start (fails e) w = report_err start e w
  reported start panics w = (refl, refl)

  -- If the clock does not fail, and lines of the log are written and are not what the view
  -- shows, then the interceptor gives back what the call behind it gives back, a value, an error
  -- or a panic, and leaves what the call leaves.
  pub logging_interceptor_lem :
      (next : Exec W A) (w : W)
      → EndsAs view
          (logging_interceptor env log procedure next w)
          (next (env.now w).1).0
          (next (env.now w).1).1
  unfolding logging_interceptor ◌>>=◌
  logging_interceptor_lem next w =
      rw (clock.now w).1 (reported (clock.now w).0 (next (env.now w).1).0 (next (env.now w).1).1)
