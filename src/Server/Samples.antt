-- ===== src/Server/Samples.antt =====
-- A platform that counts what is open, and whose migrations fail, and one that serves.
use truthmetal.Base.{ℕ, suc, ◌-◌, String, Bool, true, false, ◌≡◌, refl, ◌⊎◌, []}
use truthmetal.Exec.{not_found, other, returns, fails, Exec}
use truthmetal.Model.{Parameter}
use truthmetal.Memory.{World, memory_store, memory_env}
use truthmetal.Memory.Contract.{shows, memory_env-IsEnv}
use truthmetal.Server.{Platform, applied, run}
use truthmetal.Server.Startup.{Quiet, Phases, run-Guarded}
use truthmetal.Server.Logging.{Log, IsLog, EndsAs, logging_interceptor, logging_interceptor_lem}
use truthmetal.Server.Resources.{Counts, run_closes}

abbrev counting : Platform ℕ
counting = record {
  new_pool = λ url n. (returns 1, suc n);
  ping_pool = λ h n. (returns tt, n);
  close_pool = λ h n. (returns tt, n - 1);
  new_migration = λ path url n. (returns 1, n);
  up = λ m n. (fails (other "dirty database version 1"), n);
  parse_url = λ url. returns url;
  new_client = λ url n. (returns 2, suc n);
  ping_client = λ h n. (returns tt, n);
  close_client = λ h n. (returns tt, n - 1);
  start = λ addr p c n. (returns tt, n);
  wait = λ n. (returns tt, n);
  with_timeout = λ seconds n. (returns 3, suc n);
  cancel = λ c n. (returns tt, n - 1);
  shutdown = λ c n. (returns tt, n);
}

counting-Counts : Counts counting (λ n. n)
counting-Counts = record {
  new_pool = λ url n. refl;
  new_client = λ url n. refl;
  close_pool = λ h n. refl;
  close_client = λ h n. refl;
  ping_pool = λ h n. refl;
  ping_client = λ h n. refl;
  new_migration = λ path url n. refl;
  up = λ m n. refl;
  start = λ addr p c n. refl;
  wait = λ n. refl;
  with_timeout = λ seconds n. refl;
  cancel = λ c n. refl;
  shutdown = λ c n. refl;
}

-- No variable is set.
abbrev unset : String → String
unset name = ""

run_closes_example : (run counting unset 0).1 ≡ 0
run_closes_example = run_closes counting counting-Counts unset 0

-- How many servers were started, and whether the database is migrated.
abbrev Progress : Type 0
Progress = ℕ × Bool

abbrev serving : Platform Progress
serving = record {
  new_pool = λ url w. (returns 1, w);
  ping_pool = λ h w. (returns tt, w);
  close_pool = λ h w. (returns tt, w);
  new_migration = λ path url w. (returns 1, w);
  up = λ m w. (returns applied, (w.0, true));
  parse_url = λ url. returns url;
  new_client = λ url w. (returns 2, w);
  ping_client = λ h w. (returns tt, w);
  close_client = λ h w. (returns tt, w);
  start = λ addr p c w. (returns tt, (suc w.0, w.1));
  wait = λ w. (returns tt, w);
  with_timeout = λ seconds w. (returns 3, w);
  cancel = λ c w. (returns tt, w);
  shutdown = λ c w. (returns tt, w);
}

abbrev started : Progress → ℕ
started w = w.0

abbrev Migrated : Progress → Type 0
Migrated w = w.1 ≡ true

-- A call that leaves all as it is.
idle : {A : Type 0} (a : A) → Quiet {W = Progress} started Migrated (λ w. (returns a, w))
idle a = record { starts_none = record { at = λ w. refl }; stays = record { at = λ w h. h } }

serving-Phases : Phases started Migrated serving
serving-Phases = record {
  new_pool = λ url. idle 1;
  ping_pool = λ h. idle tt;
  close_pool = λ h. idle tt;
  new_migration = λ path url. idle 1;
  up = λ m. record { starts_none = record { at = λ w. refl }; stays = record { at = λ w h. refl } };
  new_client = λ url. idle 2;
  ping_client = λ h. idle tt;
  close_client = λ h. idle tt;
  wait = idle tt;
  with_timeout = λ seconds. idle 3;
  cancel = λ c. idle tt;
  shutdown = λ c. idle tt;
  start = λ addr p c w h. h;
  up_done = λ m w u e. refl;
}

run-Guarded_example :
    (started (run serving unset (0, false)).1 ≡ 0) ⊎ Migrated (run serving unset (0, false)).1
run-Guarded_example = run-Guarded started Migrated serving-Phases unset (0, false)

-- A log that is thrown away.
abbrev unread : Log World
unread procedure ms e w = (returns tt, w)

unread-IsLog : IsLog unread shows
unread-IsLog = record { written = λ p n e w. refl; reads = λ p n e w. refl }

-- A lookup of a key that is not there.
abbrev lookup : Exec World Parameter
lookup = memory_store.get_parameter "risk" "limit"

abbrev empty : World
empty = record { db = record { parameters = []; events = [] }; clock = 2 }

logging_interceptor_lem_example :
    EndsAs shows
      (logging_interceptor memory_env unread "/truthmetal.v1.TruthMetalService/Get" lookup empty)
      (fails (not_found "parameter"))
      (lookup (record empty { clock = 3 })).1
logging_interceptor_lem_example =
    logging_interceptor_lem memory_env-IsEnv unread-IsLog "/truthmetal.v1.TruthMetalService/Get"
      lookup empty
