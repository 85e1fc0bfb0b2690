-- ===== src/Server/Http.antt =====
-- What the HTTP server of cmd/server/main.go serves, and the goroutine that runs it.
use truthmetal.Base.{ℕ, String, Option, none, some, List, [], ◌∷◌}
use truthmetal.Exec.{Exec, pure, ignore, ◌>>=◌, ◌>>◌}
use truthmetal.Rpc.{Connect, ServiceHandler, Schemas, new_service_handler}

-- `http.ResponseWriter`; `Write` returns how many bytes it wrote.
pub record ResponseWriter (W : Type 0) : Type 0 where
  pub write_header : ℕ → Exec W (Unit {0})
  pub write : String → Exec W ℕ

module _ {W : Type 0} where
  -- The handler of `/healthz`, which does not read its request.
  unfoldable pub healthz : ResponseWriter W → Exec W (Unit {0})
  healthz writer = do writer.write_header 200; ignore (writer.write "ok")

-- What `ListenAndServe` ends with: `http.ErrServerClosed`, or another error with its message.
pub data ListenEnd : Type 0 where
  server_closed : ListenEnd
  listen_failed : String → ListenEnd

-- The error that is logged, if there is one.
abbrev pub listen_error : ListenEnd → Option String
listen_error server_closed = none
listen_error (listen_failed m) = some m

module _ {W : Type 0} (log_info log_error : String → Exec W (Unit {0}))
    (listen_and_serve : Exec W ListenEnd) where
  report_end : Option String → Exec W (Unit {0})
  report_end none = pure tt
  report_end (some m) = log_error m

  -- The goroutine: it ends with the server, and logs an error, which `run` does not see.
  unfoldable pub listen : String → Exec W (Unit {0})
  unfolding report_end
  listen addr = do log_info addr; end ← listen_and_serve; report_end (listen_error end)

module _ {S Stream HttpRequest HttpReply : Type 0}
    (connect : Connect S Stream HttpRequest HttpReply) where
  -- The patterns of the `http.ServeMux` with their handlers; `health` is `healthz` as a handler.
  unfoldable pub mounts :
      Schemas connect
      → ServiceHandler S Stream
      → (HttpRequest → S → HttpReply × S)
      → List (String × (HttpRequest → S → HttpReply × S))
  mounts methods svc health = new_service_handler connect methods svc ∷ ("/healthz", health) ∷ []
