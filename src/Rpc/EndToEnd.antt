-- ===== src/Rpc/EndToEnd.antt =====
-- A client of the service of internal/api.
use truthmetal.Base.{String}
use truthmetal.Exec.{IsEnv}
use truthmetal.Store.Db.{Db}
use truthmetal.Store.Contract.{IsStore}
use truthmetal.Store.Writable.{IsWritable}
use truthmetal.Cache.{IsApart}
use truthmetal.Ledger.{Process, Service}
use truthmetal.Api.{Handler}
use truthmetal.Api.Messages.{WatchRequest}
use truthmetal.Rpc.{
  Connect, ServiceHandler, Schemas, new_service_client, client_methods, new_service_handler,
  api_server,
}
use truthmetal.Rpc.Laws.{Carries, Mounted}

module _ {W Doc : Type 0} (svc : Service W Doc) where
  module _ {view : W → Db} (contract : IsStore svc.store view) (clock : IsEnv svc.env view)
      (apart : IsApart svc.cache.client view) (writable : IsWritable svc.store)
      {Stream HttpRequest HttpReply : Type 0}
      (connect : Connect (Process W) Stream HttpRequest HttpReply) (carries : Carries connect)
      (methods : Schemas connect) (watch : WatchRequest → Handler (Process W) Stream)
      (transport : HttpRequest → Process W → HttpReply × Process W) (base_url : String)
      (mounted : Mounted connect transport
        (connect.trim_right base_url)
        (new_service_handler connect methods (api_server svc watch))) where
    -- The methods of a client for the base URL.
    abbrev pub client : ServiceHandler (Process W) Stream
    client = client_methods connect (new_service_client connect methods transport base_url)
