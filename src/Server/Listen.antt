-- ===== src/Server/Listen.antt =====
-- server/server.go: the server that `NewServer` makes of the handlers, and `Run` and `RunSecure`. The server
-- of the package manners, with what it does to the world `W`, is an interface.
use dim.Prelude.{String, ◌≡◌, Option, List}
use dim.Prelude.Errors.{Result, ok}
use dim.Prelude.Exec.{Exec}
use dim.Types.{SearchResults, Info, Time}
use dim.Environment.{Context}
use dim.Server.Http.{Request, Response, HandlerFunc}
use dim.Server.Config.{Regexp, Config, Authorization}
use dim.Server.Middleware.{reject, refusal}
use dim.Server.Middleware.Laws.{IsRefused}
use dim.Server.Handlers.{
  RegistryIndex, Event, search, notify_image_change, version, serve, server_context,
}
use dim.Server.Handlers.Laws.{IsRouted, serve-refused}

-- `manners.GracefulServer`
pub record GracefulServer (W : Type 0) : Type 0 where
  pub listen_and_serve : Exec W (Unit {0})
  pub listen_and_serve_tls : (cert key : String) → Exec W (Unit {0})
  pub blocking_close : W → W

pub record Server (W S : Type 0) : Type 0 where
  pub graceful : GracefulServer W
  pub index : RegistryIndex S

abbrev pub DimHandlerFunc : Type 0 → Type 0
DimHandlerFunc S = RegistryIndex S → HandlerFunc S

unfoldable pub handler : {S : Type 0} → RegistryIndex S → DimHandlerFunc S → HandlerFunc S
handler i dhf r w s = dhf i r w s

module _ {W S : Type 0} where
  unfoldable pub run : Server W S → Exec W (Unit {0})
  run s = (s.graceful).listen_and_serve

  unfoldable pub run_secure : (cert_file key_file : String) → Server W S → Exec W (Unit {0})
  run_secure cert_file key_file s = (s.graceful).listen_and_serve_tls cert_file key_file

-- The coders of JSON, the clock when the server starts and when a request comes, and the printing of a
-- duration are parameters; so are what net/http does with a handler, and what its default mux has beside the handlers of this program.
module _ {R W S : Type 0} (rx : Regexp R) (sha256 : String → String)
    (marshal : SearchResults → Result String) (decode : String → Result (List Event))
    (start now : Time) (duration_string : Time → Time → String)
    (marshal_info : Info → Result String) (others : Request → Option (HandlerFunc S))
    (new_with_server : (addr : String) → HandlerFunc S → GracefulServer W) where
  unfoldable pub build_version_handler : Context → HandlerFunc S
  build_version_handler ctx = version now duration_string marshal_info ctx

  -- All requests of the server, with `forwards` of the proxy.
  unfoldable pub serve_mux :
      Config R → RegistryIndex S → Context → (forwards : HandlerFunc S) → HandlerFunc S
  serve_mux cfg index ctx forwards =
      serve rx sha256 cfg others (handler index (λ i. search i marshal))
        (handler index (λ i. notify_image_change i decode))
        (build_version_handler (server_context ctx start)) forwards

  unfoldable pub new_server :
      Config R → RegistryIndex S → Context → (forwards : HandlerFunc S) → Server W S
  new_server cfg index ctx forwards = record {
    graceful = new_with_server cfg.port (serve_mux cfg index ctx forwards);
    index = index;
  }

  -- A request that the rules refuse, and that the mux gives to a handler of this program, is answered 401
  -- and leaves the index and what is behind the proxy as they were.
  pub serve_mux-refused :
      (cfg : Config R) (index : RegistryIndex S) (ctx : Context) (forwards : HandlerFunc S)
      (r : Request) (w : Response) (s : S) (auth : Authorization R)
      → IsRouted others r
      → IsRefused rx sha256 cfg r auth
      → serve_mux cfg index ctx forwards r w s ≡ ok (reject (refusal auth) w, s)
  unfolding serve_mux
  serve_mux-refused cfg index ctx forwards r w s auth routed refused =
      serve-refused rx sha256 cfg others (handler index (λ i. search i marshal))
        (handler index (λ i. notify_image_change i decode))
        (build_version_handler (server_context ctx start)) forwards r w s auth routed refused
