-- ===== src/Server/Serving.antt =====
-- internal/apiserver/server.go: the four kinds that Start registers, as the calls of one server.
use api_extension.Prelude.{List, [], ◌∷◌}
use api_extension.Text.{Text}
use api_extension.Http.{Request, Reply}
use api_extension.Kube.{Backend, Codec, RestClient}
use api_extension.Transaction.Handler
use api_extension.Transaction.Handler.{sent}
use api_extension.Query
use api_extension.Count.Handler.{list_handler}
use api_extension.Decision.Handler as Decisions

-- A call of a registered handler: a create, with the namespace and the name of the call, or a list.
-- Which call an HTTP request makes is up to the library that serves.
pub data Call : Type 0 where
  transaction query decision : Text → Text → Request → Call
  count : Text → Request → Call

module _ {World : Type 0} (env : Backend World) (codec : Codec) (client : RestClient)
    (core : List Text) (url : Text) where
  -- What the handlers made by getTransactionHandler, getQueryHandler, getDecisionHandler and
  -- getCountHandler do; all four share the clients and the core resources of Start.
  unfoldable pub serve : Call → World → Reply × World
  serve (transaction namespace name r) w =
      Handler.create_handler env codec client core namespace name r w
  serve (query namespace name r) w =
      let (reply, w') = Query.create_handler env codec namespace name r w in (sent reply, w')
  serve (decision namespace name r) w =
      let (reply, w') = Decisions.create_handler env codec url namespace name r w in
      (sent reply, w')
  serve (count namespace r) w =
      let (reply, w') = list_handler env codec core namespace r w in (sent reply, w')

  -- The world after a sequence of calls.
  unfoldable pub serve_all : List Call → World → World
  serve_all [] w = w
  serve_all (call ∷ calls) w = serve_all calls (serve call w).1
