-- ===== src/Lib.antt =====
-- The HariKube API extension: an aggregated API server of Kubernetes that counts resources, commits
-- transactions, stores queries and forwards decisions, in front of a HariKube store that speaks the
-- protocol of etcd.
--
-- Parts and files, with paths from the root of the repository:
-- * Transaction (internal/apiserver/transaction.go). A transaction request is parsed, each of its
--   entries is authorized, mapped to a key and validated by a dry run, and the map of the entries is
--   committed under the transaction's key. Transaction.antt has decodeTransactionRequest,
--   parseTransactionAndNamespace and transactionStorageKey; Transaction/Authorize
--   transactionAuthorizeAll with its cache; Transaction/Resource transactionResourceMap,
--   validateAndDefaultTransactionResource and transactionResourceAPIPath; Transaction/Handler the
--   commit and the CreateHandler. The other files below Transaction hold what is proved of these.
-- * Decision (internal/apiserver/decision.go). Decision.antt has decodeDecisionRequest and the two
--   normalisations; Decision/Handler invokeDecisionMakerHTTP and the CreateHandler.
-- * Count (internal/apiserver/count.go). Count.antt has the field selectors and the kind; Count/Handler
--   the ListHandler.
-- * Query (internal/apiserver/query.go) and Helper (internal/apiserver/helper.go): the CreateHandler of
--   queries, and what the handlers share.
-- * Server (internal/apiserver/server.go). Server.antt has the API group and clientConfig;
--   Server/Start has New, the kinds that are registered and Start with its deferred calls;
--   Server/Serving the four handlers as one server that takes a sequence of calls.
--   Server/Replies has the statuses that each handler may answer, Server/Queries what other calls do to a
--   stored query.
-- * Cmd (cmd/main.go). Cmd.antt has the lists and the files of the flags; Cmd/Main the flags, the
--   options of the servers and main up to the start of the manager.
-- * Samples (config/samples/defaulting-webhook-sensitive-source.go and
--   config/samples/validation-webhook-sensitive-source.go). Samples.antt has what the two share, the
--   request that they send and how they read the answer; Samples/Defaulting the patch,
--   Samples/Validation the admission response. Samples/Pointer says what a JSON patch means, after
--   RFC 6901 and RFC 6902.
-- * Api (api/v1): Api.antt has the types of the responses, Api/Requests those of the requests and the
--   JSON objects that their tags give.
-- * Kube, Http, Text and Value stand for what the code calls: Kubernetes, etcd, net/http, strings and
--   the values of type interface{}; Value/Yaml says what the YAML decoder makes of a document, and is used
--   in hypotheses on it only. Prelude has shared helpers, and Tests the concrete examples.
--
-- State. All that is outside the process, and the discovery cache, is a type World that the model
-- does not look into. A call of discovery, of an access review, of the store, of HTTP or of the
-- clock is a field of the record Backend, from a world to a result and a world; a handler runs them
-- in the order of the code and returns its reply with the last world. What the theorems need of the
-- store is the record Store (Kube/Store): a commit writes its own key and only if that is free, a
-- dry run and the reads persist nothing, a put writes its own key. The encoders are the record
-- Codec, of which a theorem assumes only what it says. Kube/Reached has the worlds that calls
-- without a commit or a put lead to, which ties what a theorem says of an answer to the run of the
-- handler. Tests/World has an instance of each record. Kube/Audit notes the access reviews that a
-- backend is asked for. Kube/Interference lets other clients take a step before each call of a
-- handler, where a step is any function on worlds; the theorems of Server/Sharing ask of the steps
-- that they keep the record in question. Elsewhere nobody else acts while a handler runs. What is
-- proved of a sequence of calls also asks that the call of the decision maker does not write to the
-- store. Transaction/Ledger has the abstract view of the store, in which a request enters at most
-- one new record.
--
-- Start and main do little but call libraries. There a world is the list of the calls made so far, the
-- last one first, and what a call answers is any function of that list: the records Host
-- (Server/Start) and Platform (Cmd/Main). So a theorem on such a list holds for every behaviour of the
-- libraries and of the system. Server/Cleanup reads the list as the run of a small state machine of the
-- socket.
--
-- Data. A Go string is its sequence of code points; one that is not valid UTF-8 is not modelled. A Go
-- map is a list of entries in the order in which a loop meets them, and the theorems are for every such
-- order. Numbers have no bound: the counts and revisions of the store are only printed. Loops are
-- structural recursion, but for the digits of a number: `decimal` has fuel n + 1 for a number n, and any
-- fuel above n gives the same digits (decimal_from-fuel of Text/Laws).
--
-- Not modelled: the deadlines of the contexts, log messages and warnings; the order of the query
-- parameters in the URL of a dry run; the time limits and sizes of the etcd client; how the library
-- that serves turns an HTTP request into a call of a handler; how the command line is parsed; the
-- type Query and the lists of api/v1, generated code, and the code of tests.
pub mod Prelude
pub mod Text
pub mod Value
pub mod Http
pub mod Api
pub mod Kube
pub mod Helper
pub mod Transaction
pub mod Query
pub mod Count
pub mod Decision
pub mod Cmd
pub mod Server
pub mod Samples
pub mod Tests
