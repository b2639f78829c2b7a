-- ===== src/Lib.antt =====
-- BTPS SDK: a protocol server for messages between identities of the form account$domain, over TLS
-- sockets, and what it is built on. This library models the server and its parts, and proves
-- what they promise.
--
-- The parts and their files, with the sources' paths from the repository's root:
--   Server: src/server/btpsServer.ts. A connection (Server.Connection: handleConnection) hands each
--     line to the pipeline (Server.Pipeline: executeRequestPipeline, processMessage,
--     handleOnSocketError), which runs middleware between its core checks: the signature
--     (Server.Signature: verifySignature, verifyDelegation, verifyAttestation,
--     verifyAgentSignature) and the trust (Server.TrustCheck: verifyTrust, verifyAgentTrust).
--     Server.World is the state that a request acts on: the socket, the responses written to it,
--     the trust store, and a log of what left the server; sendBtpsResponse, sendBtpsError and
--     executeMiddleware act on it. A middleware handler, a listener or the handler of forwardTo is
--     any function from the request and the world to a script of acts: the answers, the ends of the
--     socket, writes to the request's context (of a middleware handler only, since the others are
--     not given it) and to the store, and a throw at the end. The callback onError of the options is
--     a field of the parameter Surroundings; what it throws is passed on as the code passes it on.
--     Server.Invariant says what it is that the single acts keep a property of the world; Checked,
--     Single and Closing (with Triples, what it is to close the socket) are about three such
--     properties, and Delegation about what the checks of a delegation accept.
--     Server.Tasks is about lines that overlap: the same methods as tasks of turns (Server.Tasks,
--     Server.Tasks.Pipeline, Server.Tasks.Connection), and an event loop that chooses at each turn
--     what goes on (Server.Tasks.Schedule). Safety, Kept and Overlapping carry an invariant of the
--     single acts through any choices; Sealing, Shutting and Answered are about the end of a
--     connection; Alone, Sequential, Turns and Refinement compare with lines one after the other.
--     Server.Lifecycle is the construction of a server, its start and its stop.
--     Server.Defaults is the default middleware (src/server/libs/defaultMiddleware.ts) on a rate
--     limiter, as such handlers.
--   Middleware: src/server/libs/middlewareManager.ts. Loading (Middleware.Loading), validation,
--     order and selection of the middleware that the pipeline runs.
--   RateLimiter: src/server/libs/btpsSimpleRateLimiter.ts. Counters by key and their cleanup.
--   Trust: src/core/trust. Records, the decisions on them (Trust, Trust.Response), and the interface
--     of a trust store (Trust.Store: AbstractTrustStore), which is a parameter of the server.
--   Crypto: src/core/crypto/index.ts. Fingerprints, signing and verification. Node's primitives are
--     the fields of the parameter Platform.
--     Crypto.Encryption is the encryption of a document for its receiver, and Crypto.Documents
--     signEncrypt and decryptVerify (src/core/crypto/signEncrypt.ts, decryptVerify.ts); the ciphers
--     are the fields of the parameter Ciphers. RoundTrip and Exchange are about reading again what
--     was encrypted and signed, and Crypto.UserToken is generateUserToken.
--   Identity, Dns, Pem: src/core/utils/index.ts. Identities, what TXT records say of their keys, and
--     the text of a key.
--   Authentication: src/core/authentication. The stores of tokens and sessions in memory (Tokens,
--     Sessions), and the server's side of BtpsAuthentication (Agents, Agents.Exchange) over a trust
--     store and a token store: Tokens.Store is the interface of the latter, filled by the store in
--     memory. Login is its agent's side (authenticate, refreshSession), where what a command is
--     settled with is a parameter.
--   Trust.JsonStore: src/core/trust/storage/JsonTrustStore.ts. Trust records in a JSON file, whose text is
--     part of the state; JSON and what each call of the disk throws are the fields of the parameter
--     Disk. It fills the interface Trust.Store at any time.
--   Delegator: src/core/delegation/BtpsDelegator.ts. Delegations of messages, and in Delegator.Accepted
--     what the server's checks make of them.
--   Client: src/client. Client and Client.Connection are BtpsClient (btpsClient.ts) as a state and a
--     function on events: calls of its methods, answers, timers, and the events of its socket.
--     Client.Transporter and Client.Agent (btpsTransporter.ts, btpsAgent.ts) are the calls that wait
--     on a client. Client.Steps and Client.Invariant carry a property of the single writes through
--     a run; Retries, Stopped, Draining and Settling are about runs and steps, Payloads about
--     what is signed and sent.
--   Queue: src/core/server/helpers/InMemoryQueue.ts. Messages by identity.
--   Errors: src/core/error. Prelude, JsMap, Json, Text, Dates and Effects model what the source uses
--     of its language: maps in insertion order, JSON values, texts, dates as milliseconds, and
--     asynchronous methods as functions on a state that may throw, where a throw keeps the state.
--   Samples holds concrete instances of the parameters, and the modules named Tests run the code on
--     them.
--
-- Bounds: all definitions are total by structural recursion, so no fuel is used. Numbers are
-- naturals: times are milliseconds since 1970, counters stay far below 2 ^ 53.
--
-- Messages are values. A handler of the application that writes in place to a message which the
-- server holds too (the source hands out the same object), or that writes to the raw socket, is
-- outside the model. A listener of an event that is not awaited is a synchronous function.
-- toLowerCase is that of ASCII. The properties of a delegation that test whether a field is there
-- take an object as there and anything else as not, which is so for messages that the schema accepts.
--
-- Not modelled: the TLS layer and its options, random bytes (which are arguments), the schemas (the
-- tests of a message, a command and a response are parameters), key generation, the factories and
-- the registry of servers, and the metrics that the default middleware counts and prints. In
-- Server.Tasks, where lines overlap, a check of a signature or of trust, which asks the store once at
-- most, is one turn, the time of a line is that of its arrival, and a handler chooses its acts when
-- it starts; a listener of the client that waits for a lookup is taken as one step.
pub mod Prelude
pub mod JsMap
pub mod Errors
pub mod Effects
pub mod Dates
pub mod RateLimiter
pub mod Trust
pub mod Json
pub mod Middleware
pub mod Text
pub mod Identity
pub mod Dns
pub mod Pem
pub mod Crypto
pub mod Server
pub mod Authentication
pub mod Queue
pub mod Delegator
pub mod Client
pub mod Samples
pub mod Tests
