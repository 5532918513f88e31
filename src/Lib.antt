-- ===== src/Lib.antt =====
-- dev.site: a control plane (crates/devsite-server) keeps accounts, the resources they host and who
-- may see them, and signs short-lived capabilities; a daemon (crates/devsite-daemon) on the owner's
-- machine takes a capability from a peer whose key the connection authenticates, checks it without
-- asking anyone, and forwards the stream to a local service; crates/devsite-proto is what both speak.
--
-- The parts, and the files that model them:
--   Proto/Crypto        what is taken from other crates: Ed25519, postcard, text encodings, as
--                       records of functions with the laws that their documentation states
--   Proto/Capability    crates/devsite-proto/src/capability.rs: `sign`, `verify`, `verify_for`
--   Proto/Wire          crates/devsite-proto/src/wire.rs: `encode`, `frame_len`, `decode`, and
--                       `read_frame`, the reading side of the daemon's `handle_stream` and of the
--                       client's `request_stream`
--   Proto/Message       crates/devsite-proto/src/lib.rs: the statements that endpoints sign
--   Proto/Id            crates/devsite-proto/src/id.rs: `to_string` and `from_str` of an identifier
--   Proto/AccessPlan    crates/devsite-proto/src/access_plan.rs: approval tokens
--   Daemon/Verify       crates/devsite-daemon/src/verify.rs: `authorize` and its replay guard;
--                       Verify/Laws is one request, Verify/Replay a history of them
--   Daemon/Config       crates/devsite-daemon/src/config.rs: the hosted services and `targets`
--   Daemon/Streams      crates/devsite-daemon/src/lib.rs: the open streams. `receive_against`,
--                       `open_stream` and `finish` are the phases of `handle_stream`, and
--                       `configure` and `drop_unserved` those of `replace_resources`, one for each
--                       lock; `receive` and `replace_resources` are these with nothing in between.
--                       Streams/Table is the table, Streams/Laws one operation, and Streams/Step
--                       the tasks of the daemon in any order, as a step relation in which a request
--                       may be decided against services that were read before a change of them
--   Client              crates/devsite-client/src/lib.rs: `request_stream`
--   Server/Policy       crates/devsite-server/src/policy.rs: `can_view`
--   Server/Auth         crates/devsite-server/src/auth.rs: `validate_handle`
--   Server/RateLimits   crates/devsite-server/src/api.rs: `RateLimits::check`
--   Server/Db           crates/devsite-server/src/db.rs: the tables as lists of rows. Db/Shares is
--                       who is invited and who accepted, Db/Resources the resources and the list
--                       that daemons ask for, Db/Tickets the single-use tokens and the sessions,
--                       Db/Machines the credentials of machines and their enrollment, Db/Accounts
--                       the accounts, their identities at login providers, and their profiles
--                       Db/Listings the lists that owners, recipients and brokers are shown
--   Server/Env          what the server takes from other crates, as one record of parameters, and
--                       the identifiers that handlers read from texts
--   Server/Issuer       crates/devsite-server/src/issuer.rs: `issue`, and the approval tokens
--   Server/Relay        crates/devsite-iroh/src/lib.rs: `RelayConfig`
--   Server/Theme        crates/devsite-server/src/theme.rs: `parse` and `to_css`; Theme/Names is the
--                       table of properties and colours, Theme/Values the grammars of the values
--   Server/Api          crates/devsite-server/src/api.rs: the state that handlers share, the steps
--                       that they are made of, and who a request acts for. Api/Checks holds the
--                       checks of what a request brings, Api/Plan `build_resource_plan`, and
--                       Api/Resources, Api/Profile, Api/Machines, Api/Grants and Api/Tunnels the
--                       handlers; Api/Steps, Api/Outcomes and Api/Identity are lemmas on the steps
--   Samples, Tests      concrete instances of the parameters, and runs of the definitions;
--                       Samples/World is a small control plane in which the handlers are run
--   Prelude             Boolean tests, lists, words, association lists, results
--
-- A capability ties the parts together: a browser asks the server for a ticket with
-- `create_connection_ticket`, a client turns it into a tunnel session with
-- `redeem_connection_ticket`, and `tunnel_capability` signs claims for that session with
-- `Capability.sign`. The client puts the token in a `Wire.Request`, and the daemon's `receive` reads
-- the frame and calls `authorize`, which calls `verify_for`. The list of `service_authorizations`
-- becomes the argument of the daemon's `replace_authorizations`.
--
-- A handler is a function from the state of the server to a state and a result; what it did before an
-- error stays done. The successive readings of the clock in one request are the fields of `Clock`,
-- and generated tokens, identifiers and nonces are arguments. An error keeps its status and not its
-- message, and an error of the database, such as a violated constraint, is `internal`.
--
-- Numbers are natural numbers. Times are `u64`: `saturating_add` is written with its bound, and the
-- clock plus a fixed lifetime, which leaves the range only near 2^64 seconds, without one; stream ids wrap at 2^64, and the step relation
-- opens a stream only while the next id is below that; a length is cut to 32 or 64 bits where the
-- source casts it. Keys, identifiers, nonces and token hashes, which the code only compares, are the
-- numbers that their bytes spell. Every function is structurally recursive, and none needs fuel.
--
-- A hash map is an association list, and no operation modelled here depends on its order. SQLite is
-- read statement by statement, as Server/Db says. What a lock protects is one step; a handler of
-- the server is run from its first lock to its last with no other request in between.
--
-- Not modelled: networking (most of crates/devsite-iroh, the endpoints of crates/devsite-client, the
-- accept loop and the copying of bytes in the daemon), files, locks and JSON, the routing of HTTP and
-- the rendering of HTML in crates/devsite-server/src/api.rs and main.rs, oidc.rs, the key file of
-- issuer.rs, the error messages of theme.rs, the random tokens of auth.rs, the lists of credentials
-- and invitations that are only for display, the command line (crates/devsite-cli), and the browser's
-- code. They are input and output, or calls of libraries.
pub mod Prelude
pub mod Proto
pub mod Daemon
pub mod Client
pub mod Server
pub mod Samples
pub mod Tests
