-- ===== src/Lib.antt =====
-- Forager is an agent inside a customer's network. It holds a websocket to a relay, receives JSON
-- messages, checks their signature, and carries them out through one proxy per datasource; a config
-- push says which datasources there are. This library models the parts that decide what is done with
-- a message, and what is reported back.
--
-- The parts and their files:
--   Signing           pkg/signing/verify.go and sign.go. `Window` is the check of the stamp, `Nonces`
--                     checkAndRecordNonce, `Verifier` Verify with verifyPayloadMatchesMessage, and
--                     `Signer` Sign. `Binding`, `Resealed` and `Replay` hold what the checks give.
--   Errors            pkg/proxy/errors.go: IsIntegrationError and RedactError.
--   Registry          pkg/proxy/registry.go: the state and its operations; `Registry.Health` is
--                     HealthReport, with `Op` for the operations that other goroutines run while
--                     a check is under way; `Consistent` and `Successes` follow its maps, `Entries`
--                     and `Reports` what it shows.
--   Client            pkg/ws/client.go: reconnectWait, the loop of Run, Send.
--   Secrets           pkg/secrets/manager.go (Resolve and its cache) and cloud_push.go (the store of
--                     pushed credentials and its file).
--   Values            normalizeConfigValues of pkg/ws/handler.go, on the JSON values of a config.
--   Discovery         pkg/proxy/discovery. `SshAccess` is ssh_access.go; `Sweep` expandCIDRs of
--                     sweep.go, and `Params` its parseSweepParams; `When` is when.go, `Facts` facts.go,
--                     `Pack` pack.go, `Executor` executor.go without the SSH session; `Proxy` has the
--                     scope, the plan of a sweep and the cache of packs of proxy.go, with `History`
--                     for what Configure and Close do to that cache, and `Inventory` its
--                     handleInventory with runInventory.
--   Ssh               pkg/proxy/ssh/proxy.go: configuration, allowed hosts, `close_all`; `Pool` is
--                     getClient, getPooledClient, eviction and expiry, `Requests` the four actions,
--                     `Locks` the order in which `mu` and `poolMu` are taken. `Ledger`, `Tidy`,
--                     `Connections` and `Ops` follow every connection through them.
--   Http              pkg/proxy/http/proxy.go: configuration and redirects; `Target` is
--                     resolveTargetURL, `Headers` the copied headers and injectAuthWith, `Response`
--                     the cap, `Requests` HandleRequest and HealthCheck.
--   Mcp               pkg/proxy/mcp/session.go and proxy.go: what each hold of sessionMu does;
--                     `Threads` puts requests (handleWithSession), sweeps and Close together as a step
--                     relation; `Owned`, `Isolated`, `Reached` and `Closed` follow the sessions
--                     through it, and `Ends` a request. `Tokens` is getOAuthToken, `Events` parseSSE.
--   Handler           pkg/ws/handler.go: `Requests` is handleRequest and handleLegacyRequest, `Sync`
--                     handleConfigSync and handleTestDatasourceConfig, `Dispatch` HandleMessage.
--                     `Pushed` has the identifiers of a push, `HttpProxies` the http proxies.
--                     `Pushed` has the identifiers of a push, `HttpProxies` the http proxies.
--                     `Pushed` has the identifiers of a push, `HttpProxies` the http proxies.
--   Prelude           Boolean tests, lists, maps, bytes, the int64 difference of times, results.
--   Tests             runs of the definitions on concrete inputs.
-- The handler's `State` holds the registry, the verifier, the pushed credentials and the secret
-- manager; an operation takes the state and gives the next one with the reply. `calls` lists what
-- proxies were asked to do.
--
-- Code outside the repository is a parameter: encoding/json, time.Parse, base64, Ed25519 and AES-GCM
-- (`Codecs`, `SignerCodecs`, `StoreCodecs`), the regular expressions (`Regexps`), math/rand, the
-- clock (`Readings`, `now`), the disk, the provider's GetSecret and the proxy modules behind the
-- interface proxy.Proxy (`World`). The JSON value of a message is what its decoder gives for one of
-- the source's structs; a decoder that fails gives none or an error. So do yaml.v3 (`PackCodecs`),
-- the packages net and net/netip (`Net`, `Netip`), the SSH connection to a host (`Host`), the SSH and
-- SFTP clients of the SSH proxy (`SshLib`, `Remote`, `Sessions`), and net/url, crypto/tls and the
-- exchange with an upstream (`HttpLib`, `Upstream`). The MCP server is the choices of a step: each id
-- of a session that it gives is a new one.
--
-- Times are nanoseconds since an epoch, as ℕ; the difference of two saturates as time.Time.Sub does,
-- and its negation wraps at the least int64. A Go map is an association list: `insert` replaces, and
-- a loop over it runs in the list's order, which no result depends on. Error texts and what is cut
-- out of them are lists of bytes. A log line is left out. All loops are structural: over the list,
-- over the attempts, or over the addresses of a prefix that are left, so no fuel is needed.
--
-- Not modelled: the websocket's loops and the messages they build; the parsing of keys; the proxies
-- behind proxy.Proxy for databases, Redis, MongoDB and Kafka, the service map of the HTTP proxy, and
-- the bodies, headers and stdio transport of the MCP proxy; the LDAP queries of discovery; the SDKs
-- of the secret providers; the command line and the configuration file. The operations of the SSH
-- proxy run one after the other, but for `Locks`. The worker pool of HealthReport is a sequence of
-- checks, each with the operations that ran before its result is taken under the registry's lock.
mod Prelude
pub mod Signing
pub mod Errors
pub mod Registry
pub mod Ssh
pub mod Http
pub mod Mcp
pub mod Client
pub mod Secrets
pub mod Values
pub mod Discovery
pub mod Handler
mod Tests
