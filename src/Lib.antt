-- ===== src/Lib.antt =====
-- go-forward-proxy: a server that keeps a table of proxies and runs, for each row, a forwarding
-- proxy on a port of its own, which dials through the upstream that the row names.
--
-- The program has these parts. cmd/server/main.go loads the configuration, opens the database,
-- makes the manager and the service of auto-reset, and starts the API. A request of the API calls
-- the manager, which asks a proxy service (TMProxy or KiotProxy) for an upstream, writes the row
-- and creates, switches or stops the instance of the proxy. The service of auto-reset reads the
-- table at every tick, asks the proxy service for a new upstream where a proxy is due, writes the
-- row, and has the manager switch the instance.
--
-- Where each part is modelled:
--   * Base: shared names; Int (int64 and uint of Go), Result (results with an error message, and
--     actions that keep what was written before an error), Dict (a Go map as an association list),
--     Text (strings.Split and strings.Join), Decimal (strconv.Atoi and the printing of numbers).
--   * Services: internal/proxyservices. Interface is interface.go, TmProxy and KiotProxy are the
--     clients; Http is what they use of net/http, encoding/json and time.
--   * Config: internal/config/config.go. Database: internal/database, with the row of the table.
--   * World: the calls that the manager makes and the repository does not implement, or takes from
--     the embedded library pkg/dumbproxy. World/Sqlite states what the statements do to the table.
--   * Instance: internal/proxymanager/instance.go; ParseProxyStr is parseProxyStr.
--   * Manager: internal/proxymanager/manager.go. AutoReset: internal/proxymanager/autoreset.go.
--   * Api: internal/api/handlers and internal/api/middleware; Api/Router is internal/api/router.go.
--   * Program: the start and the end of cmd/server/main.go.
--   * Dumbproxy: pkg/dumbproxy, the forwarding proxy that runs on the port of an instance. Http and
--     Query are what it uses of net/http and net/url, Calls its calls of other packages. Auth is
--     auth/auth.go over its providers: Auth/Basic (static.go, basic.go, file.go), Auth/Hmac (hmac.go,
--     and hmacSign of util.go), Auth/Redis, Auth/Reject (rejectstatic.go, rejecthttp.go, noauth.go),
--     Auth/Cert and Auth/Serial (cert.go); Auth/Credentials is common.go, with what the providers
--     repeat. Handler is handler/handler.go, with Handler/Tunnel, Handler/Fetch, Handler/Headers and
--     Handler/Pending (proxy.go), Handler/Socks (socks.go), Handler/Adapters (adapter.go) and
--     Handler/Streams (streamhandler.go, streamserver.go, stdio.go). Forward is forward/direct.go and
--     Forward/Limit forward/bwlimit.go. Of dialer, Dialers/Upstream is upstream.go, with its theorems in
--     Upstream/Laws and Upstream/Head, Dialers/Optimistic
--     optimistic.go, Dialers/Resolve resolve.go, Dialers/Cached rescache.go, Dialers/Hints
--     hintdialer.go, Dialers/Tree fixed.go, chain.go, protect.go and constructors of dialer.go, and
--     Dialers/Wrapped and Dialers/Garbage other functions of dialer.go. Access is access/access.go,
--     access/dst.go and dialer/filter.go, Resolver is resolver/prefer.go, with Resolver/Fast (fast.go)
--     and Resolver/Factory (factory.go). CertCache is certcache: local.go, cryptobox.go and, with
--     CertCache/Server, redis.go. Serving puts the providers of Auth and the handler into the
--     instances of the manager; Manager/Guards and AutoReset/Guards follow them through the program.
--   * Tests: a table, services and dialers as concrete functions, runs of the program, and the
--     examples of the theorems.
-- A method `DoThis` of the source is `do_this` here, and an action on the record of its receiver. A
-- local step of a method has a name of its own where it branches.
--
-- Numbers: an `int` is an integer, wrapped to 64 bits where the source computes with it; ids are
-- natural numbers, and `uint` wraps them. A time is its nanoseconds, a duration an int64 of them.
-- float64 is a parameter, with the laws that the comparison of seconds needs. Each loop of the
-- source goes over a list, a text or the events that it receives. The printing of a number and the
-- bytes of one run on fuel, and the number is enough, as each round divides it. NewAuth, which calls
-- itself for a URL inside of a URL, runs on a number of levels, and the length of the URL is enough.
-- FromURL of the resolvers has rounds, of which two are enough, and the limited copy has one round
-- for each chunk and one more. What waits for a connection that never answers has no result.
--
-- Locks: a method that holds the manager's lock is one step. AutoReset/Steps has the steps of the
-- whole program, where a reset, which takes no lock while it waits, is several.
-- Dumbproxy/Handler/OpenTunnels has the steps of the map that the requests to one handler share,
-- with no premise on the local addresses that connections get,
-- Dumbproxy/Forward/Limit/Shared those of the limiters that tunnels share, and
-- Dumbproxy/Dialers/Wrapped those of a dial and the end of its context.
--
-- What the parameters promise: a statement that succeeds has its documented effect on the table, one
-- that fails changes nothing, and a row is inserted under an id that no row has (World/Sqlite).
-- Nothing is assumed of the services, the dialers and the network. For Dumbproxy, the records of laws
-- beside the theorems name what the packages promise: that a plain text is its own escape
-- (Auth/Plain), that texts get no longer when they are unescaped (Auth/Sizes), that base64 is read
-- as it was written, that a MAC has 32 bytes (Auth/Hmac/Token), that a limiter counts its tokens
-- (Forward/Limit/Paid), that a seal opens to what was sealed (CertCache/Laws), and that caches keep what is
-- valid (Forward/Limit/Counts, Dialers/Cached). Of bcrypt it is said only that it takes a password
-- for the hash that it made of it (Auth/Plain); which other passwords it takes is left open.
--
-- Not modelled: of pkg/dumbproxy the scripts, TLS, the dialers over HTTP/2 and to
-- other processes, and main.go, the command line of another program; rate/rate.go and
-- h2_client_conn_pool.go are copies of other libraries. To the manager, NewAuth and
-- ProxyDialerFromURL are calls with any result; Serving puts the modelled NewAuth in. Of the server,
-- the framework echo, the logs, the goroutines that serve, and the API's own listening are left out.
pub mod Base
pub mod Services
pub mod Config
pub mod Database
pub mod World
pub mod Instance
pub mod Manager
pub mod AutoReset
pub mod Api
pub mod Program
pub mod Dumbproxy
pub mod Tests
