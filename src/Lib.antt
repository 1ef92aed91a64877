-- ===== src/Lib.antt =====
-- A model of pia-tun, a client for Private Internet Access over WireGuard that runs in a container
-- behind a killswitch, and of what makes it safe: no packet leaves but by rules that are meant.
--
-- The parts. `internal/app` builds the firewall, then connects: `internal/vpn` gets a token and the
-- list of servers through `internal/pia`, keeps both in the cache of `internal/cacher`, resolves names
-- by `internal/dns`, races the candidates, registers a key and brings the tunnel of `internal/wg` up.
-- For every packet that it sends outside of the tunnel it asks `internal/firewall` for an exemption and
-- removes it at once. `internal/dns` also has a proxy for DNS over TLS. Then services run until one
-- asks for a new connection: `internal/monitor` checks the tunnel, the cacher refreshes, and
-- `internal/portforward` keeps a port open, which `internal/portsync` passes on to a torrent client. On
-- an error for which a new connection is no help the program ends with the killswitch in place.
--
-- Which file models which part:
--   Base             names shared by all, texts as bytes, results and code that fails and changes a
--                    state (`M`), with `Keeps` and `Ensures` for what such code keeps and gives;
--                    `Sentinel` is internal/apperrors/errors.go; Base/Outcomes has `Leaves`, for what code
--                    leaves on success and on an error
--   Firewall/Os      iptables, `iptables -S` and the `ip` command: parameters, with their documented
--                    behaviour as the record `Netfilter`; `Chain` and `Key` name the chains
--   Firewall/Chains, Exemptions, LocalNetworks, Killswitch
--                    internal/firewall/chains.go, vpnrules.go, localnetworks.go, and the rest: one
--                    function per method, `setup_baseline_chains` for `setupBaselineChains` and so on;
--                    `build_killswitch` is `Setup` but for the last assignment
--   Firewall/Backend internal/firewall/firewall.go: `New` with the choice of nft or legacy
--   Firewall/Closed, Policy
--                    the property of the rules that the killswitch is for, and the rules that it allows
--   Firewall/Simulated
--                    a system that behaves as `Netfilter` says, on which the tests run
--   Pia/Types, Client, JsonEnd
--                    internal/pia/types.go and client.go: `generate_token`, `add_key`, `find_json_end`;
--                    net/http and encoding/json are the record `Web`
--   Cacher/Merge, Cache
--                    internal/cacher/cacher.go: `mergeIPs`, `MergeServers`, the other methods of the
--                    cache, `refreshAll`, and what `Run` does at a tick
--   Cacher/TokenFile `New` and `readTokenFile`
--   Host             commands, files, the clock, DNS look-ups and the race's dials: parameters;
--                    Simulated is one whose calls succeed
--   Dns/Resolver, Proxy, Resolv
--                    internal/dns/resolver.go, proxy.go and resolv.go; `framed` is what `writeMsg` writes
--   Wg/Tunnel        internal/wg/wg.go: `up`, `down` and what they call
--   Vpn/Servers, Login, Choice, Setup
--                    internal/vpn/servers.go and setup.go
--   Vpn/Verify       internal/vpn/verify.go
--   Monitor/Checks   internal/monitor/monitor.go
--   Wan              internal/wan/wan.go
--   Portforward/Payload, Client, Manager
--                    internal/portforward/client.go and portforward.go: `start`, `tick` and `teardown`
--                    are the parts of `Run`, and `run` is the whole of it, with a number of ticks
--   Portsync/Syncer  internal/portsync/portsync.go: `Move` is what a `select` statement can choose
--   Portsync/Json, Net, Qbittorrent, Transmission, Deluge, Clients
--                    the clients beside it, over the requests that they send, and command.go
--   App/Retry        `retryWithWANCheck` of internal/app/app.go
--   App/Outside, Starting, Running
--                    the rest of internal/app/app.go, and `captureRealIP` of network.go: the settings and
--                    calls, `initialize` and `connect`, and `runServices`, `Run` and `cleanup`
--   Proxy/Socks5     `handleSOCKS5` of internal/proxy/socks5.go, over the bytes that a client sends
--   Proxy/Http       internal/proxy/http.go, over the requests that net/http has read
--   the modules named Tests, App/Simulated
--                    runs at concrete inputs, and the system of those of internal/app
-- The other modules hold proofs about the one that their first line names.
--
-- State and errors. A function that makes calls is code over the state of the system: it returns a
-- result and the state, also where it fails, so that a property of the state that holds on every error
-- path can be stated. An error is the list of the sentinels that it wraps; its text is left out, as are
-- log lines and progress messages. Mutexes are left out: a method that holds one is one step, but for
-- `forwardDoT`: `CloseUpstreams`, which does not take its mutex, may come between any two of its steps,
-- as the list `closings` of an upstream tells. Goroutines are the order in which their results come:
-- `Race` for the race between servers, the list of answers for `query`, a list of `Move` for the
-- syncer. The services of `runServices` are a list of `Turn`, in any order, each of which is one step;
-- those of the syncer and the proxies touch nothing of the state. A turn that fails stops the others,
-- and the last of a list is followed by the end of the context of `Run`.
--
-- Numbers are natural numbers; a byte is one below 256, which no statement but that of `servfail`
-- needs. The depth of `findJSONEnd`, which may go below zero, is kept as two counts. The length that
-- `writeMsg` writes is taken modulo 2^16. Times are nanoseconds. The counter of `dispatch` is below
-- 2^63, where its conversion to `int` keeps it. A negative port in a payload is not represented, and no
-- time before 1970.
--
-- Fuel. The loops that delete routing rules until a deletion fails (`delete_all`, `delete_rules`) have
-- no bound in the source, since each success removes a rule that others may add again; the model has
-- the number of rounds as a parameter, and what is shown of them holds for every number.
-- `wait_for_interface` has one unit for each poll before its deadline: 3 s at 100 ms are 30, and
-- `wait_for_handshake` has 60 of them. `serve_conn` has one for each query, and its theorem says how
-- many are enough. `retry_from` of App/Retry has one for each attempt: the source retries without
-- bound, and so does `WaitForUp` wait, so what is shown of them holds for every number. The retries of
-- port forwarding compute theirs from the deadline (`rounds_left`): the intervals that are left before
-- it, and two. `perform_rapid_checks` takes more rounds than the failure window has units. The waits
-- for the network, the checks and the retries within `Run` of internal/app are bounded by the record
-- `Rounds`, which is a parameter; a retry or a wait whose rounds are used up has failed, and the checks
-- of the monitor have then said nothing. All other loops are structural.
--
-- Not modelled: the parsers of the settings (internal/app/config.go), the counters of dropped packets,
-- the pings of `triggerHandshake`, the listeners of the proxies, what is measured for the metrics, and
-- the packages metrics, api and log. Base64, JSON, `time.Parse`, `strconv.ParseInt` and HTTP are
-- parameters.
pub mod Base
pub mod Firewall
pub mod Pia
pub mod Cacher
pub mod Vpn
pub mod Host
pub mod Dns
pub mod Wan
pub mod Wg
pub mod App
pub mod Monitor
pub mod Portforward
pub mod Portsync
pub mod Proxy
pub mod Simulated
