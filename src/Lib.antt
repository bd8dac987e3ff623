-- ===== src/Lib.antt =====
-- mini-ss is a shadowsocks, socks and http proxy with rule-based routing and fake-IP DNS. This
-- library models the parts of it that decide something, and proves them correct.
--
-- How the program's parts interact: a proxy server negotiates with its client (ss/) and reads a
-- request whose destination is an address (address/). Where the destination is a fake IP, the
-- resolver (resolver/) gives back the domain it stands for; fake IPs come from a pool, and their
-- records live in caches (util/cache). The rules (rule/) match the destination, with domain tries
-- (util/trie) among their matchers, and select the proxy that the connection then takes.
--
-- Which file models what:
-- Common: the names and lemmas that all parts share; `Dict` has association lists for Go's maps,
--   `Bytes` has texts as lists of byte values.
-- Stream: errors as values, panics, and a connection that is read by io.ReadFull into a buffer.
-- Address: address/address.go. `Defs` has ParseAddressFromReader, ParseAddressFromBuffer, the
--   construction of an address from a host and a port, which is an integer that may be negative, and
--   the accessors Host and Port. The text of an IP address is a parameter, the record NetIp.
-- Resolver/Pool: resolver/pool.go. `Defs` has newIPPool, Allocate, allocateFor, Release and the
--   tests; a pool is the record IpPool with Go's flags as a list of Booleans, and uint32 numbers
--   wrap modulo 2 ^ 32.
-- Resolver/FakeIp: resolver/fakeip.go over the pool and two caches. `Defs` has newFakeIPResolver,
--   find, FindByIP and query; `Ledger` says which addresses the records hold. The DNS library is the
--   record DnsLib, a parameter, and `Answers` has what can be read of its messages.
-- Cache: util/cache/cache.go. `LinkedList` stands for container/list with handles for element
--   pointers; `Defs` has Get, Set, Delete and cleanup, each of which returns the new cache and the
--   values handed to the eviction callback; `Spec` has the abstract cache, one list of entries, and
--   `Tables` what is stored for each key.
-- Trie: util/trie/node.go and domain.go. `Defs` has Insert and Search; `Paths` says what a trie
--   stores, `Search` what a search finds.
-- Rule: rule/. `Item` has the rules, `Matcher` the six kinds of matchers of domain.go,
--   domain_suffix.go, domain_keyword.go, geoip.go, ipcidr.go and others.go, and `Ruler` has
--   NewRuler, Match and Select of rule.go. What they ask of net/netip, the resolver and the GeoIP
--   database is the record Env, a parameter.
-- Ordmap: util/ordmap/map.go, over the linked list of Cache/LinkedList. The map keeps an element as
--   its handle and its value, so that a removed element still has its value.
-- Selector: selector/selector.go over Ordmap: the relayer that the name of a proxy stands for.
-- Socks: ss/auth.go and the handshake of ss/socks.go. `Auth` has the credentials, `Defs` the
--   functions negotiate and auth over the connection of Stream, and `Request` the function request,
--   which uses Address, Rule and, for fake IPs, Resolver/FakeIp; `Accepts` says what a client gets
--   that keeps to the protocol, `Refuses` what a client sent that is accepted.
-- Aead: ss/aead/stream_conn.go. `Defs` has the reader and the writer of the encrypted chunks and
--   the connection that sends a salt first. The AEAD is the record Aead, a parameter.
-- Options: ss/option.go and options/option.go. An option is a function from the settings to the
--   new settings or a panic; `Settings` has what it is applied to, `Server`, `Transports` and
--   `Local` have the With functions. The settings hold what the options set in ssOptions and in the
--   variables of other packages. What they ask of net and net/netip is the record NetText.
-- Config: config/config.go. `Types` has the file's contents, `Rules`, `Servers` and `LocalPart`
--   have BuildRuler, BuildServerOptions and BuildLocalOptions; `Description` and
--   `LocalDescription` say field by field what a file describes, without options.
-- Client: ss/ss_client.go. `Defs` has NewShadowsocksClient and initServerOption, over Options,
--   Selector and Rule, and `Listeners` says which protocol is served where; the relayers that ciphers
--   and SSR make of a server are a parameter.
--
-- In Options and Config an `int` is its 64-bit pattern, and a duration counts nanoseconds modulo
-- 2 ^ 64. Where Fatal ends the program the result is `panics`. A composed option applies its
-- parts when it is applied itself, and Go when it is made: these differ for a part that reads or
-- writes a variable of another package. WithDefaultTransport is such a part, since it copies
-- *DefaultOptions, which WithOutboundInterface writes; the options that config/ builds for a
-- server have none. No element of a list of pointers in the configuration is nil.
--
-- Loops are structural recursion on a list or a number, so no definition takes fuel, but for the loop
-- of WriteTo and the pieces of Write in Aead: the first has one more than the bytes that are left,
-- of which each round reads at least two, and the second the length of the text. A panic of Go
-- is the result `panics`.
--
-- What is not modelled: logging; locks and goroutines, so that each operation is one step; the
-- timers of the cache, whose time is an argument; servers, transports, ciphers and the command
-- line, which call network and cryptography libraries. IPv6 pools are left out, since newIPPool
-- panics on an IPv6 prefix.
pub mod Common
pub mod Stream
pub mod Address
pub mod Resolver
pub mod Cache
pub mod Trie
pub mod Rule
pub mod Socks
pub mod Ordmap
pub mod Selector
pub mod Options
pub mod Config
pub mod Client
pub mod Aead
