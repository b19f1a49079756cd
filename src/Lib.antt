-- ===== src/Lib.antt =====
-- NextPATH gives the clients of a VPN fake addresses for the real ones that DNS answers hold, and
-- routes these by address translation. A node is the engine (cmd/nextpath-engine): a DNS proxy
-- (internal/dnsengine/proxy.go) asks the Fake-IP pool (internal/dnsengine/ippool.go) for addresses,
-- enters them in nftables (internal/netlink/nftables.go) and sends the new mappings to the other
-- nodes (internal/dnsengine/sync.go), whose pools take them by AddMapping. The list compiler
-- (internal/parser) makes the zone files that say which names are routed.
--
-- What is modelled is the making of the pool, its operations and its clock, the proxy's handler, the
-- batches and rules for nftables, the handshake and messages of peers, the list compiler with its
-- downloads, and the updates of compiled lists:
--   Base, Base/Map: shared names, lists over the native numbers, and Go maps as association lists.
--   Net: net.IP as its bytes, IPKey, ToIPKey, IPKey.ToIP, normalizeIP and fnv1aBytes.
--     Net/Keys: keys and addresses.
--   Hlc: GetNextVersion and ObserveVersion. Hlc/Order: runs of the clock.
--   Pool: cacheShard, IPPool, AddMapping, RemoveMapping, IsFakeIPOccupied, GetVersion. The two
--     branches of AddMapping on shard pointers differ in locks alone and are one here.
--     Pool/Views reads a pool as four functions on keys; Pool/Invariant has its invariant;
--     Pool/Store, Pool/Claiming, Pool/Adding, Pool/Gossip are about AddMapping, and Pool/Removing
--     about RemoveMapping.
--   Lease: TryReserve, PruneExpired, GetAllMappings, GetActiveCount. Lease/Checking and
--     Lease/Deciding are about the lease test, Lease/Keeping, Lease/Pruning and Lease/Frees about these.
--   Alloc: GetFakeIPsForReals and ComputeLevel1Hash. Alloc/Natural is about the hash,
--     Alloc/Probing and Alloc/Choosing about the search for a free address, Alloc/Round about one
--     real address, Alloc/Tracking, Alloc/Sorting and Alloc/Giving about a whole call.
--   Leases: what the pool promises, without its shards, counters and versions: the methods as changes
--     of one map. Leases/Setup, Leases/Settling, Leases/Sharing and Leases/Refining relate the methods
--     to it.
--   Domains: domainSorter, CollapseDomains and buildSimpleRPZ of internal/parser/compiler.go.
--     Domains/Order is about the order, Domains/Collapsing, Domains/Minimal and Domains/Topmost about
--     CollapseDomains, Domains/Zone about buildSimpleRPZ.
--   Names: normalizeDomain, isValidLabel and stripPrefix of internal/parser/compiler.go. Where these
--     use Unicode tables or IDNA, the function is a parameter. Names/Safety, Names/Prefixes and
--     Names/Stripping are about these.
--   Sync: shouldKeepNewConnection, isInSubnet, and the case of handleConnection that takes a message
--     of mappings. Sync/Connections and Sync/Receiving are about these. Sync/Peers has the handshake,
--     the clean-up and checkAuthToken, Sync/Registering is about them; Sync/Batches has and treats
--     sendAllMappingsToConn and BroadcastMappings; Sync/Dialing has tryConnect and the lists that
--     NewSyncManager reads, Sync/Pinning is about its certificates; Sync/Starting has getTLSConfig and
--     StartServer up to its listener, Sync/Trust is about what a started node trusts. Sync/Discovery has
--     discoverAndConnect, sendPexMessage and the introduction of a new peer, Sync/Finding is about the
--     dials.
--   Text: the functions of strings and strconv that the source uses.
--   Config: getEnv, getIPPoolConfig (cmd/nextpath-engine/main.go) and NewIPPoolWithConfig. Config/Sizes
--     is about the sizes, Config/Building about the pool that main makes; Config/Lists has
--     getCompileConfig.
--   Netlink: flushBatchLocked, reconnectLocked and the flush of batchWorker.
--     Netlink/Worker has batchWorker, AddMapping and Close as a step relation, Netlink/Order its
--     invariant, Netlink/Answers that it can answer, Netlink/Elements what a batch sends.
--     Netlink/Rules has InitStructure as rules and their text, Netlink/Setup what it reads of the
--     environment, Netlink/Input what the input chain lets in, Netlink/Deny the deny sets.
--     Netlink/Recovery has ReadExistingMappings and the loop of main that takes what it read, and is
--     about that loop.
--   Blocklist: the rest of internal/parser/compiler.go. Blocklist/Lines has parseAdblockLine,
--     validateFile and readUrls, Blocklist/Rules and Blocklist/Cosmetic are about them;
--     Blocklist/Zones has proxy.rpz and adblock.rpz of CompileLists, Blocklist/Exceptions is about
--     them; Blocklist/Addresses has parseIPFile, filterIPNets, aggregatePrefixes and compileIPs,
--     Blocklist/Aggregating is about the loop; Blocklist/Files has the writing of files and the test
--     for changes, Blocklist/Compiling a run of CompileLists, and Blocklist/Stale is about two runs.
--   Proxy: handleDNSRequest, resolveUpstream and patchSVCBValues. Proxy/Addresses and
--     Proxy/Collecting are about the addresses collected, Proxy/Hiding about the message written,
--     Proxy/Handling about a whole request.
--   Disk: files by their path, for Updater and Cache.
--   Cache: getCachedFilepath, downloadOrGetCached and downloadSources of internal/parser/compiler.go.
--     Cache/Fetching is about one download, Cache/Revalidating about the validators that it keeps,
--     Cache/Serving, Cache/Sweeping and Cache/Sources about downloadSources. Cache/Loading has loadIPs,
--     loadDomainsWithRules and downloadAllWithRules, and is about the rules loaded; Cache/Hashing
--     has getStateHash.
--   Updater: downloadRemoteFiles, runReload, the first delay of startUpdaterLoop and the tick of
--     startFileWatcher (cmd/nextpath-engine/main.go). Updater/Writing is about one file,
--     Updater/Containing and Updater/Replies about a whole download, Updater/Etags about .etag.
--   Tests: runs and applications at concrete data.
--
-- How state and operations correspond. A method is a function from the pool to the new pool and the
-- result. uint32 and uint64 arithmetic wraps at 2^32 and 2^64. Times are nanoseconds, and every
-- reading of the wall clock is an argument. A method that holds globalMu is one step; the read of
-- GetFakeIPsForReals before it takes the lock, and the first loop of PruneExpired, are run in one
-- step with what follows them. An association list stands for one order in which a Go map is
-- iterated. The text of an address, by which GetFakeIPsForReals keys its results, is represented by
-- the key of the address. Addresses have four or sixteen bytes, as net.ParseIP and the DNS library
-- give them.
--
-- The loops run on the structure of their lists, or on a count that the source fixes: 64 shards, and
-- at most 1024 attempts of a probe, of which the first free address is taken. The loop of
-- aggregatePrefixes runs on 129 rounds, which suffice because each makes the longest prefix shorter;
-- the search for a logarithm runs on 32 steps, which reach every uint32. The batch worker is a
-- relation, so that its interleavings with AddMapping and Close are all the runs of the relation.
--
-- What is a parameter: the environment, strings.TrimSpace, strings.ToLower, strings.Fields, IDNA,
-- net.ParseIP and the other functions of net and netip that read texts, netipx, tls, the kernel behind
-- the netlink library, the nft command, the exchanges with the upstream servers, and for downloads the
-- HTTP servers, md5, gzip, tar, filepath and the outcome of calls on files. A file of a tree of
-- directories is a path in a map; a directory under the name of a file is not modelled.
--
-- Not modelled: the ticker of pruningWorker, the accept loop and the writers of the synchronisation,
-- metrics export, the casino filter (one regular expression, a parameter), logs and the rest of the
-- command lines.
pub mod Base
pub mod Net
pub mod Hlc
pub mod Pool
pub mod Lease
pub mod Alloc
pub mod Domains
pub mod Sync
pub mod Names
pub mod Text
pub mod Config
pub mod Blocklist
pub mod Netlink
pub mod Proxy
pub mod Leases
pub mod Disk
pub mod Updater
pub mod Cache
pub mod Tests
