-- ===== src/Lib.antt =====
-- mirenai is a screening DNS resolver: for each query of a client it decides, by policies and
-- blocklists, whether to answer from an override or from local records, to deny, or to forward to
-- an upstream through a cache. This library models the program's own logic, under
-- src/mirenai/domain, the processes that drive it, src/mirenai/workers, the tables that they and the
-- API read and write, src/mirenai/repository, and the checks and some handlers of the API,
-- src/mirenai/api.
--
-- How the parts work together. The server process (Server) drops packets of untrusted networks
-- (Network), records the client (Buffers/Hosts) and hands the request to the resolver (Resolver).
-- `handle` reads one snapshot of the configuration (State): it selects a policy (Policy), asks the
-- blocklist (Blocklist) and the local records (LocalZones), and else the cache (Cache) and the
-- upstreams. It reports to buffers (Buffers) that count in memory and hand over their rows when a
-- timer fires. CacheView shows the cache. The rows go to the tables (Repository), which Persist joins
-- to the buffers step by step. The downloaders (Downloader) fetch blocklists and zones when they are
-- due, parse them by Blocklist and LocalZones, and replace the stored domains and records, which the
-- server loads. The API (Api) checks requests and changes the same tables.
--
-- Files, and the code that they model:
--   Prelude      shared tests, lists on native numbers, and the interface of decidable equality
--   Python       what the code uses of Python: texts as lists of code points, split, strip,
--                int, str, the module ipaddress, and dictionaries in insertion order
--   Policy       src/mirenai/domain/policy.py: normalize_domain, select_policy; Pattern says what
--                a rule's domain matches, Select which rule is chosen
--   Names        the name patterns of blocklist.py and localzones.py
--   Blocklist    src/mirenai/domain/blocklist.py; Format is detect_format
--   Cache        src/mirenai/domain/cache.py: TTLCache, whose OrderedDict is a list of entries,
--                the least recently used first
--   Buffers      the aggregating buffers, one file each: cacheoutcome.py, clientrequests.py,
--                querybuffer.py, clientstats.py, upstreamstats.py, hosts.py, foreignclients.py,
--                uncacheable.py, queryevents.py. Tally holds the interface that those which count
--                in a dictionary fill, and Capped the limit on keys that two of them share
--   Network      src/mirenai/domain/network.py
--   LocalZones   src/mirenai/domain/localzones.py: parse_zone and LocalRecords
--   State        src/mirenai/domain/state.py: reload and the refresh loop
--   Resolver     src/mirenai/domain/resolver.py: Dns is the interface of the package dnslib, Keys
--                the cache key and the lifetimes, Answers the replies without an upstream, Forward
--                the upstreams and the cache, Handle the state and `handle`; the other files prove,
--                Chain and Local against their own account of the local answers
--   CacheView    src/mirenai/domain/cacheview.py
--   Server       src/mirenai/workers/dns_server.py: screening, probing, cache flushes
--                (_make_on_discover, with src/mirenai/integrations/sando.py, is Discovery)
--   Repository   src/mirenai/repository. Select, Group, Rows, Upsert, Cap and Like say what the SQL
--                statements do; Persist joins a buffer with its table; Hours is _fill_hours. Policies
--                and Modes: policies.py; ClientStats, with Chart and Site: client_stats.py;
--                UpstreamStats: upstream_stats.py; CacheOutcomes: cache_outcome.py; Blocklists, with
--                Domains, Replace and Lookup: blocklists.py; BlocklistSize: blocklist_size.py; Zones,
--                with Records: local_zones.py; ForeignClients: foreign_clients.py; Uncacheable:
--                uncacheable.py; QueryLog, with Totals: query_log.py; ClientRequests, with NewDomains
--                and Recent: client_requests.py; Hosts, with Records: hosts.py; Settings: settings.py,
--                and its Flush: cache_control.py; Upstreams: upstreams.py; Trusted:
--                trusted_networks.py and blocklist_overrides.py; Events: query_events.py and
--                runtime_stats.py
--   Downloader   src/mirenai/workers/blocklist_downloader.py: Fetch is download_text, Lists
--                refresh_blocklist, Cycle run_due_downloads, Due what a round achieves; Zones is
--                src/mirenai/workers/local_zones.py. A download gives a text, a download error,
--                or an exception that the code does not catch, which ends the round
--   Api          Queries: src/mirenai/api/errors.py; Schemas, with Sound: src/mirenai/api/schemas.py;
--                Routes: handlers of src/mirenai/api/routes/policies.py and blocklists.py
--   Tests        the theorems at concrete inputs, with dnslib replaced by simple functions
--
-- Conventions. Stateful code passes its state on; `none` stands for an exception or for None, as
-- the comment says. A lock is held for a whole operation, so threads are sequences of operations;
-- `handle` reads the configuration piece by piece, and the model lets it see one snapshot. Clocks,
-- the network and random.shuffle are an `Env` that a call is given. Times of the monotonic clock are
-- nanoseconds, dates and round trips microseconds (a float of milliseconds in the code), timeouts
-- milliseconds. Lifetimes, priorities, ports and limits are natural numbers; the API does not
-- exclude negative lifetimes, which the model leaves out. `lower` changes ASCII letters only, and
-- `isspace` and the digits are those of the characters that its definition names.
--
-- A table is a list of rows in the order of their ids, or a dictionary from its unique key where the
-- code only uses that; an id is one more than the greatest, as SQLite gives it. A SQL statement is a
-- function on these lists. A transaction that fails leaves the table as it was. Times in the tables
-- are microseconds, and an hour is 3,600,000,000 of them. The columns created_at and updated_at, which
-- the database sets, are left out. The calls of now within one operation or one round of downloads
-- are given the same time. A record with optional fields is the part of a request that was
-- sent. The HTTP requests of the downloaders and of Sando, the conversions of floats and isoformat are
-- parameters.
--
-- Bounds and fuel. A chain of local aliases is followed on the number of aliases that are left, as
-- many as the code's depth limit. Printing a number takes as many rounds as the number, which is
-- more than its digits. The chart of hours goes back while an hour is in the window, on fuel of two
-- more than the hours of the window; a theorem below says that it is enough. A list is
-- cut into chunks on its own length. All other loops run over a list.
--
-- Not modelled: dnslib and the exchange over the network, which are parameters with the documented
-- behaviour as named hypotheses (IsDnslib), so that packing a message never raises for a value out of
-- range; log lines; threads and timers; SQLAlchemy, the sessions
-- and the migrations (db.py); the table of cache entries (cache_entries.py); search_domains and
-- find_domain_sources of blocklists.py; the routes other than those of policies and blocklists; the
-- parsing of JSON; configuration and the entry points.
pub mod Prelude
pub mod Python
pub mod Policy
pub mod Cache
pub mod Names
pub mod Blocklist
pub mod Buffers
pub mod Network
pub mod LocalZones
pub mod State
pub mod Resolver
pub mod CacheView
pub mod Server
pub mod Repository
pub mod Tests
pub mod Downloader
pub mod Api
