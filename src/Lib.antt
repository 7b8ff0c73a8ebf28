-- ===== src/Lib.antt =====
-- gwsdb tracks which Google Web Server addresses are reachable from China. This library models its
-- Cloudflare side: the functions of src/*.ts over the D1 database, and the handlers of functions/.
--
-- Parts, with the source files (paths from the repository's root):
--   * CheckRows: src/checkRows.ts, the coalescing of a flush.
--     CheckRows.Filed, .Coalesce, .Count and .Successes: what it keeps, and what it sends on.
--   * IpAddr: src/ipAddr.ts, parsing, canonical texts and CIDR ranges; IpAddr.Ranges: the ranges.
--   * Store.Schema: the tables of migrations/*.sql. Store.Sql: the statements that src/store.ts
--     prepares, as the data type `Stmt`, with what D1 does for each (`exec`, `batch`). Store.Writes
--     and Store.Prune: the functions that write, as the batches that they send. Store.Reads and
--     Store.Publishing: the reads, with the row type of src/types.ts. Store.RateLimit:
--     `checkRateLimit`; Store.RateLimit.Race: its statements, interleaved.
--   * Store.Sync: the public view of the pool, the transactions that the program sends, and any
--     sequence of them. Store.Writes.Retry: a call of
--     `insertCheckRows` that is made again. Store.Writes.Limits: the
--     sizes of the batches. Store.Writes.Joins: the pool after
--     `updatePoolBatch`. Store.Prune.Keeps and
--     Store.Prune.Retention: the pool and the checks after a pruning.
--   * Store.Listing: `listKnownIPs` of src/store.ts and `loadPool` of src/pool.ts. Api.Pool:
--     functions/api/pool.ts over four moments of the database, and functions/api/pool/version.ts.
--   * Client: the browser's copy of the pool (public/static/home.js), and how it is synchronised with
--     Api.Pool and Api.Changes. Client.Load: the load of the
--     home page. Client.Table: its table, its filter, sort and pages. Client.Rows: what its rows say.
--   * Geo: public/static/geo.js, where a server stands by its PTR name. Geo.Names: its regular
--     expressions. Geo.Data: the tables of public/static/geoData.js.
--   * Api.Changes: functions/api/pool/changes.ts over four moments of the database. Api.Ingest:
--     functions/ingest.ts, a flush of the scanner. Api.Probe: functions/check.ts and
--     functions/recheck/result.ts, one probe of one address.
--   * Store.Caches: the PTR, host and AS caches of src/store.ts. Dns.Lookups: src/doh.ts and the
--     look-ups of src/resolver.ts. Dns.Asn: src/asn.ts. Dns.Caching: src/dnsCache.ts, and the gate on
--     the AS of functions/check.ts.
--   * Dns.Names: the reverse names of src/resolver.ts. Dns.Wire: src/dnsWire.ts. Dns.Stream and
--     Dns.Refresh: src/ptrRefresh.ts, which pipelines PTR queries over TCP and stores the answers.
--   * Api.History: functions/api/history.ts over three moments of the database. Auth: src/auth.ts.
--   * Api.Query: functions/query.ts, what the query page looks up and shows.
--   * Api.Home: functions/index.ts, the links and the load of the page without scripts.
--   * HistoryPage: the history section of public/static/query.js, and its synchronisation with
--     Api.History.
--   * Middleware: functions/_middleware.ts. ProbeWorker: worker/src/index.ts.
--   * Html: src/html.ts. Html.Shell: the frame of a page, Html.Time: `formatTime`. Markup: the
--     language's template literals and `encodeURIComponent`. Api.Query.Page and Api.Home.Page: the pages
--     of functions/query.ts and functions/index.ts, as text.
--   * PtrResolve: public/static/ptrResolve.js, the page's own PTR look-ups and their queue.
--   * Publish: src/publish.ts, which makes the published DNS records follow the pool.
--   * Tests: runs at concrete inputs, and the theorems at inputs that meet their hypotheses.
--
-- The handlers read the request, check it, and call the store; the ingest handler coalesces the
-- rows first, and afterwards prunes, publishes and refreshes the PTR names. Every write ends in a
-- transaction of Store.Sql, and the delta protocol rests on the revisions that those stamp.
--
-- Numbers are the native naturals; JavaScript's are below 2 ^ 53 here. Dates are milliseconds since
-- the epoch, which are ordered as the ISO texts that D1 holds; invalid dates are not modelled. Text
-- is the list of its code units. A clock is an argument, `now`, read where the source reads it.
-- Loops over slices take one round for each entry of the array, which is enough since a slice is not
-- empty; those over the bytes of a DNS message or of the stream one for each byte; `decodeName` 23
-- for each byte and 46 more, since it follows 21 pointers at most and walks forward between them.
-- The reads of the PTR refresh are a list that ends where the stream or the deadline does. Where a
-- handler asks the rate limit, no other request's statements come between its three.
--
-- Not modelled: D1's own failures, the network, most of the elements that the browser builds, the Go programs of cmd/ and internal/,
-- and the edge cache, the DNS resolver, the probe server and Cloudflare's DNS API, which enter as the
-- answers that they give.
pub mod Prelude
pub mod CheckRows
pub mod IpAddr
pub mod Store
pub mod Client
pub mod Api
pub mod Tests
pub mod Dns
pub mod Publish
pub mod Geo
pub mod PtrResolve
pub mod Auth
pub mod HistoryPage
pub mod Middleware
pub mod ProbeWorker
pub mod Html
pub mod Markup
