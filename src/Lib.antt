-- ===== src/Lib.antt =====
-- Algorandscout: an explorer API for Algorand. An HTTP service (service.py) validates what a
-- caller asks for (validation.py), reads the indexer and the node through a retrying client
-- (client.py), keeps what cannot change for a while in a cache (cache.py), translates Algorand's
-- shapes into the explorer's (mapping.py), and counts what it does (metrics.py). capabilities.py
-- says what it answers and what it cannot. All paths are below algorandscout/.
--
-- Which file models what:
-- - Prelude and its children: lists, integers, texts and tests over the native natural numbers. A
--   text is the list of its characters' codes.
-- - Python: JSON values (Values), exceptions and results (Results), the printing of integers
--   (Decimal). Platforms holds the parameter Platform: the codecs, the hash, the Unicode tables,
--   the parsers and the `repr` that Python takes from its own libraries.
-- - Validation: validation.py, function by function; Sorting is the `sorted(set)` in its message,
--   Base32 the alphabet, Address, Ids and Query what is proved of its functions.
-- - Cache: cache.py. Cache is TTLCache with its CacheStats; Ordered is the OrderedDict, oldest
--   entry first. get, set, clear, size and get_or_fetch are its methods, Op and run sequences of
--   them. Tasks holds calls of get_or_fetch that interleave, each as the step up to its await and
--   the step behind it; Served, Counted and Repeats are what is proved of them.
-- - Mapping: mapping.py. Amounts (decimal_string, _clean), Dates (iso; Days is the calendar, and
--   Dates/RoundTrip reads its texts back), Pages (_next_page), Accounts, Assets, Applications,
--   Transactions (map_transaction; Tables and Movements hold its tables, _extract_movement and
--   _extract_close, Frames what it works out before it recurses and the dictionary it makes),
--   Blocks (map_block, map_stats). Holdings is about the pages of balances; in Transactions, Bounded
--   and Depth are about the recursion, Framed about where each part comes from, Reported about what a
--   result says of its transaction, Closing about accounts that are closed, Shape about the types of
--   the results and Listing about the pages of map_transaction_list.
-- - Capabilities: capabilities.py, its tables and queries; Boundary compares the tables.
-- - Metrics: metrics.py. Tables are its default dictionaries, Rendering is render and _esc.
--   Histogram, Labels, Exposition, Sorted and Series are what is proved of the buckets, the labels,
--   the printed histograms, the sorting and the printed counters.
-- - World: the state of a running service and the monad of its steps. The upstream, the clock and
--   the random delays are functions in it; the URLs requested and the delays slept are recorded in
--   it.
-- - Client: client.py. Config is AlgorandConfig, Headers its headers, Errors is AlgorandError and
--   _parse_retry_after, Transport is _get, Sessions who makes and closes its session (__init__,
--   _ensure_session, close), Reads are the other methods; Warnings, Health, Readiness, Pages and
--   Sessions/Ownership are what is proved of the configuration's warnings, of health, of paginate
--   and of the session.
-- - Service: service.py. Handlers by their names, the exception handlers as answer and respond.
--   Confirmations is the end of get_transaction; Search holds search and get_token_holders, and
--   Hits what they make of a payload. Balances is get_address_token_balances: its lookups are a
--   list of states, of which any running one may meet its next reply, in an order that is an
--   argument (Assets holds what it makes of payloads; Moves, Slots, Endings, Verdicts, Orders and
--   Answers its proofs). Routes are the routes with their paths, the meta routes and the
--   middleware observability; Keeping, Handlers and Lookups say what no route touches. Cached
--   is about the routes that cache, and Lifespan is lifespan.
-- - Command: __main__.py. main ends in the call of uvicorn.run with its arguments, or in the exit or
--   the exception that comes before it; Started is about the first.
-- - Witnesses: a platform, a client and inputs at which the results hold, and tests.
--
-- Bounds: a clock reading is a number of nanoseconds and a duration or a pause a number of
-- microseconds. map_transaction recurses into inner transactions on fuel, which stands for the
-- interpreter's recursion limit: without fuel it raises, as the interpreter does. The digits of a
-- number n are made on fuel n + 1, which is more than it has digits. _get makes MAX_RETRIES
-- attempts, by recursion on the attempts left. gather of Balances takes at most three turns for
-- each lookup, which is what its attempts come to.
--
-- Not modelled: the web framework's matching of routes and parsing of parameters, what aiohttp
-- does with a session, the request id, logging and what uvicorn does once it is started.
-- __init__.py only passes names on. The consumer of paginate asks for the next page until the walk
-- ends; what it does between two pages is not modelled. A JSON value has no floats. The routes are
-- served one after the other: no other request runs between the steps of a handler. What requests
-- do to one another when they meet on the cache is in Cache/Tasks. Within
-- get_address_token_balances the lookups interleave, attempt by attempt; once one of them raises,
-- gather has ended, and what the others still send is left out. time.perf_counter is read from the
-- same clock as time.monotonic.
pub mod Prelude
pub mod Python
pub mod Validation
pub mod Cache
pub mod Mapping
pub mod Metrics
pub mod World
pub mod Capabilities
pub mod Client
pub mod Command
pub mod Service
mod Witnesses
