-- ===== src/Lib.antt =====
-- A verification library for beego, the web framework in Go.
--
-- The parts that are modelled, and where.
--
-- - Task: task/task.go. `Task/Time` is what the code uses of the package `time`, a calendar in one
--   location of fixed offset. `Task/Word` is the arithmetic of the `uint64` masks and `getBits`.
--   `Task/Spec` is the parser of cron expressions, `Task.parse` to `getRange`, with `log.Panicf`
--   as the outcome `panic`. `Task/Schedule` is `Schedule.Next` with one function per `for` loop.
--   `Task/Runner` is `Task` with its errors and next times, and the methods of `taskManager` that change
--   its tasks, `Task/Loop` one pass over the tasks that are due; it calls `Task/Schedule` for the next times.
-- - Cache: client/cache/memory.go and client/cache/calc_utils.go. `Cache/Counter` is `incr` and `decr`
--   on values of every integer type, `Cache/Memory` the methods of `MemoryCache` over the map of
--   its items, each at the time of its call. `vacuum` is a sequence of rounds, whose two halves other
--   calls may interleave.
-- - Limit: server/web/filter/ratelimit/token_bucket.go and limiter.go. `Limit/Bucket` is `tokenBucket`,
--   `Limit/Limiter` the map of buckets under session keys and the filter that answers a request.
--   A limiter takes tokens from the bucket of the key, which it creates on demand; a request looks,
--   creates and takes under three locks, which are functions of their own.
-- - Page: core/utils/pagination/paginator.go, the numbers of pages, windows and offsets.
-- - Session: server/web/session/sess_mem.go. The list of `container/list` is a sequence of elements,
--   each with an identity, which the map of session ids points to, as `*list.Element` does.
--   `Session/Steps` has the calls one after the other, `Session/Interleaved` the sections of calls under the
--   lock in any order, `Session/Races` two calls that come between each other.
-- - Sql: client/orm/qb_mysql.go and client/orm/qb_postgres.go, the two query builders as records of
--   tokens, one function per method.
-- - Router: server/web/tree.go. `Router/Segment` is `splitPath` and `splitSegment`, `Router/Tree` the tree of
--   routes with `addseg`, `Router/Match` the search of a request in it. `AddRouter` splits a pattern into
--   segments and adds a leaf; `Match` tries the fixed routers, the allowed extensions, the wildcard and the
--   leaves. The package regexp is a parameter, an expression is its text.
-- - Orm: client/orm/orm_conds.go, db_tables.go, db.go, the drivers db_mysql.go, db_postgres.go, db_sqlite.go and
--   db_oracle.go, and utils.go. `Orm/Cond/Store` is `Condition` with its methods, on a store in which slices
--   share arrays as in Go; `Orm/Cond/Where` is `getCondSQL`, which follows the conditions and calls
--   `GenerateOperatorSQL` of `Orm/Operator` for each expression; `Orm/Names` is the name strategies,
--   `Orm/Order` clauses/order_clause/order.go with `getOrderSQL`.
--   The capacity that `append` gives, `parseExprs` and `getFlatParams` are parameters.
-- - Config: core/config/config.go, the values with environment variables, the getters over a reader, which is a
--   parameter with the parsers of strconv, and the adapters.
-- - Slice: core/utils/slice.go, over elements of any type with a comparison.
-- - Common: lists and texts measured by the native numbers, maps with text keys, signed integers, the
--   outcomes of code that panics or loops.
--
-- Correspondence. A Go struct is a record with the fields of the struct in snake_case, a method is a
-- function of the same name in snake_case from the state to the state and the results. A method
-- that holds one lock to its end is one step; where it releases the lock in between, as SessionRead,
-- SessionRegenerate, SessionGC, GetMulti, the vacuum and the requests of the limiter do, each section takes
-- the state that it meets. A map is an association list, an error that may be nil a sum, a panic the outcome
-- `panic`. A text is the list of its bytes. The clock is an argument, in nanoseconds for the cache and the
-- limiter, in seconds for the sessions.
--
-- Bounds and fuel. Integers of w bits wrap around explicitly. `getBits` runs on fuel, and 66 rounds are
-- enough for a step that is not 0. Each loop of `Schedule.Next` runs on fuel, 13 months, 32 days, 25 hours,
-- 61 minutes and 61 seconds, since it restarts when its unit wraps; the restarts have 4,492,801 rounds of
-- fuel. `next-Answers` shows that the fuel is enough: `next` always returns. `getCondSQL` runs on fuel, for
-- which the number of conditions is enough, since a condition holds only older ones.
--
-- Not modelled: HTTP, templates and the formats of configuration files, the network caches, session stores and log
-- targets, the SQL drivers and the reflection of the ORM, none of which is a computation of this repository
-- alone; the loop of the task manager, the controllers, the validators and the log writers, which are. The locations
-- of `time.Time` with offsets that change are not modelled. In the paginator, the links are not, nor the
-- cookies of the session manager.
pub mod Cache
pub mod Common
pub mod Config
pub mod Limit
pub mod Orm
pub mod Page
pub mod Router
pub mod Session
pub mod Slice
pub mod Sql
pub mod Task
