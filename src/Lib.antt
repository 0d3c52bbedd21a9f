-- ===== src/Lib.antt =====
-- A model of the core of fastapi-foundation, a foundation for services on FastAPI, and the
-- theorems that make it correct.
--
-- The program's parts, and how they interact. A cache keeps entries with deadlines; rate limits
-- count an identity's requests in it, and a middleware asks the limiter about each request. Locks
-- give an owner a key until a deadline, under a fencing token. Quotas are reserved before a mutation
-- and given back when it raises. The idempotency guard claims a row for a request, runs the
-- mutation, stores the response and replays it to a repeated request. A tenant's status decides
-- what its users may do; its deletion is a sequence of steps that can be taken up again. Events
-- wait in an outbox until a dispatcher claims them under a lease and marks them; tasks are runs in
-- a table, which workers claim, finish, retry and recover. The application's modules are loaded, and
-- its migrations run, in the order of their dependencies.
--
--   Base         shared types, integers, texts, dictionaries, and methods as state and error
--                passing functions (src/core/exceptions/base.py)
--   Cache        src/core/cache/memory.py; Cache.Keys src/core/cache/keys.py; Cache.Provider the
--                protocol of src/core/cache/provider.py, which the clients take as a record
--   RateLimit    src/core/rate_limit/rules.py; RateLimit.Limiter src/core/rate_limit/provider.py;
--                RateLimit.Middleware src/core/rate_limit/middleware.py
--   Locks        src/core/locks/memory.py; Locks.Database src/core/locks/database.py
--   Quotas       src/core/quotas/rules.py; Quotas.Usage and Quotas.Database the two stores
--                of usage.py; Quotas.Service provider.py; Quotas.Gate gate.py
--   Permissions  src/core/permissions/decisions.py
--   Tenancy      src/core/tenancy/lifecycle.py; Tenancy.Services and Tenancy.Deletion services.py: the
--                transitions of a tenant, and its deletion step by step
--   Outbox       src/core/outbox/repository.py: claims; Outbox.Marks what becomes of a claimed
--                event; Outbox.Dispatcher dispatcher.py, over any lock provider and publisher
--   Tasks        src/core/tasks/repository.py: entering runs; Tasks.Runs the operations on one run;
--                Tasks.Recovery those on many; Tasks.Providers and Tasks.Queue provider.py, over any
--                handlers
--   Topological  the depth first walk of `visit` in src/core/apps/dependencies.py and in
--                src/core/migrations/planner.py, on fuel; Topological.Visits the walk without it
--   Apps         src/core/apps/dependencies.py: the checks of the modules and their order
--   Migrations   src/core/migrations/planner.py: the graph of the migrations and their order
--   Idempotency  src/core/idempotency/store.py; Idempotency.Records models.py; Idempotency.Guard
--                guard.py
--
-- A class is a record of its attributes, and a method a function by clauses from the object to its
-- result and the object it leaves. What a method raises is a value, an error with a code, a
-- message and a status; the state that was changed before stays changed. A dictionary is an
-- association list, and a table of the database the list of its rows, as one transaction sees it.
-- Python's integers are integers, instants are numbers of microseconds, and each reading of the
-- clock is an argument of its own. Names that the code generates are arguments too. A client of the
-- cache, of a usage store or of a lock provider is written over the record of the protocol, so that
-- it runs over any implementation.
--
-- The depth first walk runs on fuel: the number of the nodes, which is enough, since each call that
-- goes deeper takes one more node for being visited. The other loops run over lists, but for the two
-- attempts of a reservation or a lock in the database, which are counted as in the source. There is no
-- arithmetic of fixed width.
--
-- Not modelled: the json methods of the cache, the sliding window limiter (floats), locks and caches on
-- Redis, log and audit records beyond the decision that they are told of, and races between
-- transactions except at a reservation and at a lock; the parts of the repository that are not listed above.
pub mod Base
pub mod Cache
pub mod RateLimit
pub mod Locks
pub mod Quotas
pub mod Idempotency
pub mod Tenancy
pub mod Outbox
pub mod Tasks
pub mod Topological
pub mod Apps
pub mod Migrations
pub mod Permissions
