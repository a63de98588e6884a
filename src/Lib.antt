-- ===== src/Lib.antt =====
-- InterGate, a gateway between the clients of AI services and the keys of several providers.
--
-- A request passes `gateway.py`: it is authorized, its model is looked up among the models that are
-- synced from the upstreams, the limits are checked, its provider is detected, the keys it may use
-- are picked, the cache is asked, and up to three keys are tried. On the way the gateway asks the
-- key manager, the load balancer and the rate limiter, and books what happened with the key manager
-- and the quota monitor, which queue their rows for the database's background writer. The console,
-- `webapp.py`, works on the same objects.
--
-- Which file models which part:
--   * Keys/ApiKey.antt: `models/api_key.py`, the key and its row; Keys/Manager.antt:
--     `services/key_manager.py`, with the cache of keys and the queue they are written back by.
--     Keys/RoundTrip.antt and the files below Keys/Manager hold the proofs.
--   * Store.antt and Store/Rows.antt: `db/database.py`, the tables as the writer's connection sees
--     them and the queue of `_write_flush`; proofs in Store/Queue.antt and Store/Retention.antt.
--   * Cache.antt: `services/cache.py`; proofs in Cache/Laws.antt, Cache/History.antt and
--     Cache/Recency.antt.
--   * Limiter.antt: `services/rate_limiter.py`; proofs in Limiter/Window.antt, Limiter/Requests.antt
--     and Limiter/Adaptive.antt.
--   * Balancer.antt: `services/load_balancer.py`; proofs in Balancer/Choice.antt, Balancer/Fair.antt.
--   * Providers.antt: `providers/registry.py`; proofs in Providers/Laws.antt.
--   * Pricing.antt and Pricing/Prices.antt: `config/pricing.py`; proofs in Pricing/Longest.antt.
--   * Quota.antt: `services/quota.py`; proofs in Quota/Usage.antt.
--   * Gateway.antt, Gateway/Body.antt, Gateway/Query.antt, Gateway/Replies.antt, Gateway/Failover.antt,
--     Gateway/Server.antt and Gateway/Handle.antt: `gateway.py`, from the check of the caller to the
--     reply. Gateway/Handle.antt is `_handle`, stage by stage in the order of the source;
--     Gateway/Failover.antt is its loop over the keys, with what `providers/upstream.py` makes of a
--     response; Gateway/Server.antt has the state of the gateway and the end of a request. Proofs in
--     the other files below Gateway.
--   * Sync.antt, Sync/Models.antt, Sync/PublicIds.antt, Sync/Capabilities.antt: `services/sync.py`;
--     proofs in the other files below Sync. Store/ModelCache.antt and Store/Queries.antt: the
--     table of the synced models and the queries of `db/database.py`, in which the `LIKE`
--     and the `ORDER BY` of SQLite are parameters.
--   * Web.antt, Web/Tokens.antt, Web/Login.antt and Web/Keys.antt: of `webapp.py`, the middleware, the
--     tokens, the login, and the handlers that change keys; Web/Settings.antt: the settings at the
--     console, over Settings.antt, `config/settings.py`. Proofs in Web/Lifetime.antt,
--     Web/Limited.antt, Web/Removed.antt and Web/Saved.antt.
--   * Usage.antt: `services/usage.py`. Json.antt: the values of `json.loads`.
--   * Constants.antt: `config/constants.py`. Base.antt and its children are helpers. Tests.antt and
--     its children are runs on concrete data.
--
-- How the model stands to the code. A method that changes its object is a function from the state
-- to the state and the result. Names and functions are those of the source, without a leading
-- underscore. Counters, times and sizes are natural numbers; the settings that may be negative are
-- integers. Keys are shared objects in the source: a change of a cached key is a change of the
-- entry of its id. Floats are an interface (Base/Floats.antt) of which only the order and the
-- rounding of two products are assumed; the JSON printer, SHA-256, the ciphers, the clocks, the
-- random numbers and the answers of the upstream are arguments. `lower` and `strip` are those of
-- the ASCII characters. The cost of a row of statistics is in millionths of a dollar,
-- where the table has a floating point number; nothing is proved of sums of costs. The cache is
-- that of settings that are not negative. What is stated of the additional keys of the gateway
-- holds in one process: the others read a change up to five seconds later.
--
-- The only bound is that of the failover loop, which the source has itself: at most three rounds,
-- and at most as many as there are keys. Every other loop is a recursion on a list.
--
-- A sync pulls the models of its keys at the same time; each pull merges its models in one go once
-- its answer is there, so that a run is a list of the keys in the order of their answers. The end of
-- a stream is a step of its own, `finish_stream`, behind the reply.
--
-- Not modelled: the console's handlers for new keys, trends, exports and backups (`webapp.py`),
-- the health probe, webhooks, the connection pools of httpx (`providers/upstream.py`),
-- encryption (`crypto/aes.py`), the processes and tasks of `main.py` but its `load_settings`,
-- and of `gateway.py` the contents of the status pages and the collection of a stream's usage.
-- These are input and output, foreign packages, or parts that stand beside the ones above.
pub mod Base
pub mod Constants
pub mod Keys
pub mod Store
pub mod Balancer
pub mod Limiter
pub mod Cache
pub mod Providers
pub mod Pricing
pub mod Quota
pub mod Gateway
pub mod Json
pub mod Usage
pub mod Settings
pub mod Sync
pub mod Web
pub mod Tests
