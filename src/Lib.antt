-- ===== src/Lib.antt =====
-- A verification library for the core of the chat platform (a Flask application written in
-- Python).
--
-- The program's parts and where they are modelled:
-- * context_compressor.py bounds the history of a thread before it goes to a model. `Compressor`
--   has `compress_history` and its helpers; `Compressor/Window` has their theorems.
-- * model_router.py sends a request to one of several providers. `Router/Breaker` is the class
--   `CircuitBreaker`, `Router/Messages` is `build_messages` and the conversions in `_call_gemini`
--   and `_call_anthropic`, `Router/Providers` is the registry, `Router/Retry` is
--   `_call_with_retry` and `Router/Route` is `ModelRouter.route` with the order of the models and
--   the fallback loop.
-- * ai/cost_router.py picks a model by the complexity of the query and the user's budget.
--   `CostRouter/Catalog` has the models and the choice among them, `CostRouter/Score` is
--   `ComplexityScorer.score`, `CostRouter/Budget` the budgets in Redis and in memory,
--   `CostRouter/Choice` is `CostRouter.route` and `deduct_cost`, and `CostRouter/Api` fills the
--   interface through which the model router uses it.
-- * redis_client.py has the client of Redis that the others share. `RedisClient` is
--   `SyncRedisClient`, over the interface of a server and its driver in `RedisClient/Server`.
-- * rate_limiter.py limits the requests of users and addresses. `RateLimiter/Bucket` is the Lua
--   script and `_check_rate_limit`, `RateLimiter/Decorator` the decorator `rate_limit`,
--   `RateLimiter/Admin` the overrides and blocked addresses, `RateLimiter/Limits` and
--   `RateLimiter/Caller` the limits and the keys.
-- * security/jwt_blacklist.py revokes tokens. `Blacklist` has the revocations and the checks, over
--   the store of `Blacklist/Store`; `Blacklist/Laws` has their theorems, and `Blacklist/Upkeep` is the
--   cleanup of a user's set and the health check.
-- * auth_middleware.py finds out who a request comes from. `Auth` has the users, the keys and the
--   reasons of a refusal (with the methods of database.py that it asks), `Auth/Resolve` is
--   `_resolve_user_from_request`, which asks the blacklist about a token, `Auth/Guards` has the
--   decorators, `Auth/Session` the start and the end of a session, and `Auth/Tokens` the claims of
--   tokens.
-- * webhook_handler.py receives events. `Webhook/Events` is `_is_event_processed`,
--   `Webhook/Stripe` the endpoint of Stripe with the handlers of its events, and `Webhook/Chat`
--   has the other endpoints.
-- * agent_tools.py has the tools of the agents. `Tools/Limit` is `_check_rate_limit`,
--   `Tools/Registry` the rest of `ToolRegistry` with its table of tools, and `Tools/Calls` is
--   `parse_tool_calls`, `parse_openai_tool_calls` and `_parse_params`. Of the tools `Tools/Calculator` is
--   `_calculator`, `Tools/Web` is `_web_search` with `_wikipedia_lookup` and `_weather` below it, and
--   `Tools/Local` has those that need no network.
-- * background_tasks.py has the tasks of the workers. `Lock` is `RedisLock`, `Tasks/Delivery` is
--   `deliver_webhook`, `Tasks/Documents` is `process_document_upload` (`Tasks/Documents/Chunks` has its theorems), `Tasks/Rag` is
--   `rebuild_rag_index`, under a lock, and `Tasks/Upkeep` has the other tasks but the weekly reports.
-- * agent_loop.py has the agents. `Agent/Prompts` has the prompts and the signals of completion,
--   `Agent/Run` the state of an agent and its memory, and `Agent/Run/Loop` is `run` with the calls
--   of the model, of the tools and of the analytics; the modules below it have their theorems. An
--   agent calls the tools through the registry, whose state is a part of its own.
--   `Agent/Orchestrator` is the class `MultiAgentOrchestrator`.
-- * ai/reranker.py ranks documents for a query. `Reranker` has the documents and the loading of
--   the model, `Reranker/Ranked` is `rerank_detailed` with what it calls, and `Reranker/Fusion` is
--   `rerank_with_fusion` and `Reranker/Instance` the one reranker of the program.
-- * ai/semantic_cache.py keeps answers of the models. `Cache/Exact` is its level of exact matches
--   in Redis, `Cache/Semantic` that of similar queries in the vector database with the
--   embeddings, and `Cache/Lookup` the class `SemanticCache` with what it does over both.
-- * security/prompt_injection.py judges what users write. `Injection/Table` has the patterns,
--   `Injection/Detect` the loop, the analysis and the check, `Injection/Heuristics` the further
--   checks and `Injection/Sanitize` is `sanitize_prompt`.
-- * security/pii_redactor.py takes personal data out of texts. `Pii/Table` has the patterns,
--   `Pii/Redact` the functions on texts and dicts and `Pii/Logs` the filter of the log.
-- * websocket_handler.py has the sockets. `Sockets/Connection` is `ws_auth_required`, over the
--   tokens and users of `Auth`, `Sockets/Streams` the registry of streams and `Sockets/Handlers`
--   the handlers of the events.
-- * long_term_memory.py keeps memories of users, over the table of database.py and the vector
--   database. `Memory/Service` stores them, `Memory/Recall` recalls them, `Memory/Prompt` is
--   `format_memories_for_prompt` and `Memory/Upkeep` the profile, the decay, the deletion and the
--   counts.
-- `Base` holds what the parts share: Boolean tests, lists measured by native numbers, dicts as
-- association lists, texts as lists of code points with `strip` and the printing of counts, and
-- the stable sort in descending order.
--
-- Conventions: a state that the program mutates is an argument and a result. An exception is a
-- constructor of the result. A reading of the clock is a number of microseconds; the differences
-- of two readings stop at 0, so a clock that runs backwards is not modelled. Code outside the
-- repository (provider calls, the clock, sleeping) is a parameter, the record `Env`; the cost
-- router is reached through the record `CostApi`. Log lines and usage logging are left out.
-- Money is in nano-dollars, a quality or complexity in hundredths, where the source has floats.
-- Redis is a parameter, the records `RedisServer` and `TokenStore`; what is relied on of it is
-- said in the records `IsDown`, `Live`, `SortedSets` and `Reached`. That Redis lets a set expire
-- after its window is left out, since what it removes then counts no more. A database that fails
-- raises at the first statement of a session; a commit that fails at its end is modelled for the decay
-- of memories, whose report does not depend on it, and for no other session.
-- Fuel is needed by `decimal`, which takes the number plus one and finds one digit for each, by the
-- batches of the reranker, whose fuel is the number of pairs, since a batch takes one at least, by the
-- chunks of a document, for which one more than the words is enough, and by the sweep of the sessions,
-- whose number of pages Redis decides. The loop of an agent goes down from the number of its iterations. What is
-- not in the repository is a parameter of these parts too: the records `Host` (the clock, the
-- model router as an agent sees it, the callback), `Syntax` (regular expressions and JSON) and
-- `Encoder` (the library of the cross encoders, with the arithmetic of scores), `Libraries` (JWT,
-- bcrypt and SHA-256), `Crypto` and `Asking` (signatures of webhooks, and the model router as they
-- see it), `Rules` and `Regexes` (regular expressions and Unicode tables, of which `SubsOnly` and `KeepsAscii`
-- are relied on), `Codec`, `VectorStore` and
-- `Embedding` (JSON and hashing, the vector database and the embedding model of the cache) and `Outside`
-- (the same for the memories), `Python`, `Network`, `Calendar`, `Floats` and `Formatter` (numbers and
-- the parser, servers, dates, floats and JSON as the tools use them), `IsCelery`, `Sender`, `Files` and
-- `Collections` (retries, the network, files and the vector database as the tasks use them).
-- Not modelled: the other parts of the application (its handlers, most of the database, the
-- audit log, analytics, settings), and what the parts above only log
-- or list.
pub mod Base
pub mod Compressor
pub mod Router
pub mod RedisClient
pub mod CostRouter
pub mod RateLimiter
pub mod Blacklist
pub mod Lock
pub mod Webhook
pub mod Tools
pub mod Tasks
pub mod Agent
pub mod Reranker
pub mod Auth
pub mod Injection
pub mod Pii
pub mod Cache
pub mod Sockets
pub mod Memory
