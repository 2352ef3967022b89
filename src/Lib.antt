-- ===== src/Lib.antt =====
-- A verification library of LLM-AIO-Gateway, a gateway that takes requests in three protocols and
-- sends them to language model providers. It models the gateway's own decisions: which model a key
-- may use, where a request goes, what is tried when an upstream fails, what is made of the
-- history, and what is kept between requests. Paths are from the repository's root.
--
-- The parts and their files. The names of definitions are those of the source without a leading
-- underscore.
--   Prelude, Dict: numbers, texts as code points, Python's == as an instance, and its dict as an
--     association list in the order of insertion.
--   Cache: TTLDict and the image budget of app/core/state.py. A clock reading is an argument of
--     each operation, and an operation under the lock is one step.
--   ThinkCache: the reasoning caches of app/core/state.py, as plain dicts.
--   Messages: the fields of app/core/types.py that the policies read.
--   History, Reasoning: sanitize_tool_history and inject_reasoning_content of app/core/policy.py, as
--     functions from a list of messages to a list.
--   Model: ModelId of app/database.py, wildcard_match of app/core/policy.py, and the allow lists of
--     app/router/proxy.py.
--   Routing: apply_routing_rules and apply_fallback_policy of app/core/policy.py over the rules and
--     policies as app/db/routing.py and app/db/fallback.py return them.
--   Targets: app/services/routing_targets.py. An exception is what the code reads of it, and a chain
--     of causes is a list.
--   Attempts: _call_nonstream_with_fallbacks of app/router/proxy.py. It uses Routing for the
--     decisions, Targets for the candidates and categories, and gives Outcome its details. The
--     upstreams are a parameter with a state, so that each call may answer in another way.
--   Streams: _stream_events_with_fallbacks of app/router/proxy.py over the events of
--     app/core/output.py. A run of an upstream is its events and the failure that ends it; the
--     clocks, the holding back of events, the end of an attempt and the loop over the targets are
--     functions of their own. It shares the Gateway of Attempts.
--   Outcome: the status, the counters and the test for a client that left of app/core/outcome.py.
--   Accounting: stream_internal_output and record_streaming_events of app/core/streaming.py, from the
--     events that the renderer took and the way it stopped to the entries of the log, and
--     increment_global_stats of app/database.py. It takes the events of Streams, and the statuses
--     and the test for a client that left of Outcome. Writes of the log and of the counters succeed.
--   HttpPool: app/services/http_pool.py. Steps of any callers in any order are a relation; a lease
--     is what acquire returned and release was not yet called for.
--   ToolArgs: sanitize_args and StreamingArgsSanitizer of app/core/tool_args.py.
--   Images: ImageInvocationCache of app/core/image_batch.py. A future is a number, and what it is
--     settled to is kept apart from the entries. Claims, results, errors, invalidations and clearings
--     in any order are a relation; the claims that lost an entry in flight are withdrawn there.
--   Merging: normalize_messages of app/core/policy.py, on the roles and the parts of messages.
--   Think: extract_and_strip_think of app/core/think.py, on code points; a position is the rest of
--     the text.
--   Limits: app/core/body_limit.py and apply_output_budget_policy of app/core/policy.py.
--
-- Fuel. Only six loops run on fuel: the primary target's retries with one more than the retry
-- limit, the tries of a target of a streamed request with two more, the repair of a history with
-- the number of its messages, the reclaiming of pool entries with their number, and the two loops
-- over tags with one more than the length of their text. Each round of the last four takes one
-- away. The others recurse on their lists.
--
-- Parameters. The text of a number in an error, the folding of letter case and the classes of
-- characters of Python's re, the lookup of a model's provider in the database, what
-- strip_billing_header leaves of a text, and the calls of upstreams. Numbers are natural numbers:
-- times are ticks, and a setting that is not positive is read as 0 where the code treats it so.
--
-- Not modelled: the SQL, the HTTP endpoints, the adapters and protocol translations, the calls of
-- image services, logging, the reading of a policy's stored targets, the names and raw payloads of
-- messages that merge, and a client that leaves while a stream is passed on.
mod Prelude
pub mod Dict
pub mod Cache
pub mod Messages
pub mod History
pub mod Reasoning
pub mod Model
pub mod Routing
pub mod HttpPool
pub mod Outcome
pub mod Targets
pub mod Attempts
pub mod ToolArgs
pub mod Limits
pub mod ThinkCache
pub mod Streams
pub mod Images
pub mod Merging
pub mod Think
pub mod Accounting
