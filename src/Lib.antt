-- ===== src/Lib.antt =====
-- Briefed's backend (backend/app): a scheduler starts runs, workers read a user's mail, and rules
-- and language models triage it.
--
-- Every fifteen minutes the fan-out (Fanout) asks of each user whether a slot of the schedule is
-- met (Schedule), takes the user's lock and sends one message for each mailbox. A worker splits
-- what it fetched into new, known and changed messages (Dedup); rules decide what they can
-- (Rubric), and a classification (Classify) asks a language model about the rest, through one
-- client (Llm), whose prompts pass through a chain of sanitizers (Redaction). A run that a person
-- starts by hand (ManualRun) passes a limiter first (RateLimit). After each piece of work the
-- handlers ask whether the run has ended (Runs), which sends the jobs that are left and gives back
-- the lock. A job about senders (Unsubscribe) counts the mail of each sender, suggests the ones to
-- leave, and carries out what a List-Unsubscribe header offers. Excerpts of mail are encrypted at
-- rest (Envelope), and the Gmail client is held to a token bucket (Bucket).
--
-- Files and sources, below backend/app:
--   Base        names passed on from the libraries, tests on numbers and texts, lists, dictionaries
--               (`dict` with text keys, in insertion order), results and text search.
--   Tables      db/models.py: rows with the columns that are read or written here, and the tables.
--   Redaction   llm/redaction/types.py and chain.py: RedactionResult, and SanitizerChain as `chain`.
--               Regex: RegexSanitizer, whose `_swap` is the two results that it adds to. Identity:
--               identity.py, and build_default_chain of the package.
--   Llm         llm/client.py and llm/providers/base.py. Breaker: CircuitBreaker. Quota: RateCap.
--               Budget: LLMBudgetGuard, with `record_cost` for `record`. Types: PromptSpec, CallResult,
--               the errors, PromptCallRecord. Prompt: render_prompt. Reidentify: _reidentify_payload.
--               Attempts: _call_provider, `attempt_loop` for its loop. Client: LLMClient.call,
--               `try_chain` for its loop over the providers.
--   RateLimit   core/rate_limit.py: ManualRunRateLimiter.
--   Schedule    core/scheduling.py: is_due and next_slot_utc; Slot: _parse_slot with Python's `int`.
--   Fanout      workers/handlers/fanout.py: run_fanout, release_user_lock, _has_stale_lock; and
--               has_current_legal_consent of core/consent.py.
--   Mail        domain/providers.py: the fields of EmailMessage that are read.
--   Dedup       services/ingestion/dedup.py: classify_incoming.
--   Rubric      services/classification/rubric.py. Clauses: _match_predicate and the checks of a
--               clause. Engine: RuleEngine.evaluate. Texts: the methods of `str` they use.
--   Envelope    core/security.py: EnvelopeCipher, with KMS and AES-GCM as records of operations;
--               content_context of core/content_crypto.py; services/ingestion/content.py.
--   Bucket      services/gmail/ratelimit.py: TokenBucket.
--   Classify    services/classification/pipeline.py: classify_one by stages. Writes: the rows and
--               outcomes of its branches. Repository: ClassificationsRepo.upsert.
--   ManualRun   api/v1/frontend.py: start_manual_run, with the consent, the limiter, the selection of
--               accounts, the lock, and the messages.
--   Runs        services/runs.py. Progress: _progress_snapshot and its counts, each query as a filter
--               of the joined rows. The rest: maybe_finalize_run by stages (`cluster_stage`,
--               `category_stage`, `settle`), stamp_run_membership, mark_run_running and the claims.
--   Unsubscribe services/unsubscribe. Header: parse_list_unsubscribe of parser.py, and the texts that
--               print a list of targets. Executor: executor.py with its checks of a URL's addresses.
--               Senders: aggregate_sender_stats and score_sender of aggregator.py. Suggestions: the
--               repository's upsert. Rank: rank_senders with its borderline calls of the model.
-- A module below a component (Llm/Attempts/Traffic) has proofs about it, and Tests has runs on
-- concrete values and an instance of each result.
--
-- Numbers and time. Every number is a natural number. The monotonic clock and delays of the client
-- are milliseconds, costs micro-dollars, so sums are exact; the limiter counts microseconds, the
-- scheduler seconds since 1970 in UTC, and days are ordinals. A naive datetime is read as UTC by
-- the source, so it is an instant here. Ratios and confidences, which the source rounds to three
-- places, are thousandths, the token bucket's waits are fractions, and the confidence that a model
-- gives a sender, a float, is in millionths. Where the source subtracts instants and compares, the
-- model adds on the other side.
--
-- The world. The client asks clocks, random delays and providers at numbered steps of a state: an
-- answer is a function of the step (`Env`, `Provider`), so any behaviour in time is covered. A
-- provider answers, raises `LLMProviderError`, or raises another exception, which the client does
-- not catch. The state also keeps what the world saw: requests, delays and rows, newest first. The
-- fan-out's queue may refuse a message, which ends the invocation with what was committed so far;
-- the tables are lists of rows. A classification puts the row that the client hands to `log_call`
-- into `prompt_call_log`, from which the progress of runs is counted. A call on a run is one
-- transaction, whose senders take every message; calls in any order, with other work between them,
-- are a relation on states (Runs/Steps).
--
-- Bounds. The retry loop runs on `max_retries + 1` rounds, which is the source's `while attempt <=
-- max_retries`: each round ends the loop or counts one attempt, and no call reaches the assertion
-- after it. The rounds of the loop of `TokenBucket.acquire` are an argument, for which its results
-- hold whatever it is. Every other loop is over a list. Text is walked as ASCII where its case or
-- spaces matter.
--
-- Parameters, for code outside the repository: the providers' HTTP APIs, pydantic's validation of a
-- payload, the zones of tzdata, UUIDs, SQS, KMS, AES-GCM and `os.urandom`, and `json.dumps`. So are
-- Python's regular expressions and `float`, and `str` of a number or a container; and the
-- sanitizers that a chain is given. For a request to unsubscribe they are `urlsplit`, the registry
-- behind `ipaddress`, `getaddrinfo` and the answers over HTTP.
--
-- Not modelled: logging and metrics; failing database calls; concurrent calls of one client; the
-- other routes of the API, the requests of the Gmail client, configuration, migrations, the
-- frontend and the infrastructure, which are input and output or declarations. The summaries and
-- the worker's routing of messages are not modelled either.
pub mod Base
pub mod Tables
pub mod Redaction
pub mod Llm
pub mod RateLimit
pub mod Schedule
pub mod Fanout
pub mod Mail
pub mod Dedup
pub mod Rubric
pub mod Envelope
pub mod Runs
pub mod Classify
pub mod ManualRun
pub mod Bucket
pub mod Unsubscribe
