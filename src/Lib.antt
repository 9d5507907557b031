-- ===== src/Lib.antt =====
-- Local AI Server: a verification library for the Python services of the repository.
--
-- One machine has one GPU. The arbiter (arbiter/) decides which job holds it; the proxy (proxy/)
-- asks it for the card on behalf of LLM requests and gives the card back when it is idle; the
-- trainer (lora-training/) asks with a low rank and expects to be killed. The Discord bot
-- (discord-bot/) sends its requests through the proxy and looks old messages up in the RAG
-- service (rag/), which cuts the archive that the history service (history-service/) keeps.
--
-- The files:
--   Prelude          shared names: tests on numbers and texts, lists, dictionaries, integers,
--                    results, texts by code points, sorting, and (Words) str methods such as
--                    strip and split.
--   Arbiter          Config is arbiter/config.py (JobConfig, load_jobs) on parsed YAML.
--                    Reclaimers is arbiter/reclaimers.py, the three classes as one record with a
--                    kind. Scheduler.State, Scheduler.Acquire and Scheduler.Reap are the state
--                    and the methods acquire, release, _job_for and reap of arbiter/scheduler.py.
--                    The other modules below Scheduler hold proofs and are named for them.
--   Proxy            State is proxy/state.py; Client reads a reply of the arbiter as
--                    ArbiterClient.acquire of proxy/arbiter.py does; Requests is the swappable
--                    path of `proxy` and `_forward` in proxy/main.py, as events; Evictor is
--                    _idle_evictor and _unload_resident_models.
--   Trainer          Checkpoints is lora-training/checkpoints.py; Supervisor is the loop `run` of
--                    lora-training/supervisor.py, as the trace of its calls. Dataset is
--                    lora-training/build_dataset.py: Dataset.Turns its _turns, Dataset.Targets the
--                    choice of the examples and their contexts, Dataset.Timelines the channels,
--                    build_examples and split_by_time. Merging, Contexts and Counters hold proofs.
--   Bot              RateLimiter is discord-bot/rate_limiter.py; Session and SessionStore are
--                    discord-bot/lore/session.py, Session with _compact_session of
--                    discord-bot/lore/compaction.py. Agent holds the /lore agent:
--                    Agent.Research is discord-bot/lore/research.py, Agent.Metrics the counters
--                    of lore/metrics.py, Agent.Condensing and Agent.Upkeep compact_tool_rounds
--                    and maybe_compact_session of lore/compaction.py, and Agent.Rounds, Agent.Run
--                    and Agent.Turn are _run_tool_rounds, run_agent_loop, and run_lore_turn with
--                    seed_session_from_run of lore/agent.py. The other modules of Agent hold
--                    proofs. Formatters is the splitting of discord-bot/formatters.py,
--                    Conversation is discord-bot/history.py, Registry
--                    discord-bot/thread_registry.py.
--   Rag              Chunking is chunk_by_conversation of rag/ingest.py, Rendering its
--                    format_chunk_text and _build_metadata, Loading its load_archive,
--                    embed_and_upsert and run_ingest. Filters, Parsing, Context, Search and
--                    Aggregate are rag/retrieve.py: the where-clauses, _parse_chunk_messages,
--                    build_lore_context, search_literal and aggregate_stats. Lines are the str
--                    methods that these use on texts by code points.
--   History          Archive and Refresh are history-service/jsonl_store.py, Refresh its
--                    refresh_fields and get_pending_captions; Channels is
--                    history-service/channel_state.py, Exports history-service/dce_parser.py.
-- The modules Examples run the definitions on concrete inputs.
--
-- Conventions. State is passed explicitly. An operation returns its answer and the state after
-- it. What the code asks of the outside is an argument: the replies of Docker, of the GPU driver,
-- of the router and of the arbiter, the clock, and which other calls arrive at an `await`. In
-- `acquire` these are the fields of `Env`; `release` calls that arrive while it waits are part of
-- it, and a dictionary that changes its size under the loop ends the call by an exception, as in
-- Python. Docker's answer for a container is one for the whole call, so that a container that comes
-- up or goes down between two awaits of it is not described, and Docker gives an answer; the names
-- that the scheduler learns are kept with its reclaimers. A request of the proxy is a sequence of events, one for each stretch between two
-- awaits, and the requests interleave in any order. Python's asyncio runs one such stretch
-- without a switch. Times are natural numbers of any unit; memory and priorities are integers.
--
-- The agent meets a `World`: the n-th reply of the model or its error, the result of the n-th
-- search, and the n-th summary; the streamed answers are functions of the messages sent. A message
-- object that stands in two lists has one identity in both, as `id` gives it in Python. The JSON of
-- tool calls, sorted dumps and the digest of an excerpt are the fields of a `Library`; the prompts'
-- texts are given. The arguments of a tool call are a JSON object or no JSON, and a request raises
-- nothing but a ProxyError; the code lets other ends escape, which are not described. Thresholds in percent are compared by products of whole numbers. The rounds of
-- the agent recur on the rounds that are left, which is its own bound.
--
-- The retrieval takes ChromaDB as a `Collection` that is reached or not and answers a query or
-- raises, and Python's casefold, regular expressions, repr and dates as the fields of a `Library`.
-- Its limits are not negative, its times are seconds from 1970 on that a date can show, its metadata
-- has the types that the ingest writes, and the time stamps of an archive all have a zone or all
-- have none. Names of checkpoints have ASCII digits, and a directory that is removed is gone. A file
-- of the archive is a list of lines, each with its end; the fields that a refresh lists hold texts
-- and are neither the id nor the attachments. An export names its files in their order, and its
-- lists and ids are no nulls.
--
-- Loops that wait for a deadline run over the list of readings that they get before it, which is
-- finite because each turn sleeps. The loop of build_lore_embeds has the length of the text as its
-- fuel, which is enough since every turn takes a character, and the batches of embed_and_upsert
-- have the number of chunks, since every batch takes one; there is no other bound and no fuel.
-- Python's numbers do not overflow, and neither do those here.
--
-- Not modelled: HTTP routes and clients beyond what is listed, Docker's socket and nvidia-smi,
-- Discord, the clients of models and the prompts' texts, the tools of the agent
-- (discord-bot/lore/tools.py), times and lists of names in its metrics, training and export,
-- ChromaDB and the embedding model behind rag/, and writing files. These are input and output, third-party code,
-- or components for which no module exists.
pub mod Prelude
pub mod Arbiter
pub mod Proxy
pub mod Trainer
pub mod Bot
pub mod Rag
pub mod History
