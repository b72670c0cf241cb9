-- ===== src/Lib.antt =====
-- CiteDelta answers questions about a regulation as it stood on a date. It ingests the versions of
-- each section, indexes their chunks, retrieves those in force on the date, lets a model draft an
-- answer, and shows the answer only if each of its citations is verified. Two packages make it up:
-- packages/citedelta, the product, and packages/substrate, which has what any service needs: a job
-- queue in PostgreSQL, retry timing and the port to the model.
--
-- Paths below are from the repository's root; `citedelta/` stands for
-- packages/citedelta/src/citedelta/ and `substrate/` for packages/substrate/src/substrate/.
--
-- The parts, their files and the code they are about:
--   Answer/Models.antt      citedelta/answer/models.py, with the trace of retrieve.py and fusion.py
--   Answer/Gate.antt        citedelta/answer/gate.py, `pre_flight`
--   Answer/Prompt.antt      citedelta/answer/prompt.py, `build_user_message`
--   Answer/Rerank.antt      citedelta/answer/rerank.py, `PassthroughReranker`
--   Answer/Payload.antt     citedelta/answer/service.py, the reading of the model's JSON
--   Answer/Validator.antt   citedelta/answer/validator.py, `validate_citations`
--   Answer/Service.antt     citedelta/answer/service.py, `AnswerService.answer`
--   Answer/Resolve.antt     citedelta/answer/resolve.py, `resolve_followup`
--   Temporal.antt           citedelta/temporal.py, `AsOf` and `AdmissibleSet`
--   Ecfr/Models.antt        citedelta/ecfr/models.py
--   Ecfr/Timeline.antt      citedelta/ecfr/timeline.py
--   Eval/Graders.antt       citedelta/eval/graders.py
--   Web/Transcript.antt     citedelta/web/transcript.py
--   Index/Varint.antt       citedelta/index/varint.py
--   Index/Postings.antt     citedelta/index/lexical.py, the postings of a term
--   Index/Vector.antt       citedelta/index/vector.py, and what an exact search promises
--   Index/Brute.antt        citedelta/index/brute.py
--   Index/Hnsw.antt         citedelta/index/hnsw.py: `search`; Index/Hnsw/Layer.antt `_search_layer`,
--                           Index/Hnsw/Neighbours.antt `_select_neighbours`, Index/Hnsw/Saved.antt
--                           `save` and `load`
--   Index/Ivf.antt          citedelta/index/ivf.py: the search; Index/Ivf/Build.antt `build`
--   Retrieve.antt           citedelta/fusion.py and citedelta/retrieve.py
--   Store/Corpus.antt       citedelta/store/corpus.py, with the tables of
--                           alembic/versions/6e4bc42d9a10_corpus_bitemporal_sections_and_chunks.py
--   Store/Ingest.antt       citedelta/ingest.py, the handler of a snapshot
--   Substrate/Pricing.antt  substrate/llm/pricing.py
--   Substrate/Resilience.antt  substrate/resilience.py, `full_jitter_delay`
--   Substrate/Queue.antt    substrate/queue/queue.py and models.py, with the table `jobs` of
--                           alembic/versions/94fa233b236b_substrate_durable_job_queue.py
--   Substrate/Worker.antt   substrate/queue/worker.py, one slot of a worker
--   Substrate/Adapters.antt substrate/llm/anthropic_adapter.py and openrouter_adapter.py
--   Text.antt, Prelude.antt Python's strings and dictionaries, and what all files share
-- The child modules of a part hold its lemmas and are named for what they are about; the modules
-- named Examples hold the tests.
--
-- How the code is modelled:
-- * `answer` is a function from the service's collaborators and the arguments of a call to the
--   phases and requests in their order and the way the call ends: a result, the provider's error,
--   a KeyError of `by_id[i]`, or the OverflowError of an infinite id. The model (`complete`), the
--   reranker, `classify`, `json.loads`, `str` of a value that is no string and `int` of a string are
--   parameters, of which nothing is assumed. A JSON number is an integer or a floating-point number,
--   which may be infinite; texts nested beyond Python's recursion limit are left out. The clock is
--   read once, when the call returns.
-- * Money is a number of millionths of a dollar, a fused score a number of units of 1e-12, a date
--   its ordinal, an instant and a duration a number of ticks. Text is a list of code points.
-- * A dictionary is the list of its pairs in insertion order, one for each key.
-- * The queue's table is the list of its rows and the next value of the identity column. Each
--   statement of queue.py is one atomic step with its time as an argument, and `run` is any sequence
--   of such steps, by any number of queues and workers, with the clocks in any order. Rows that a
--   concurrent statement holds, which SKIP LOCKED steps past, are an argument of the claim.
--   `ORDER BY … LIMIT` is an insertion sort and `take`; where the order leaves rows tied, the model
--   takes the earlier row. `enqueue_many` is one transaction, and its statements do not fail.
--   A job's counters have no upper bound in the model; PostgreSQL would refuse an overflow.
-- * A slot of a worker runs a list of rounds, each of which says what others do before the claim and
--   between the heartbeats and before the report, when each call runs, and whether the worker is
--   stopping. A handler finishes, raises an Exception or is interrupted, which ends the slot. How
--   long a slot sleeps shows only in those times.
-- * `resolve_followup` takes the model, the JSON library and the reading and printing of ISO dates as
--   parameters, and so does `grade` the reading of dates, whose `ValueError` it passes on.
-- * Rates count cents per million tokens; a price is exact until it is rounded, half to even.
--   Decimal's context of 28 digits rounds no product of a realistic usage.
-- * A buffer is a list of bytes, numbers below 256; reading past its end is `none`.
-- * `full_jitter_delay` computes over whole ticks; the random draw is a parameter.
--
-- * A distance between vectors is a number that orders as the 32-bit floats do, and how it comes about
--   is a parameter. numpy's argpartition is a parameter with its documentation as the hypothesis. A
--   heap is the sorted list of its entries, so what is popped is the first. A mask has a flag for
--   each row of its index, and row numbers stay below the size.
-- * The corpus' tables are lists of rows with their constraints; a statement that a constraint refuses
--   is `none`, and so is a handler that fails, whose transaction leaves no trace. Identity values are
--   used up by conflicts, as PostgreSQL does. SHA-256, LIKE and the collation are parameters, and the
--   handler takes the parsed snapshot.
-- * The hybrid search takes its two indexes through an interface: a filter compiled from ids, and a
--   search under it, of which nothing is assumed. The arithmetic of the fused
--   scores is a parameter.
-- * A provider's adapter takes how each call goes, and the delay before the next, as parameters; the
--   events of a completion are its calls and its sleeps.
--
-- Three loops run on fuel: the printing of a number and the writing of a varint have as much as the
-- number's value, which a division by ten, or by 128, makes less as long as the loop goes on; the
-- search of a layer has one unit for each entry point and each row, since a pair enters its heap only
-- with a row that was not visited before.
--
-- What is not modelled: the dictionary and the scores of the lexical index; building the graph
-- index (`_insert` and `_repair_connectivity`), the PostgreSQL indexes and k-means, which the
-- inverted file has as a parameter that assigns each vector to one of its centroids; the planning
-- of an ingestion; the pages and the API; the benchmarks, the command line and the configuration,
-- which come to floating point or to a framework's calls; the eCFR client and its XML parser, which
-- are calls of libraries; and logging. The greeting pattern is a regular expression and is a
-- parameter.
pub mod Prelude
pub mod Text
pub mod Temporal
pub mod Answer
pub mod Store
pub mod Substrate
pub mod Ecfr
pub mod Eval
pub mod Web
pub mod Index
pub mod Retrieve
