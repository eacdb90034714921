-- ===== src/Lib.antt =====
-- Agent Global Context: the formal memory of an agent, and the gates in front of it.
--
-- An agent sends requests to the write service (agc_runtime/write_service.py). An observation is parsed
-- strictly (agc_runtime/contracts.py), the policy decides whether it may become a memory
-- (agc_runtime/policy.py), and it is answered, kept as a candidate, or made a memory: a memory is read
-- from markdown (agc_runtime/models.py, agc_runtime/frontmatter.py), validated (agc_runtime/schema.py) and
-- written by the memory store (agc_runtime/store.py). The store keeps one file for each memory, an event
-- log (agc_runtime/events.py) and a registry of the sources that were recorded; a journal and a backup make
-- each change of the three one transaction. After a write the catalog (agc_runtime/catalog.py) is built
-- again.
--
-- Files.
-- - Prelude, Result, Files: names and lemmas that all parts share; Python's exceptions as a result type
--   (Error holds the text of the message and its texts, not its numbers; Class has the classes that the
--   except clauses name, and an exception of any other class, as AttributeError, is an Error too); a
--   directory as an association list.
-- - Utf8: what atomic_write_text of agc_runtime/utf8_io.py does to line ends.
-- - Effects: programs over a disk, in which each call that reads or writes a file takes the next entry
--   of a list of faults: it works, raises OSError, or the process dies in it. With an empty list all
--   calls work. Effects.Runs: how a program ends, with the disks at which it may stop.
--   Effects.Keeps: what a program keeps of the disk. Effects.Raises: what it may raise.
--   Effects.Inversion: what a program that returned did on its way.
-- - Models: the records of agc_runtime/models.py, SourceKey and Status. temporal.type is the field kind.
-- - Value: a decoded JSON value; Value.Strict: _strict_mapping, _string, _string_list and
--   _non_negative_int of agc_runtime/contracts.py. A Python value of another type is `other`.
-- - Contracts: ObservationEnvelope, from_mapping and to_mapping.
-- - Policy: evaluate_observation and validate_transition of agc_runtime/policy.py.
-- - Schema: validate_memory_item of agc_runtime/schema.py; date.fromisoformat is a parameter.
-- - Frontmatter: agc_runtime/frontmatter.py, with PyYAML, strip and rstrip as parameters (Yaml). Markdown:
--   from_markdown and to_markdown of agc_runtime/models.py. A mapping whose keys are not all texts is not
--   a value of the model.
-- - Store.Disk: the files that a mutation touches. Store.Events: append_event, remove_event,
--   event_exists. Store.Receipts: the source registry. Store.Transaction: _begin_transaction,
--   _apply_mutation, _rollback_transaction, _cleanup_transaction, _recover_pending_transactions, and
--   below it the proofs. Store.Methods: create_memory, add_evidence, replace_memory,
--   transition_memory, get_memory. Store.History, Store.Archive, Store.Retry: what mutations bring about one
--   after the other, with an abstract store of texts and a log. Store.Calls: the calls of the four methods
--   one after the other.
-- - Budget, Budget.Methods: agc_runtime/capture_budget.py, the ledger of model tokens: its pools, reservations and
--   settlements. Effects.Meets: what its calls leave behind.
-- - Response: agc_runtime/response_budget.py, the fitting of an overview to its token budget; the
--   length of a response's JSON text is a parameter.
-- - Read: agc_runtime/read_service.py. Read.Service: its handlers and dispatch_read. Its parameter is
--   Reading: the reading of captured observations (agc_runtime/capture_read_service.py), the
--   configuration (agc_runtime/runtime_config.py), and the length of a response's JSON text.
-- - Capture: validate_capture_transition of agc_runtime/capture_contracts.py, and Capture.Life, the chains
--   of its transitions.
-- - Config: _parse_runtime_config of agc_runtime/runtime_config.py. Its parameters (Roots) are pathlib and
--   the identity of a source root (agc_runtime/capture_source.py).
-- - Search: the filters and the loop of a search in agc_runtime/read_service.py, over cards of
--   Catalog; casefold is a parameter.
-- - Catalog: agc_runtime/catalog.py; str of a number and rstrip are parameters.
-- - Review: agc_runtime/capture_review.py, the ids and receipts of reviews of captured observations.
-- - Write: agc_runtime/write_service.py. Write.Candidates: the candidates and their evidence.
--   Write.Handlers: what the handlers share. Write.Observe: _handle_observe. Write.Dispatch: the other
--   handlers. Write.Service: the batch and dispatch_write. Its parameters are the store of reviews
--   (CaptureReviews; agc_runtime/capture_store.py), the services of forgetting (Forgetting;
--   agc_runtime/forget_service.py and agc_runtime/capture_forget_service.py) and Python's library
--   (Surroundings).
-- - Tests: concrete memories, disks and observations.
--
-- What the model takes as given. The methods of the store run one at a time, since they hold the root
-- lock. Each call that reads, replaces or removes a file is one step, and a call that raises has changed
-- nothing: atomic_write_text writes a temporary file and replaces the target. The registry, the
-- journals and the log are typed, so that decoding them does not fail; a file that is not there is an
-- empty list. A memory's path is the pair of its kind and its id. Journals are listed in the order of
-- their directory. The clock, uuid4, SHA-256 and date.fromisoformat are parameters, and so are
-- to_markdown and from_markdown, for which Markdown has the definitions (Platform and Call of Store.Methods). The store of the write service,
-- the candidates and the catalog are one state (World of Write); candidate files and catalog.json are typed.
--
-- Bounds and fuel. The loop of _with_estimate has ten rounds, as in the code. A stage of
-- fit_overview_response has as many rounds as its field has entries, which empties it
-- (Response.Fitting). All other recursion is on lists, texts and values. Python's
-- integers have no bound; the counts are natural numbers.
--
-- Not modelled: the forgetting (agc_runtime/forget_service.py, agc_runtime/forget_transaction.py),
-- the rest of
-- the capture pipeline (agc_runtime/capture_*.py), the metrics (agc_runtime/metrics_*.py) with
-- the measuring around dispatch_write and dispatch_read, migration and backups, the command line, the MCP server and the host
-- adapters. Most of these are file-system, process or text-format glue around the parts above.
pub mod Prelude
pub mod Result
pub mod Files
pub mod Utf8
pub mod Effects
pub mod Models
pub mod Store
pub mod Value
pub mod Contracts
pub mod Policy
pub mod Schema
pub mod Budget
pub mod Response
pub mod Catalog
pub mod Search
pub mod Review
pub mod Write
pub mod Frontmatter
pub mod Markdown
pub mod Read
pub mod Capture
pub mod Config
pub mod Tests
