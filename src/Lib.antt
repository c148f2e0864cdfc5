-- ===== src/Lib.antt =====
-- RepoGuard reviews committed Git changes and proposes repairs. Its Python package is
-- src/repoguard; this library models the parts of it that decide.
--
-- The parts, and how they work together:
--   * The evidence of a review is collected from the output of Git (_git.py) and never changes
--     (evidence.py). Every other part reads it.
--   * The deterministic review (_review.py, review.py) validates a bundle of evidence, runs six
--     rules over it and puts what they find in a canonical form.
--   * The agent review (_agent.py, agent.py, with the targets and redactions of _prompt.py and the requests of
--     providers.py) is a graph of nodes: it validates the evidence on its own terms, calls the
--     deterministic review, renders a prompt, asks a provider up to three times, reads the answer
--     against the targets of the evidence, and merges both sources of findings.
--   * A repair is a patch in a closed subset of the unified diff format (_repair_patch.py), over
--     paths that are safe in a repository (_repair_paths.py). A repair session (the records of
--     repair.py, with their JSON mappings in _repair_models.py) is kept as a directory of event
--     files, each with the digest of the one before it (_repair_store.py): its state is what the
--     files load to, and every change of it appends one file.
--
-- The files:
--   * Base and its children: tests, lists, errors as values, orders and the stable sort.
--   * Text: `str` as a list of code points, and UTF-8. A `str` may hold surrogates.
--   * Evidence: the data classes of evidence.py.
--   * Review: the data classes of review.py. Review/Validate is `_validate_bundle`, with
--     `validate_bundle`, `validate_change` and `validate_addition` for its loops; Review/Markers
--     the three patterns of markers; Review/Additions `_addition_lines`; Review/Pairs the queues of
--     the private-key and the merge-conflict rule; Review/Texts `_text_finding`, `_file_finding`
--     and the texts of the rules; Review/Rules the six rules; Review/Canonical the sort keys and
--     `_canonicalize_findings`; Review/Engine the catalog and `_review_evidence`.
--   * Agent: the types of agent.py. Agent/Context is `_validate_context_evidence`; Agent/Provider
--     the provider's types and `_validate_configuration`; Agent/Attempts `_invoke_provider_node`,
--     `_provider_route` and their cycle; Agent/Targets `_reference_targets`; Agent/Json the values
--     and hooks of json.loads; Agent/Reference `_parse_model_reference`; Agent/Response
--     `_parse_model_findings`; Agent/Merge `_merge_findings_node`; Agent/Prompt the redaction
--     of private keys and the data of the prompt, `user_data`; Agent/Workflow the other nodes and the
--     graph, `review_with_agent`.
--   * Repair/Paths: `_validate_repository_path`, `_canonical_repository_paths`. Repair/Patch: the
--     parser `_parse_wire_patch` from its lines (Lines) over headers (Header), bodies of hunks
--     (Body) and hunks (Hunks) to files (Files).
--   * Repair/Codes: the error codes and the stages of repair.py. Repair/Records: its states and its
--     records; Checks and Shape what `__post_init__` and `_validate_snapshot_shape` demand, Write
--     and Read the mappings `.._to_dict` and `_.._from_dict`, Exact what a mapping is read with.
--   * Repair/Session: the kinds of events and the transition tables. Lease is
--     `_ValidationRunLease`; Updates `_snapshot_update_is_valid`,
--     `_validation_run_update_is_valid` and `_candidate_preview_update_is_valid`; Digests
--     `_snapshot_record_digests_are_valid`; Event `_event_mapping` and `_validate_event_mapping`;
--     Chain `_load_event_chain`; Append `append`.
--   * Collection: the errors and the budget of _git.py. Collection/Raw is `_parse_raw_changes`,
--     Collection/Hunks `_parse_hunks`, and Collection/Materialize `_materialize_change` with the
--     cache of contents.
--   * The files below a component are about that component; the files named Tests run it on small
--     inputs.
--
-- How the code is written here:
--   * A function that raises returns an `Outcome`; the error is a value with the source's code and,
--     where the source tells them apart, its message. A set or a dictionary that a loop fills is an
--     argument and a result of the loop. A queue is a function of its key.
--   * The six rules are total functions, so that a run of the catalog does not take the way of a rule
--     that raises.
--   * `isinstance` and `type(..) is` are the types of the model. Line numbers, counts and limits
--     are naturals, so the tests that refuse a negative number hold of every value here. A path is
--     its POSIX spelling.
--   * Python's integers have no width, and nothing wraps. `int(text)` refuses more than 4300
--     digits, and so does the model.
--   * Times are whole nanoseconds; the source has floats of seconds. The clock is the sequence of
--     its readings, and nothing is supposed of it, not even that it does not go back.
--   * The loops of the patch parser, which move a cursor, run on fuel: as much as there are lines,
--     since each round of each loop takes one line at least. The cycle of provider calls runs on
--     fuel 3, since a wait is known for attempts 2 and 3 alone. The loop over the records of
--     Git's raw diff has as much fuel as there are fields, and takes two at least in each round.
--   * An event file is its name and the mapping that its bytes hold. The names are in their order,
--     and agree with the source below a sequence of 10 ^ 16, where it begins to write more digits.
--     `TypeError` and `ValueError` of a record are one error, since what calls catches both alike.
--
-- Parameters, for what the source calls and does not hold: the Unicode database that the paths ask
-- (Repair/Unicode); the clock, the provider and json.loads with its two hooks (Agent/Workflow); the
-- clock of the collection (Collection) and what Git answers for a blob or as a patch
-- (Collection/Materialize); SHA-256 and the bytes of canonical JSON (Repair/Session).
-- A parameter too is how the data of the prompt are written as its two messages, which takes
-- the system text, the response schema and the order and the JSON text of `_render_review_prompt`.
-- Nothing is supposed of them but, where a theorem says so, that a digest has 64 lowercase
-- hexadecimal digits, and that the mapping of an event file is read from its canonical bytes, which
-- `_read_canonical_mapping` makes sure of.
--
-- Not modelled: how Git is run for the collection, with the resolution of the worktree and of refs
-- and the limits on a patch (the rest of _git.py), the HTTP adapters of providers.py, retrieval of
-- context (_retrieval*.py), publication to GitHub, and the command line, MCP and product
-- interfaces; of the repair, the workflow, the sandbox, the secret detectors and the work on Git's
-- objects, and of its store the layer of files (locks, temporary files and their removal, the
-- cache of the state) and the publication records. They are input and output to a large part; the
-- state machine of publication and the ranking of retrieved context are not. Also left out are the
-- JSON forms of evidence and reviews, and tracing, callbacks and the prompt's digest in the agent
-- review.
pub mod Base
pub mod Text
pub mod Evidence
pub mod Review
pub mod Repair
pub mod Collection
pub mod Agent
