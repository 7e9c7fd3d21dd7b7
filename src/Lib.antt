-- ===== src/Lib.antt =====
-- RISI: deterministic experiments on retrieval-driven changes of an agent's memory.
--
-- A run is authorized by the safety kernel (src/risi/operator/), is charged to a budget
-- (src/risi/budget.py), drives the reference memory adapter (src/risi/adapters/reference.py), which
-- records every change of its state as a hash-linked event (src/risi/trace.py over the canonical
-- JSON of src/risi/canonical.py), and ends in an assessment by the evaluator (src/risi/evaluator.py,
-- src/risi/craf.py). src/risi/replay.py rebuilds the final state from the events alone.
--
-- The modules:
--   Prelude    Boolean tests, lists over the native numbers, integers, texts, decimal numerals, and
--              Python's exceptions as the values of `Error` (Prelude/Failure).
--   Canonical  src/risi/canonical.py. `Value` is any Python value, `Json` a normalized one; a frozen
--              value is a `Value` with tuples for arrays and read-only mappings for objects.
--              Canonical/Digest has `canonical_sha256`.
--   Models     src/risi/models.py: the records, their `__post_init__` (Models/Checks, `check_...`) and
--              their `to_json` (Models/Encode, `..._json`).
--   Paths      the containment test of relative paths in src/risi/artifacts.py and
--              src/risi/operator/models.py, and how a path is walked.
--   Operator   src/risi/operator/models.py (Limits, Models) and src/risi/operator/safety.py (Safety).
--   Budget     src/risi/budget.py: the ledger, and the report of resource use with its JSON.
--   Trace      src/risi/trace.py: `create_event`, `verify_event`, `verify_trace`. Extension, Tamper
--              and Visibility say what a verified trace is worth.
--   Reference  src/risi/adapters/reference.py. An adapter is the pair of a snapshot and a trace; a
--              method is an `Action`, a function of the adapter that returns a result or an exception
--              beside the adapter it leaves, so that what was written before an exception stays
--              written. `_memory_by_id` is the index of the snapshot's memories.
--   Replay     `_apply_event` and `_replay_events` of src/risi/replay.py.
--   Evaluator  src/risi/evaluator.py.
--   Craf       src/risi/craf.py.
--   Confidentiality  src/risi/confidentiality.py: the views and the oracle, the differences of two
--              states (Differences, compared with Python's `==` in Agreement), the classifier
--              (Assessment), and what its verdicts mean (Signals, Outcomes, Verdict, Recovery).
--   External   src/risi/adapters/external.py: the contract of a target outside, and the interface of
--              an adapter as a record of statements on the state of the target.
--   Campaign   src/risi/campaign.py: the contracts, the authorization (Authorization, Exactness), the
--              run of a world (World), a statement on the target's state that may raise
--              (Prelude/Exec), the preflight, and the campaign (Guards, Execute), whose files are
--              fields of its state. Whether the file that asks for a cancellation is there is a
--              function of the index of the world that is about to start.
--   Health     src/risi/health.py.
--   Artifacts  src/risi/artifacts.py: a bundle directory is a list of files by the segments of their
--              paths; its creation, and its verification (Artifacts/Verification).
--   Runner     src/risi/runner.py: the charges to the budget, and the search for the size of the
--              evidence, on its eight rounds; Convergence says when they are enough.
--   Decision   src/risi/decision.py, with the protocols of src/risi/scenarios.py that it reads.
--   Examples   concrete inputs.
--
-- Conventions. A field that its constructor requires to be nonnegative is a natural number. Retrieval
-- scores, `round(a / b, 12)` in the program, are numbers of units of 10^-12. A Python float is the
-- decimal that `json.dumps` prints. Numerals are printed digit by digit on fuel: the number itself,
-- which is more than its digits. All other recursion is structural.
--
-- Parameters. SHA-256 over the serialized text of a value with its keys in order is `Hasher.sha256`,
-- of which some theorems assume that it returns 64 lowercase hexadecimal digits (`IsHexHasher`), and
-- none that it is injective: a `Collision` is a case of the conclusion. `str.casefold` is a field of
-- `Runtime`.
--
-- `json.dumps` is `Serializer.dumps`, `urlsplit` is `Urls`, `date.fromisoformat` is `Calendar`, PBKDF2
-- is `Verifier`, the bytes of a value and their SHA-256 are `Codec`; nothing is assumed of them.
--
-- Not modelled: input and output (the command line, the file system, HTTPS), the Dify adapter, the
-- replay of bundles beyond the events, the runner beyond its budget, the E2 validation of a
-- campaign, the parsing of scenarios and of run manifests, and the Wilson interval of
-- src/risi/statistics.py, which is floating-point arithmetic.
pub mod Prelude
pub mod Canonical
pub mod Models
pub mod Paths
pub mod Operator
pub mod Budget
pub mod Trace
pub mod Reference
pub mod Replay
pub mod Evaluator
pub mod Craf
pub mod Examples
pub mod Decision
pub mod Confidentiality
pub mod External
pub mod Campaign
pub mod Artifacts
pub mod Runner
pub mod Health
