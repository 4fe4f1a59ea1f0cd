-- ===== src/Lib.antt =====
-- A verification library for untangle: the deterministic core that reconciles bank credits against
-- Razorpay settlements, and the access control around it.
--
-- The program. Each bank line gets a rail from weighted evidence that ties it to the settlement
-- report (engine/attribute.py, with engine/evidence.py, engine/packs.py, engine/challenger.py and
-- engine/rules.py); credits that compete for settlements may be assigned jointly
-- (engine/solver.py). Bank credits that are attributed to Razorpay are reconciled to the
-- settlements of a report (engine/reconcile.py), through a bounded subset-sum search
-- (engine/bounded_subsets.py). A reconciliation names the physical rows that it covers; all
-- accounting built on it resolves these names again (engine/covered.py), such as the GST on fees
-- (engine/feegst.py) and the vouchers of the journal (engine/journal.py). The merchant's ledger of
-- orders is checked against the covered rows (engine/ledger.py), and the steps of a run are kept
-- in a chain of digests (engine/audit.py). A run is carried out by a worker that claims it as a
-- job (persistence/repositories/job.py); a repeated request gets the answer of the first
-- (persistence/repositories/idempotency.py). Who may start and certify a run is decided by roles
-- (persistence/context.py, auth/permissions.py).
--
-- The files.
-- - Base and its children: the library's names passed on; integers (Base/Int), keys with dicts and
--   sets in insertion order (Base/Keys), loops with an early return and raising functions
--   (Base/Flow).
-- - Models: engine/models.py, the records of the engine.
-- - Subsets: engine/bounded_subsets.py. Subsets/Defs is find_bounded_subsets, with the two loops
--   as `search` and the body of the inner one as `examine`; Subsets/Legacy is find_legacy_subsets.
--   Subsets/Combinations describes itertools.combinations by sublists, Subsets/Distinct which ids
--   a subset may count twice; Subsets/Exact and Subsets/LegacySound have the proofs. The legacy
--   search may return three ids of which the third is the first again, and what reconcile and
--   attribute build on it inherits this: see `Repeats` and `Counted` in Subsets/Distinct.
-- - Covered: engine/covered.py. Covered/Canonical is about canonical_row_ids and its inverse view,
--   Covered/Resolve about resolve_covered_rows_by_id.
-- - FeeGst: engine/feegst.py, and FeeGst/Total what its total is made of.
-- - Reconcile: engine/reconcile.py. Reconcile/Index is the constructor of SettlementIndex,
--   Reconcile/Defs the coverage of one credit (amount_or_setsum_sids, _make_result),
--   Reconcile/Passes the function reconcile: the slice of attributions is a list of keys with
--   their lines, each pass and the classification a recursion on it. Reconcile/IndexLaws,
--   Coverage, Total, Claims, Safety, Outcome, Duplicates, Contested and Slice have the proofs.
-- - Attribution: the rail of every line. Attribution/Evidence, Packs and Signals are
--   engine/evidence.py and engine/packs.py, Combine and Setsum the scores and sums of
--   engine/attribute.py, Challenger engine/challenger.py, Line attribute_line with
--   _finalize_razorpay, Splits reconstruct_splits, Rules engine/rules.py, Pipeline attribute_all.
--   Tie, SetsumSound, Scores, Gate, Total, LineKeys, IndexAgree, SplitLegs, SplitUnique, Lifted,
--   RuleLaws, Challenges, Runs and Proven have the proofs.
-- - Solver: engine/solver.py. Solver/Graph has its records and the order of costs, Search
--   _solve_component, Assign solve_assignment. Induct, Fuel, Costs, Searches, Optimal and Plans
--   have the proofs on one component, Contested, Binding and Exclusive those on all of them.
-- - Journal: engine/journal.py. Journal/Defs is build_journal_entries and what to_tally_xml makes
--   of its vouchers, Journal/Escape _xml_escape; Balance and Waterfall have the proofs.
-- - Ledger: engine/ledger.py. Ledger/Defs is reconcile_ledger, in two halves: proven_slice has its
--   indices, discrepancies and emit its checks and exceptions. Ledger/Classes, Reports and Recall
--   have the proofs.
-- - Audit: engine/audit.py, with the proofs in Audit/Chain.
-- - Jobs: the lifecycle of reconciliation jobs. Jobs/Defs has the tables and CHECK constraints of
--   persistence/models.py (`commit` refuses a table that violates them), Jobs/Repository the
--   operations of persistence/repositories/job.py (on the SQLite side where it branches on the
--   dialect), Jobs/Functions the fn_job_ functions of
--   migrations/versions/0003_reconciliation_jobs_and_storage.py. Jobs/Health has the invariant,
--   Rows, Commits, Fencing, Final and Emulation the proofs.
-- - Idempotency: persistence/repositories/idempotency.py, with the proofs in Idempotency/Replay,
--   Uniqueness and Outcome. The constraints of its table other than the unique key are a
--   parameter.
-- - Access: persistence/context.py (Access/Roles, Access/Context) and auth/permissions.py
--   (Access/Permissions), with the guarantees in Access/Hierarchy.
-- - Fixtures and the modules named Tests: data, runs, and the results at concrete inputs.
--
-- How the code is modelled. Python ints are the integers of Base/Int and unbounded; a count that
-- the code has checked to be no less than zero goes on as a natural number. Texts are native
-- strings, compared by code points. A dict is an association list in insertion order, a set a list
-- without repetition in order of first insertion. A date is the number of its day; a datetime is
-- naive. An object's identity is a number beside its contents. Raising functions return a Result,
-- and each error constructor stands for one message. Loops are recursions on the list that they go
-- through, without fuel, but for the search of the solver: it counts its steps up to a limit, and
-- fuel one above that limit is enough. The tests on types that Python makes at run time hold by
-- typing.
--
-- A database is a record of tables, a table a list of rows, an operation a function from the
-- database to the next one; the clock, the tokens and the ids that it draws are arguments. A
-- transaction is atomic, so operations happen one after the other.
--
-- What is a parameter. The lower-case UTR tokens of a bank line (a regular expression over its
-- text) and str.lower; in the ledger check, str.strip with str.lower. The digest of an audit entry
-- (hashlib over JSON), in one theorem with the hypothesis that it has no collisions. The digest of
-- a row (hashlib) with its occurrence, as a function from the row's signature and a number to a
-- text; that no two rows of a report collide is a hypothesis where it is used. Floats are values
-- of a type parameter with their operations (Base/Floats); where an order of them is needed it is
-- a hypothesis, which holds of floats that are no NaN. The regular expressions, the Unicode
-- normalisation and the str methods that evidence is read with are the fields of
-- Attribution/Texts.
--
-- What is not modelled: the construction of the graph of the solver and the branch of
-- attribute_all on global_solver, input parsing, the texts of exceptions and reports,
-- certificates, the rest of the database layer and the web application, as listed in the project's
-- manifest.
pub mod Access
pub mod Attribution
pub mod Audit
pub mod Base
pub mod Covered
pub mod FeeGst
pub mod Fixtures
pub mod Idempotency
pub mod Jobs
pub mod Journal
pub mod Ledger
pub mod Models
pub mod Reconcile
pub mod Solver
pub mod Subsets
