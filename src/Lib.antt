-- ===== src/Lib.antt =====
-- Trilith stores what agents should remember, per tenant, in one SQLite database, decides who may
-- see which item, and hands callers the items that fit their budget. This library models the core
-- of that program and proves what makes it correct.
--
-- Parts, and the files that model them. core/identity.py (Identity) says who is asking;
-- core/privacy.py (Privacy) decides what a principal sees; core/auth.py (Auth) turns an API key
-- into a principal; core/sqlite_backend.py (Database) holds the tables: Database/Cascade has the
-- DELETE statement with its triggers, Database/Backend the other statements, Database/Search the
-- paged search, Database/Migration the migration of an older table, and the modules below
-- Database what they keep. core/audit.py (Audit) writes decisions to the same database;
-- core/events.py (Events) is the bounded log in memory; core/store_base.py, core/episodic.py and
-- the two stores beside it are Store. core/governor.py is Governor, with its ranking and token
-- estimates in Ranking: it collects candidates through the stores and the policy, ranks them and
-- fills the budget, with the packing of core/retrieval.py (Retrieval), over floats (Floats). The
-- scorers of both are Scorers. core/procedural.py and fold_subtask are Fold: steps of a sub-task
-- become one summary, with an edge from each, and Fold/Validity keeps the tables well formed.
-- core/ops.py is Ops, with the operations that remove
-- items in Ops/Removal and its queries in Ops/Query and Ops/Assemble: each operation is an action
-- on the state of core/runtime.py (Runtime, and its settings in Runtime/Settings), the database
-- and the log, run in a transaction that restores the database when it raises. Ops/Steps is the
-- interface of the statements: what holds of each statement holds of each operation, by
-- the modules below Ops/Steps; Ops/Session has sequences of operations. The gateways
-- stand on top: core/rest_app.py is Rest, with its reading endpoints in Rest/Views, those for
-- single items in Rest/Items and the pipeline in Rest/Pipeline, and Rest/Serve the routes with
-- the status of each answer; core/grpc_servicer.py is Grpc. Gateway has traffic over both.
-- core/threadsafe_backend.py is Locking: the methods under one lock, and threads as steps. Proto
-- has the messages of proto/trilith.proto. core/lineage.py is Witness: the problem and its guards
-- there, the cached objective in Witness/Objective, the completions of witnesses in
-- Witness/Completions, the solver and the oracle in Witness/Solver and Witness/Oracle, and the
-- assembly from the store in Witness/Assemble. Prelude and Exec hold shared helpers, and Examples
-- concrete states and runs.
--
-- Conventions. Numbers are natural numbers; times are exact nanoseconds since the epoch, not
-- before it, and an operation reads the clock once. A table is the list of its rows in insertion
-- order, and ORDER BY leaves ties in that order. Embeddings are carried as bit patterns. What the
-- interpreter provides and is not computed here, Unicode case mapping and normalisation, regular
-- expressions, JSON and SHA-256, is the parameter Python, and the arithmetic of floats is the
-- parameter Floats; the LIKE test of a search is an argument, the random text of a new key is an
-- argument, and a governor has a scorer as a function, one score per candidate. Candidate indices
-- are gone through in ascending order. What protobuf does with timestamps is an argument of the
-- REST gateway, and its arguments have passed the framework's validation. An exception is an err
-- value, and an action that raises returns the state as it then is. In Witness a frozenset of
-- indices is a mask, one bit for each piece of evidence, and a set of texts is a list.
--
-- Fuel. The DELETE cascade takes the number of rows as fuel: each nested delete removes a row,
-- and Database/Erasure/Closure shows that this is enough. The rounds of the lineage query take
-- one more than the number of fold edges, which Database/Lineage shows to be enough, and packing
-- one for each candidate, since a round takes one away. The loop of the witness solver takes one
-- more than the pieces of evidence, and that of a completion one for each fact: Witness/Solved
-- and Witness/Covering show that these are enough.
--
-- Not modelled: the client, the command line, the set-up of the servers, the adapters and
-- everything outside core/.
pub mod Prelude
pub mod Exec
pub mod Proto
pub mod Python
pub mod Identity
pub mod Privacy
pub mod Database
pub mod Events
pub mod Audit
pub mod Auth
pub mod Store
pub mod Witness
pub mod Runtime
pub mod Floats
pub mod Retrieval
pub mod Ranking
pub mod Scorers
pub mod Governor
pub mod Ops
pub mod Fold
pub mod Rest
pub mod Grpc
pub mod Locking
pub mod Gateway
pub mod Examples
