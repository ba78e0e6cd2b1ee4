-- ===== src/Lib.antt =====
-- Verification library of the testing platform backend (src/nc3_testing_platform).
--
-- The program is the backend of a platform that runs security tests. An API commits a scan job; a
-- worker plans the matrix of its tasks (`scan.dispatch`), runs each task with the plug-in module that
-- declares its test (`scan.run_module`), and sweeps what is stranded or stuck (`scan.reap`). Each
-- step is a short transaction on PostgreSQL under row-level security, and what it commits is then
-- published to Redis. The module code calls an engine in a child process with a budget, and maps its
-- report to findings. The API also has accounts, with registration, login, sessions and a second
-- factor, and proves the control of an organization over a domain by a TXT record, which several
-- resolvers are asked for between two transactions.
--
-- The parts and where they are modelled:
--   Prelude, Sorting, Text  lists, tables, results, sorting by insertion, ASCII text
--   Core/Enums              core/enums.py
--   Core/Crypto             core/crypto.py
--   Core/Dns                core/dns_utils.py, and the checks of core/settings.py on what it uses
--   Core/Redis              core/redis_utils.py, and `enforce_rate_limit` of core/security.py
--   Core/ApiDb              core/api_db.py: the commit or rollback that ends a request
--   Core/Csrf               core/csrf.py
--   Core/Settings           core/settings.py: the checks at start on the authentication
--   Core/Rls                core/rls.py and the policies of migration 0d5679b5500d: the three
--                           settings, the two roles, and the rows that a session reaches
--   Modules/Contract, Namespaced  modules/contract.py: declarations and the checks of constructors
--   Modules/Registry, Catalog     modules/registry.py, modules/catalog.py
--   Modules/Findings, Rows  modules/normalization/findings.py and rows.py
--   Modules/Execution, Child  modules/execution.py: the loop of run_engine, and its child
--   Modules/Vocabulary      modules/normalization/severity.py and grading.py
--   Modules/Dnssec, Pqc     modules/dnssec/mapping.py, modules/pqc/mapping.py
--   Modules/Runners         the clamps of modules/dnssec/runner.py and modules/pqc/runner.py
--   Worker/Models, Status   the rows of domains/scans/models.py and their CHECK constraints
--   Worker/Matrix, Transitions, Outcome, Finalize  worker/orchestration.py
--   Worker/Events           worker/events.py and `_finalize_and_publish` of worker/tasks.py
--   Worker/Dispatch, Run, Module, Reap  the tasks of worker/tasks.py
--   Worker/Evolution, Steps the machine of all the transactions, in any order
--   Assets/Names            domains/assets/verification.py: labels and `covers`
--   Assets/Verification     domains/assets/verification.py: tokens, status and `evaluate`
--   Assets/Tables, Service  domains/assets/models.py, repository.py and service.py
--   Assets/Check            domains/assets/service.py: run_check
--   Auth/Tables             domains/auth/models.py and repository.py: factors, codes, sessions
--   Auth/Mfa, Service       domains/auth/totp.py and the second factor of domains/auth/service.py
--   Auth/Accounts           domains/org/models.py, and the two lookups of migration b3c7a9e2f4d1
--   Auth/Sessions           core/security.py: the resolution of a session and its gates
--   Auth/Login              domains/auth/service.py: login, logout, change of the password
--   Auth/Consents           domains/statements/models.py, and the consent check of register
--   Auth/Registration       domains/auth/service.py: register
--   Examples                the theorems at concrete values
--
-- How the code is read. A table is a list of rows, a query is `find`, `keep` or `any` with its WHERE
-- clause and the row policy, and a write is `modify` on the row that was selected. A transaction is a
-- function from the tables to the tables and how it ended; a transaction that raises leaves the
-- tables as they were. Effects that follow a commit (events, messages to queues, revocations) are
-- appended to a log. The row locks (FOR UPDATE) are why a transaction is one step. An id is a number,
-- an instant a number of seconds, a text that is only compared a String and one that is walked a list
-- of code points. An exception is an error value. `created_at` of a new task is the instant of its
-- transaction, as the database default gives it. Copies of mutable values are the values themselves.
--
-- What other packages do is a parameter: the record `External` has the ids of `uuid7`, `json.dumps`
-- and the calendar step of twelve months, and a `Delivery` has the code of the modules and what other
-- tasks do while an engine runs, and `Primitives` has the check of a TOTP code, the digest of a
-- recovery code or a token and what `secrets` draws. An `Aead` is AES-GCM, a `Vault` has it with the
-- master key, the hash of passwords and the nonces, and their documented laws are the records
-- `AeadLaws` and `VaultLaws`. A `Network` gives the reply of a resolver and the time it took. A
-- `Provisioning` has the ids and the keys that a registration draws. The rounds of an engine run say
-- what the clock reads and what is on the pipe. A `Marshal` says what `json` makes
-- of a report, or what it raises. In the operations on the second factor, that the
-- current password verifies is an argument.
--
-- Every loop of the modelled code runs over a list, but for that of `run_engine`, which waits for a
-- child. It runs on fuel, one for each round, and the rounds up to the first in which the clock reads
-- the deadline are enough, unless the child leaves a message half written: the code then waits in
-- `recv` past its deadline, and the run has no end. A message that cannot be decoded, or that breaks
-- off, raises an error that leaves `run_engine` after the child was reaped.
--
-- Not modelled: the HTTP routes and schemas, which mostly answer with example data, the
-- ORM and the migrations other than the policies and the two lookups, the parsing of the
-- environment, the Celery configuration, and the Redis client of the worker, whose failures it swallows.
pub mod Prelude
pub mod Sorting
pub mod Text
pub mod Core
pub mod Modules
pub mod Worker
pub mod Assets
pub mod Auth
pub mod Examples
