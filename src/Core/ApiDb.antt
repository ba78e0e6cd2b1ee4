-- ===== src/Core/ApiDb.antt =====
-- core/api_db.py: the unit of work of a request, `_unit_of_work`.
use testing_platform_backend.Prelude.{Result, err, ok}

-- What a request ends with, from the tables that were committed last and from what the handler
-- returned or raised with the tables of its open transaction: a commit, or a rollback and the
-- exception.
abbrev pub unit_of_work : {D E A : Type 0} → D → Result E A × D → Result E A × D
unit_of_work committed (ok a, working) = (ok a, working)
unit_of_work committed (err e, working) = (err e, committed)
