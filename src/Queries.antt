-- ===== src/Queries.antt =====
-- internal/database/queries: the SQL statements, as the constants of the Go files hold them. A
-- statement marked `:one` fails with `pgx.ErrNoRows` when no row answers it.
pub mod Jobs
pub mod Intents
pub mod Segments
pub mod Videos
pub mod Contents
pub mod Keys
pub mod Laws
use learn_rag.Common.{ℕ, Option, none, some, List, take, drop}
use learn_rag.Common.Int.{ℤ, pos, negsuc}
use learn_rag.Errors.{Err, no_rows, plain}
use learn_rag.Result.{Result, ok, err}
use learn_rag.Database.{Db}

-- `row.Scan` of a `:one` statement.
abbrev pub one : {A : Type 0} → Option A → Db → Result (A × Db)
one (some a) db = ok (a, db)
one none db = err no_rows

abbrev pub unique_violation : Err
unique_violation = plain "duplicate key value violates unique constraint"

-- `LIMIT limit OFFSET offset`; the server refuses a negative offset.
abbrev pub page_of : {R : Type 0} → ℤ → ℕ → List R → Db → Result (List R × Db)
page_of (pos offset) limit rows db = ok (take limit (drop offset rows), db)
page_of (negsuc _) limit rows db = err (plain "OFFSET must not be negative")
