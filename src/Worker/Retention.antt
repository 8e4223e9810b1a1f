-- ===== src/Worker/Retention.antt =====
-- internal/worker/retention.go. The deletion of objects by the storage is a parameter; durations and
-- times are in nanoseconds.
use learn_rag.Common.{ℕ, zero, suc, ◌-◌, String, Option, none, some, List, [], ◌∷◌, if◌then◌else◌}
use learn_rag.Common.Int.{ℤ, pos, negsuc}
use learn_rag.Common.Text.{Text, is_empty}
use learn_rag.Config.{seconds}
use learn_rag.Database.{Service, call, logged, M, ◌>>=◌, ◌>>◌, return, time_now}
use learn_rag.Repo.Jobs.{list_for_retention}
use learn_rag.Handlers.Pages.{atoi}

-- Seven days.
abbrev pub retention_age : ℕ
retention_age = 604800000000000

-- Six hours.
abbrev pub default_retention_interval : ℤ
default_retention_interval = pos 21600000000000

abbrev pub interval_of : Option ℤ → ℤ
interval_of none = default_retention_interval
interval_of (some (negsuc _)) = default_retention_interval
interval_of (some (pos zero)) = default_retention_interval
interval_of (some (pos (suc secs))) = seconds (pos (suc secs))

-- `retentionInterval`, of the variable RETENTION_INTERVAL; `strconv.ParseInt` in base 10 reads what `Atoi` reads.
unfoldable pub retention_interval : Text → ℤ
unfolding atoi
retention_interval raw = if is_empty raw then default_retention_interval else interval_of (atoi raw)

-- The loop of `runRetention`, which goes on after a failure.
unfoldable pub delete_each : Service String (Unit {0}) → List (String × String) → M (Unit {0})
delete_each delete [] = return tt
delete_each delete ((id, file_key) ∷ jobs) = do
  logged (call delete file_key)
  delete_each delete jobs

-- `runRetention`; a failure of the list is only logged.
unfoldable pub run_retention : Service String (Unit {0}) → M (Unit {0})
unfolding delete_each time_now list_for_retention
run_retention delete =
    logged
      (do now ← time_now; jobs ← list_for_retention (now - retention_age); delete_each delete jobs)
