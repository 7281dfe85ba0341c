-- ===== src/Restore/ExitCode.antt =====
-- internal/pgbackrest/command/errors.go: what the exit code of a restore means.
use cnpg_plugin_pgbackrest.Base.{
  ℕ, zero, suc, Bool, true, ◌&&◌, ◌||◌, ◌++◌, ◌∷◌, [], Text, codes, ◌==◌, if◌then◌else◌, Option,
  none, some, Result, ok, err, Error, cloud_restore_error, wrapped, exit_error,
}
use cnpg_plugin_pgbackrest.Go.Strconv.{itoa}

-- `errorDescriptions`, with the text for every other code.
unfoldable pub error_description : ℕ → Text
unfolding codes
error_description exit_code =
    if exit_code == 1
    then codes "Operation error"
    else if exit_code == 2
    then codes "Network error"
    else if exit_code == 3
    then codes "CLI argument parsing error"
    else if exit_code == 4
    then codes "General error"
    else codes "Generic failure"

-- `Error`
unfoldable pub error_text : ℕ → Text
unfolding error_description codes itoa
error_text exit_code =
    error_description exit_code ++ (codes " (exit code " ++ (itoa exit_code ++ b')' ∷ []))

-- `IsRetriable`
unfoldable pub is_retriable : ℕ → Bool → Bool
is_retriable exit_code has_restore_error_codes =
    (exit_code == 2 || exit_code == 4) && has_restore_error_codes

-- `UnmarshalPgbackrestRestoreExitCode`: no error for a zero.
unfoldable pub unmarshal_pgbackrest_restore_exit_code : ℕ → Result (Unit {0})
unmarshal_pgbackrest_restore_exit_code zero = ok tt
unmarshal_pgbackrest_restore_exit_code (suc n) = err (cloud_restore_error (suc n) true)

-- The exit code that `errors.As` finds in an error.
unfoldable pub find_exit_code : Error → Option ℕ
find_exit_code (exit_error n) = some n
find_exit_code (wrapped m e) = find_exit_code e
find_exit_code _ = none
