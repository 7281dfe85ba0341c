-- ===== src/Base/Outcome.antt =====
-- Go's errors as values: the sentinels that the code compares with, the kinds of error that it takes
-- apart, and `fmt.Errorf` with and without `%w`. Functions that return `(A, error)` return a Result.
use mathlib.Core.Path.{◌≡◌, refl}
use mathlib.Core.Logic.{◌⊎◌, inl, inr}
use Prim.Native.Nat.{ℕ}
use mathlib.Core.Bool.{Bool, true, false}
use cnpg_plugin_pgbackrest.Base.Texts.{Text}

pub data Error : Type 0 where
  -- `errors.New`, or `fmt.Errorf` without `%w`
  message : Text → Error
  -- `fmt.Errorf("…: %w", err)`
  wrapped : Text → Error → Error
  -- `fs.ErrNotExist`, which is `spool.ErrorNonExistentFile`
  file_not_exist : Error
  -- an error of the system about a missing file, for which `os.IsNotExist` holds
  path_not_exist : Error
  -- `restorer.ErrWALNotFound`, `archiver.ErrStanzaMissing`, `common.ErrBadWALSegmentName`
  wal_not_found stanza_missing bad_wal_segment_name : Error
  -- the gRPC statuses `newWALNotFoundError()`, `ErrEndOfWALStreamReached`, `ErrMissingPermissions`
  status_wal_not_found end_of_wal_stream_reached missing_permissions : Error
  -- an `*exec.ExitError` with its exit code
  exit_error : ℕ → Error
  -- a `*CloudRestoreError`: its exit code, and whether pgBackRest returns significant codes
  cloud_restore_error : ℕ → Bool → Error
  -- the API server's answers that the code tells apart
  api_not_found api_forbidden : Error
  -- no error value: the program stops on a nil dereference or an index out of range
  panic : Error
  -- any other error of code outside the repository
  external : Text → Error

pub data Result {ℓ} (A : Type ℓ) : Type ℓ where
  ok : A → Result A
  err : Error → Result A

pub result_cases {ℓ} :
    {A : Type ℓ} (r : Result A) → ((a : A) × (r ≡ ok a)) ⊎ ((e : Error) × (r ≡ err e))
result_cases (ok a) = inl (a, refl)
result_cases (err e) = inr (e, refl)

infixl 5 ◌>>=◌
abbrev pub ◌>>=◌ {ℓ κ} : {A : Type ℓ} {B : Type κ} → Result A → (A → Result B) → Result B
ok a >>= f = f a
err e >>= f = err e

-- `errors.Is(err, ErrWALNotFound)` and `errors.Is(err, ErrStanzaMissing)` look through wrappers.
unfoldable pub is_wal_not_found : Error → Bool
is_wal_not_found wal_not_found = true
is_wal_not_found (wrapped m e) = is_wal_not_found e
is_wal_not_found _ = false

unfoldable pub is_stanza_missing : Error → Bool
is_stanza_missing stanza_missing = true
is_stanza_missing (wrapped m e) = is_stanza_missing e
is_stanza_missing _ = false

-- `apierrors.IsForbidden`
unfoldable pub is_forbidden : Error → Bool
is_forbidden api_forbidden = true
is_forbidden (wrapped m e) = is_forbidden e
is_forbidden _ = false

-- `apierrors.IsNotFound`
unfoldable pub is_not_found : Error → Bool
is_not_found api_not_found = true
is_not_found (wrapped m e) = is_not_found e
is_not_found _ = false
