-- ===== src/Archiver/Gather.antt =====
-- `GatherWALFilesToArchive` of internal/pgbackrest/archiver/command.go: the WALs that PostgreSQL
-- has marked as ready, beside the one that it asked for.
pub mod Ready
use cnpg_plugin_pgbackrest.Base.{
  ℕ, Bool, true, false, not, ◌||◌, List, [], ◌∷◌, ◌++◌, Option, none, some, Text, codes, leb,
  if◌then◌else◌, length,
}
use cnpg_plugin_pgbackrest.Go.Paths
use cnpg_plugin_pgbackrest.Go.Strings.{has_suffix, trim_suffix}
use cnpg_plugin_pgbackrest.Host.{Host, DirEntry}

module _ (pg_data requested_wal_file : Text) where
  abbrev pub pg_wal_directory : Text
  pg_wal_directory = Paths.join pg_data (codes "pg_wal")

  abbrev pub archive_status_path : Text
  archive_status_path = Paths.join pg_wal_directory (codes "archive_status")

  -- `strings.TrimSuffix(filepath.Base(path), ".ready")`
  unfoldable pub wal_file_name : DirEntry → Text
  wal_file_name entry =
      trim_suffix (Paths.base (Paths.join archive_status_path entry.name)) (codes ".ready")

  -- The tests after which the callback for an entry returns early.
  unfoldable pub is_skipped : DirEntry → Bool
  unfolding wal_file_name
  is_skipped entry =
      entry.is_dir
      || (not (has_suffix (Paths.join archive_status_path entry.name) (codes ".ready"))
          || has_suffix requested_wal_file (wal_file_name entry))

  -- The callback, for the entries below the directory: a subdirectory is skipped, an error ends the
  -- walk.
  unfoldable pub walk_entries : ℕ → List DirEntry → List Text → List Text
  unfolding is_skipped
  walk_entries parallel [] wal_list = wal_list
  walk_entries parallel (entry ∷ entries) wal_list =
      let next = walk_entries parallel entries (
        if is_skipped entry
        then wal_list
        else wal_list ++ Paths.join pg_wal_directory (wal_file_name entry) ∷ []) in
      if leb parallel (length wal_list) then wal_list else next

  walk_listing : ℕ → Option (List DirEntry) → List Text → List Text
  unfolding walk_entries
  walk_listing parallel none wal_list = wal_list
  walk_listing parallel (some entries) wal_list =
      if leb parallel (length wal_list) then wal_list else walk_entries parallel entries wal_list

  -- `GatherWALFilesToArchive`, for a value of PGDATA
  unfoldable pub gather_wal_files_to_archive : (h : Host) → ℕ → h.State → List Text
  unfolding walk_listing
  gather_wal_files_to_archive h parallel s =
      walk_listing parallel (h.list_directory archive_status_path s)
        (Paths.join pg_wal_directory (Paths.base requested_wal_file) ∷ [])
