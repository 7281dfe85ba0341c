-- ===== src/Catalog.antt =====
-- internal/pgbackrest/catalog/catalog.go: the catalog that `pgbackrest info` reports, and the choice
-- of a backup from it. Times are in seconds, as in the report; a map is an association list.
pub mod Find
pub mod Newest
pub mod Annotated
pub mod Choice
pub mod Panics
pub mod Latest
use cnpg_plugin_pgbackrest.Base.{
  ℕ, Bool, true, false, not, ◌&&◌, List, [], ◌∷◌, ◌++◌, Option, none, some, Text, codes, str_eq,
  length, if◌then◌else◌, Result, ok, err, ◌>>=◌, Error, message,
}
use cnpg_plugin_pgbackrest.Base.Int.{ℤ, pos, negsuc, eqb_ℤ}

pub record PgbackrestBackupLsn : Type 0 where
  pub start : Text
  pub stop : Text

pub record PgbackrestBackupDatabase : Type 0 where
  pub id : ℤ
  pub repo_key : ℤ
  pub system_id : ℤ
  pub version : Text

pub record PgbackrestWalArchive : Type 0 where
  pub id : Text
  pub min : Text
  pub max : Text
  pub database : PgbackrestBackupDatabase

pub record PgbackrestBackupWalArchive : Type 0 where
  pub start : Text
  pub stop : Text

pub record PgbackrestBackupTime : Type 0 where
  pub start : ℤ
  pub stop : ℤ

pub record PgbackrestBackup : Type 0 where
  pub annotations : List (Text × Text)
  pub time : PgbackrestBackupTime
  pub wal : PgbackrestBackupWalArchive
  pub lsn : PgbackrestBackupLsn
  pub id : Text
  pub prior : Text
  pub backup_type : Text

pub record PgbackrestStanzaStatus : Type 0 where
  pub code : ℤ
  pub status_message : Text

pub record Catalog : Type 0 where
  pub archive : List PgbackrestWalArchive
  pub backups : List PgbackrestBackup
  pub stanza : Text
  pub databases : List PgbackrestBackupDatabase
  pub encryption : Text
  pub status : PgbackrestStanzaStatus

single_catalog : List Catalog → Result Catalog
unfolding codes
single_catalog (c ∷ []) = ok c
single_catalog _ = err (message (codes "expected one catalog"))

-- `NewCatalogFromPgbackrestInfo`, over the decoding of the JSON text.
unfoldable pub new_catalog_from_pgbackrest_info :
    (Text → Result (List Catalog)) → Text → Result Catalog
unfolding single_catalog
new_catalog_from_pgbackrest_info unmarshal raw_json = unmarshal raw_json >>= single_catalog

-- `NewSingleBackupCatalogFromPgbackrestInfo`
unfoldable pub new_single_backup_catalog_from_pgbackrest_info :
    (Text → Result (List Catalog)) → Text → Result Catalog
unfolding new_catalog_from_pgbackrest_info
new_single_backup_catalog_from_pgbackrest_info = new_catalog_from_pgbackrest_info

-- `StanzaMissing`
unfoldable pub is_stanza_missing_status : Catalog → Bool
is_stanza_missing_status c = eqb_ℤ c.status.code (pos 1)

-- `isBackupDone`
unfoldable pub is_backup_done : PgbackrestBackup → Bool
is_backup_done b = not (eqb_ℤ b.time.start (pos 0)) && not (eqb_ℤ b.time.stop (pos 0))

-- The first backup of a list that is done.
unfoldable pub first_done : List PgbackrestBackup → Option PgbackrestBackup
unfolding is_backup_done
first_done [] = none
first_done (b ∷ bs) = if is_backup_done b then some b else first_done bs
