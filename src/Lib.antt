-- ===== src/Lib.antt =====
-- A model of the pgBackRest plugin for CloudNativePG, with the theorems that make it correct.
--
-- The plugin runs beside PostgreSQL. Its WAL service (internal/cnpgi/common/wal.go) archives and
-- restores WAL segments by running pgBackRest, prefetches segments into a spool directory, and keeps
-- the flag for the end of a WAL stream there. Backups and restores run pgBackRest with command lines
-- built from the configuration of an Archive object, and the catalog that `pgbackrest info` reports
-- decides which backup a recovery starts from. The operator's side injects the plugin as a sidecar
-- into pods and jobs, and keeps a role that lets it read the archives and their secrets, which become
-- the environment of pgBackRest.
--
-- The files, and what they model (paths from the repository's root):
--   Base, Base/*      shared names; texts as lists of bytes; Go's errors as values (Base/Outcome);
--                     integers and int32 increment (Base/Int)
--   Go/*              strings, strconv and path, as far as the code calls them
--   Host, Host/*      the system under the plugin: files and the run of pgBackRest are fields of an
--                     interface over a state, with laws; Host/Memory fills it with a list of files
--   Wal/Segment       internal/cnpgi/common/wal_import.go: Segment, IsWALFile, SegmentFromName, Name,
--                     NextSegments (advance is the body of its loop)
--   Api, Api/*        internal/pgbackrest/api/config.go: the records, the stanza policy (Policy) and
--                     appendAdditionalCommandArgs (Args); Api/Archive is api/v1/archive_types.go
--   Utils             internal/pgbackrest/utils: names of variables and flags; Utils/Environ strips
--                     the variables of services, with the regular expression as a scanner
--   Command           internal/pgbackrest/command/commandbuilder.go; Command/Appends says of each
--                     builder what it adds, Command/Info is backuplist.go beside it
--   Parallel          goroutines with a slot each for their results, which RestoreList and
--                     ArchiveList share
--   Archiver          internal/pgbackrest/archiver: the options of archive-push and check; Gather has
--                     GatherWALFilesToArchive, Batch the pushes of internal/pgbackrest/walarchive
--   Backup            internal/pgbackrest/backup/backup.go: the options of backup and stanza-create;
--                     Backup/Stanza creates the stanza, Backup/Take runs the backup,
--                     Backup/Service is internal/cnpgi/instance/backup.go
--   Restore           internal/pgbackrest/restorer/backup.go: the options of restore; Restore/Run runs
--                     it, Restore/ExitCode is internal/pgbackrest/command/errors.go, Restore/Job the
--                     hook in internal/cnpgi/restore/restore.go
--   Catalog           internal/pgbackrest/catalog/catalog.go: the records; Find has the searches,
--                     search_newest is the loop that the three searches for a target share
--   Wal/Spool         internal/pgbackrest/spool/spool.go, and WALArchiver.DeleteFromSpool
--   Wal/Restorer      internal/pgbackrest/restorer/wal.go: the flag, Restore and RestoreList
--   Wal/Service       internal/cnpgi/common/wal.go: the restore path
--   Wal/Archiving     the archive path of the same file
--   Wal/Requests      its requests from the cluster definition on, with the credentials
--   Config            internal/cnpgi/operator/config/config.go: the configuration read from a cluster
--   Credentials       internal/pgbackrest/credentials/credentials.go
--   Client, Client/*  internal/cnpgi/instance/internal/client/client.go: the cache
--   Role, Role/*      internal/cnpgi/operator/specs: the role and the role binding; Role/Grants reads
--                     the role as Kubernetes does, Role/Covers holds it against the credentials
--   Reconciler        internal/cnpgi/operator/reconciler.go
--   Lifecycle         internal/cnpgi/operator/lifecycle.go: the injection; Lifecycle/Hook is the hook
--   Tests, Tests/*    the theorems at concrete inputs
--
-- Calls of code outside the repository are parameters: the host's calls, the reading of times, LSNs
-- and JSON (Catalog), what the cluster object answers (Wal/Service, Config), the API server and the
-- client of it (Reconciler, Client, Credentials), the decoding of requests, the making of patches
-- (Lifecycle/Hook) and the sorting of a set of strings (Role). A call that changes the
-- state returns it with its result, and a failure ends the chain and keeps the state. A goroutine
-- runs from its start to its end before another one runs, in the order of a schedule, a list of
-- indices; logs and times are left out. An `error` value is a constructor of Error, `panic` stands
-- for a stop of the program.
--
-- Every recursion is on its argument but the one of `decimal` in Go/Strconv, on fuel: a number n gets
-- n + 1 steps, and each step divides it by ten. Segment fields are int32: ++ on them wraps around.
-- Integers elsewhere are unbounded, since the code only compares and prints them.
--
-- Not modelled: the decoding of JSON; a program that a signal stops; concurrent calls of the client;
-- start-up, controllers, generated code and tests.
pub mod Base
pub mod Go
pub mod Host
pub mod Parallel
pub mod Reconciler
pub mod Restore
pub mod Api
pub mod Utils
pub mod Client
pub mod Command
pub mod Archiver
pub mod Backup
pub mod Catalog
pub mod Config
pub mod Credentials
pub mod Role
pub mod Lifecycle
pub mod Wal
pub mod Tests
