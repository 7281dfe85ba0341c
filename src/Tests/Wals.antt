-- ===== src/Tests/Wals.antt =====
-- Names of WALs, the spool, the restorer and the restore service on a host in memory.
use mathlib.Core.List.{map}
use cnpg_plugin_pgbackrest.Base.{
  Text, ◌≡◌, List, Option, get_elem?, refl, true, [], ◌∷◌, ◌++◌, none, some, codes, ok, err, length,
  arith, ◌&&◌, ◌==◌, false, if◌then◌else◌, All, bad_wal_segment_name, end_of_wal_stream_reached,
  contains, str_eq,
}
use cnpg_plugin_pgbackrest.Base.Int.{pos}
use cnpg_plugin_pgbackrest.Go.Paths
use cnpg_plugin_pgbackrest.Command.{
  cloud_wal_restore_options, append_cloud_provider_options_from_configuration,
  append_stanza_options_from_configuration, append_log_options_from_configuration,
}
use cnpg_plugin_pgbackrest.Host.Memory.{memory, memory-IsLawful, erase}
use cnpg_plugin_pgbackrest.Wal.Segment.{
  Segment, is_wal_file, segment_from_name, segment_name, next_segments,
}
use cnpg_plugin_pgbackrest.Wal.Segment.Names.{
  name_of, fits, segment_from_name-name_of, segment_from_name-segment_name,
}
use cnpg_plugin_pgbackrest.Wal.Segment.Next.{
  position, count_from, segment_at, IsRegular, next_segments-positions,
}
use cnpg_plugin_pgbackrest.Wal.Spool
use cnpg_plugin_pgbackrest.Wal.Spool.{delete_from_spool, touch}
use cnpg_plugin_pgbackrest.Wal.Spool.Once.{delete_from_spool_once}
use cnpg_plugin_pgbackrest.Wal.Restorer.{RestoreResult, restore_list, set_end_of_wal_stream}
use cnpg_plugin_pgbackrest.Wal.Restorer.Flag.{flag_path}
use cnpg_plugin_pgbackrest.Wal.Restorer.Schedule.{IsPlace, IsOutcome, restore_list_slots}
use cnpg_plugin_pgbackrest.Wal.Service.{
  gather_wal_files_to_restore, check_end_of_wal_stream_flag, restore_from_pgbackrest_archive,
}
use cnpg_plugin_pgbackrest.Wal.Service.Fetched.{IsDelivered, restore-IsDelivered}
use cnpg_plugin_pgbackrest.Wal.Service.Gather.{gather_wal_files_to_restore_lem}
use cnpg_plugin_pgbackrest.Wal.Service.Streaming.{end_of_wal_stream_flag_once}
use cnpg_plugin_pgbackrest.Tests.{spool_directory, wal_one, wal_two, destination, configuration}

segment_from_name-name_of_example :
    (is_wal_file (name_of 1 2 3) ≡ true)
    × (segment_from_name (name_of 1 2 3) ≡ (
        if fits 1 2 3
        then ok (record { tli = pos 1; log = pos 2; seg = pos 3 })
        else err bad_wal_segment_name))
segment_from_name-name_of_example =
    segment_from_name-name_of 1 2 3 (omega arith) (omega arith) (omega arith)

abbrev first_segment : Segment
first_segment = record { tli = pos 1; log = pos 0; seg = pos 1 }

segment_from_name-segment_name_example :
    segment_from_name (segment_name (record { tli = pos 1; log = pos 0; seg = pos 1 }))
    ≡ ok (record { tli = pos 1; log = pos 0; seg = pos 1 })
segment_from_name-segment_name_example =
    segment_from_name-segment_name 1 0 1 (omega arith) (omega arith) (omega arith)

next_segments-positions_example :
    (map (position 255) (next_segments (segment_at (pos 1) 0 254) 3 none none)
      ≡ count_from (position 255 (segment_at (pos 1) 0 254)) 3)
    × All (IsRegular 255 (pos 1)) (next_segments (segment_at (pos 1) 0 254) 3 none none)
next_segments-positions_example =
    next_segments-positions 3 0 254 (pos 1) (omega arith) (omega arith)

gather_wal_files_to_restore_example :
    gather_wal_files_to_restore (segment_name first_segment) 1 true
    ≡ ok (
        if true && (1 == 1)
        then segment_name first_segment ∷ (segment_name first_segment ++ codes ".partial") ∷ []
        else map segment_name (next_segments first_segment 1 none none))
gather_wal_files_to_restore_example =
    gather_wal_files_to_restore_lem (segment_name first_segment) first_segment 1 true
      (segment_from_name-segment_name 1 0 1 (omega arith) (omega arith) (omega arith))

delete_from_spool_once_example :
    (delete_from_spool memory spool_directory wal_one (Paths.join spool_directory wal_one ∷ [])
      ≡ (ok true, []))
    × (delete_from_spool memory spool_directory wal_one [] ≡ (ok false, []))
unfolding codes Paths.base Paths.clean Paths.join touch erase contains str_eq
delete_from_spool_once_example =
    delete_from_spool_once memory memory-IsLawful spool_directory wal_one wal_one []
      (Paths.join spool_directory wal_one ∷ []) [] refl refl refl refl

abbrev two_slots : List (Option RestoreResult)
two_slots =
    (restore_list memory spool_directory [] (wal_one ∷ wal_two ∷ []) destination [] (1 ∷ 0 ∷ [])
      []).0

restore_list_slots_example :
    (length two_slots ≡ length (wal_one ∷ wal_two ∷ []))
    × ((r : RestoreResult) × (get_elem? two_slots 1 ≡ some (some r))
        × (r.wal_name ≡ wal_two)
        × IsPlace memory spool_directory [] destination [] 1 wal_two r.destination_path
        × IsOutcome memory spool_directory [] destination [] wal_two r.destination_path r.outcome)
restore_list_slots_example =
    restore_list_slots memory spool_directory [] (wal_one ∷ wal_two ∷ []) destination []
      (1 ∷ 0 ∷ []) [] 1 wal_two refl refl

end_of_wal_stream_flag_once_example :
    (check_end_of_wal_stream_flag memory spool_directory [] (flag_path spool_directory ∷ [])
      ≡ (err end_of_wal_stream_reached, []))
    × (check_end_of_wal_stream_flag memory spool_directory [] [] ≡ (ok tt, []))
unfolding codes Paths.base Paths.clean Paths.join set_end_of_wal_stream touch erase contains str_eq
    Spool.contains_wal
end_of_wal_stream_flag_once_example =
    end_of_wal_stream_flag_once memory memory-IsLawful spool_directory [] []
      (flag_path spool_directory ∷ []) [] refl refl refl

restore-IsDelivered_example :
    (options : List Text) × (cloud_wal_restore_options configuration
        (codes "main")
        (codes "/pgdata")
      ≡ ok options)
    × IsDelivered memory spool_directory [] wal_one destination options
unfolding codes restore_from_pgbackrest_archive cloud_wal_restore_options
    append_cloud_provider_options_from_configuration append_stanza_options_from_configuration
    append_log_options_from_configuration Spool.move_out erase contains str_eq Paths.join Paths.base
    Paths.clean gather_wal_files_to_restore segment_from_name segment_name next_segments
    restore_list is_wal_file cnpg_plugin_pgbackrest.Wal.Restorer.restore_from_spool
    cnpg_plugin_pgbackrest.Wal.Restorer.from_spool cnpg_plugin_pgbackrest.Wal.Spool.as_non_existent
    cnpg_plugin_pgbackrest.Wal.Service.is_streaming_available
    cnpg_plugin_pgbackrest.Wal.Service.max_parallel
    cnpg_plugin_pgbackrest.Wal.Service.files_to_restore cnpg_plugin_pgbackrest.Parallel.run_schedule
    cnpg_plugin_pgbackrest.Wal.Restorer.restore_one cnpg_plugin_pgbackrest.Wal.Restorer.restore
    cnpg_plugin_pgbackrest.Wal.Service.any_wal_not_found
    cnpg_plugin_pgbackrest.Api.Args.append_additional_archive_get_command_args
    cnpg_plugin_pgbackrest.Wal.Service.is_end_of_stream_error
    cnpg_plugin_pgbackrest.Wal.Segment.wal_segment_re cnpg_plugin_pgbackrest.Wal.Segment.wal_re
    cnpg_plugin_pgbackrest.Wal.Segment.hex_run cnpg_plugin_pgbackrest.Wal.Segment.is_hex
    cnpg_plugin_pgbackrest.Wal.Segment.parse_fields cnpg_plugin_pgbackrest.Go.Strconv.parse_int
    cnpg_plugin_pgbackrest.Go.Strconv.parse_uint cnpg_plugin_pgbackrest.Go.Strconv.parse_digits
    cnpg_plugin_pgbackrest.Go.Strconv.digit_value cnpg_plugin_pgbackrest.Parallel.run_from
    cnpg_plugin_pgbackrest.Parallel.step cnpg_plugin_pgbackrest.Wal.Restorer.destination_of
    cnpg_plugin_pgbackrest.Utils.format_db_flag
restore-IsDelivered_example =
    restore-IsDelivered memory spool_directory [] none [] configuration (codes "main")
      (codes "/pgdata") wal_one destination false (1 ∷ 0 ∷ []) [] [] refl refl
