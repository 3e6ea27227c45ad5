-- ===== src/Tests/Handles.antt =====
-- Runs of OPEN and CLOSE.
use shinogi.Base.{false, ◌≡◌, refl, codes, equal, length}
use shinogi.Hostfsd.Daemon.{Daemon, max_files, start, free_file, file_of}
use shinogi.Hostfsd.Files.{open_op, open_resolved, take_slot, is_directory, close_op}
use shinogi.Hostfsd.Files.Handles.{Opens, Closes, open_op-Opens, close_op-Closes}
use shinogi.Hostfsd.Names.{component_ok, match_fold_in}
use shinogi.Hostfsd.Path.{
  under_root, resolve_path, join_path, join_component, resolve_joined, spelling, match_fold,
  dir_under_root,
}
use shinogi.Hostfsd.Proto.{e_ok}
use shinogi.Tests.Disk.{Ram, disk, fresh, cfg}

abbrev ready : Daemon Ram
ready = start disk fresh

open_run : (open_op disk cfg false 2 (codes "a.txt") ready).0.status ≡ e_ok
unfolding open_op open_resolved take_slot is_directory free_file resolve_path join_path
    join_component resolve_joined spelling match_fold dir_under_root under_root component_ok
    match_fold_in equal
open_run = refl

-- The file is open.
abbrev holding : Daemon Ram
holding = (open_op disk cfg false 2 (codes "a.txt") ready).1

open_op-Opens_example : Opens ready holding (open_op disk cfg false 2 (codes "a.txt") ready).0.ra
open_op-Opens_example = open_op-Opens disk cfg ready false 2 (codes "a.txt") refl open_run

holding_size : length holding.files ≡ max_files
unfolding open_op open_resolved take_slot is_directory free_file resolve_path join_path
    join_component resolve_joined spelling match_fold dir_under_root under_root component_ok
    match_fold_in equal
holding_size = refl

close_run : (close_op disk 1 holding).0.status ≡ e_ok
unfolding close_op file_of open_op open_resolved take_slot is_directory free_file resolve_path
    join_path join_component resolve_joined spelling match_fold dir_under_root under_root
    component_ok match_fold_in equal
close_run = refl

close_op-Closes_example : Closes holding (close_op disk 1 holding).1 1
close_op-Closes_example = close_op-Closes disk cfg holding 1 holding_size close_run
