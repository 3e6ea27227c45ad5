-- ===== src/Win/Guest.antt =====
-- tools/win/network.c: `prepare_guest`, which puts the guest's network files on drive C.
pub mod Careful
use shinogi.Base.{
  ℕ, ◌+◌, Bool, true, false, not, ◌&&◌, ◌||◌, List, [], ◌∷◌, ◌++◌, Option, none, some, Bytes, codes,
  length, equal, starts_with, all, ltb, leb, ◌==◌, if◌then◌else◌,
}
use shinogi.Base.Result.{Result, ok, err}
use shinogi.Win.Network.Valid.{NetworkSettings}
use shinogi.Win.Network.Hook.{network_hook, line_contains, HookError, network_boot_hook}
use shinogi.Win.Network.Script.{network_guest_script}

-- What stands under a name: nothing, what cannot be read as a file, or a file.
pub data Entry : Type 0 where
  absent : Entry
  unreadable : Entry
  file : Bytes → Entry

-- The three files, and the temporary ones that were left behind.
pub record Folder : Type 0 where
  pub config : Entry
  pub backup : Entry
  pub script : Entry
  pub temps : ℕ

-- Whether the calls of `write_atomic` succeed.
pub record Saving : Type 0 where
  pub named : Bool
  pub opened : Bool
  pub filled : Bool
  pub moved : Bool
  pub deleted : Bool

-- Whether the calls of `prepare_guest` succeed, where nothing else stands in their way.
pub record Calls : Type 0 where
  pub dhcp_client : Bool
  pub dhcp_callback : Bool
  pub reads_config : Bool
  pub reads_script : Bool
  pub reads_backup : Bool
  pub memory : Bool
  pub copies : Bool
  pub saves_script : Saving
  pub saves_config : Saving
  pub restores : Saving
  pub removes : Bool

pub data GuestError : Type 0 where
  path_too_long dhcp_missing config_unread script_unread script_foreign no_backup not_saved :
      GuestError
  bad_config : HookError → GuestError

-- The text of a file of at most 262144 bytes, none of them 0.
unfoldable pub read_file : Bool → Entry → Option Bytes
read_file reads absent = none
read_file reads unreadable = none
read_file reads (file text) =
    if reads && leb (length text) 262144 && all (λ c. not (c == 0)) text then some text else none

-- Whether the file was replaced, what stands there, and the temporary files.
unfoldable pub write_atomic : Saving → Bytes → Entry → ℕ → Bool × Entry × ℕ
write_atomic w text old temps =
    let left = if w.deleted then temps else temps + 1 in
    if not w.named
    then (false, old, temps)
    else if not w.opened
    then (false, old, left)
    else if w.filled && w.moved
    then (true, file text, temps)
    else (false, old, left)

unfoldable pub is_absent : Entry → Bool
is_absent absent = true
is_absent unreadable = false
is_absent (file _) = false

abbrev pub guest_path_max : ℕ
guest_path_max = 260

abbrev pub guest_folder : Bytes → Bytes
guest_folder drivec = drivec ++ codes "\\MINT\\1-19-CUR"

unfoldable pub path_fits : Bytes → Bool
path_fits path = ltb (length path) guest_path_max

unfoldable pub paths_fit : Bytes → Bool
paths_fit drivec =
    path_fits (guest_folder drivec)
    && path_fits (guest_folder drivec ++ codes "\\MINT.CNF")
    && path_fits (guest_folder drivec ++ codes "\\SHNNET.BAK")
    && path_fits (guest_folder drivec ++ codes "\\SHNNET.SH")

unfoldable pub dhcp_paths_fit : Bytes → Bool
dhcp_paths_fit drivec =
    path_fits (guest_folder drivec ++ codes "\\SYS-ROOT\\BIN\\DHCLIENT")
    && path_fits (guest_folder drivec ++ codes "\\SHNDHCP.SH")

abbrev pub script_mark : Bytes
script_mark = codes "# Shinogi network settings v1;"

abbrev pub Outcome : Type 0
Outcome = Result GuestError (Unit {0}) × Folder

-- Back to the script that was there, after MINT.CNF could not be replaced.
unfoldable pub roll_back : Calls → Option Bytes → Folder → Folder
roll_back c (some text) d =
    let (_, e, temps) = write_atomic c.restores text d.script d.temps in
    record d { script = e; temps = temps }
roll_back c none d = record d { script = if c.removes then absent else d.script }

-- MINT.CNF behind the script.
unfoldable pub save_config : Calls → Bytes → Bool → Option Bytes → Folder → Outcome
save_config c hook changed old_script d =
    let (saved, e, temps) = write_atomic c.saves_config hook d.config d.temps in
    let d' = record d { config = e; temps = temps } in
    if not changed
    then (ok tt, d)
    else if saved
    then (ok tt, d')
    else (err not_saved, roll_back c old_script d')

-- Whether the script that is there is the new one.
unfoldable pub same_script : Option Bytes → Bytes → Bool
same_script none script = false
same_script (some old) script = equal script old

unfoldable pub save_script :
    NetworkSettings → Calls → Bytes → Bool → Option Bytes → Folder → Outcome
save_script s c hook changed old_script d = elim (network_guest_script s 1024) [
  | none ↦ (err not_saved, d)
  | some script ↦
      let (saved, e, temps) = write_atomic c.saves_script script d.script d.temps in
      let d' = record d { script = e; temps = temps } in
      if same_script old_script script
      then save_config c hook changed old_script d
      else if saved
      then save_config c hook changed old_script d'
      else (err not_saved, d')
]

-- Whether the backup that is there holds the text.
unfoldable pub matching : Calls → Bytes → Folder → Bool
matching c old d = elim (read_file c.reads_backup d.backup) [
  | none ↦ false
  | some saved ↦ equal saved old
]

-- The copy of MINT.CNF, which never replaces a file.
unfoldable pub save_backup :
    NetworkSettings → Calls → Bytes → Bytes → Option Bytes → Folder → Outcome
save_backup s c old hook old_script d =
    let changed = not (equal old hook) in
    if not changed
    then save_script s c hook changed old_script d
    else if is_absent d.backup && c.copies
    then save_script s c hook changed old_script (record d { backup = d.config })
    else if not (is_absent d.backup) && c.copies && matching c old d
    then save_script s c hook changed old_script d
    else (err no_backup, d)

unfoldable pub check_script : NetworkSettings → Calls → Bytes → Bytes → Folder → Outcome
check_script s c old hook d = elim (read_file c.reads_script d.script) [
  | none ↦
      if not (is_absent d.script) then (err script_unread, d) else save_backup s c old hook none d
  | some text ↦
      if not (starts_with text script_mark)
      then (err script_foreign, d)
      else save_backup s c old hook (some text) d
]

unfoldable pub with_config : NetworkSettings → Calls → Bytes → Folder → Outcome
with_config s c old d =
    if s.lan == 0 && not (line_contains old network_hook)
    then (ok tt, d)
    else elim (network_boot_hook c.memory old) [
      | err e ↦ (err (bad_config e), d)
      | ok hook ↦ check_script s c old hook d
    ]

unfoldable pub prepare_guest : NetworkSettings → Calls → Bytes → Folder → Outcome
prepare_guest s c drivec d =
    let wants_dhcp = not (s.lan == 0) && not (s.dhcp == 0) in
    if not (paths_fit drivec)
    then (err path_too_long, d)
    else if wants_dhcp && not (dhcp_paths_fit drivec)
    then (err path_too_long, d)
    else if wants_dhcp && not (c.dhcp_client && c.dhcp_callback)
    then (err dhcp_missing, d)
    else elim (read_file c.reads_config d.config) [
      | none ↦ if s.lan == 0 && is_absent d.config then (ok tt, d) else (err config_unread, d)
      | some old ↦ with_config s c old d
    ]
