-- ===== src/Win/Prepare.antt =====
-- tools/win/network.c: `network_prepare`, from the settings to QEMU's options and the guest's files.
pub mod Prepared
use shinogi.Base.{
  ℕ, ◌+◌, ◌-◌, Bool, true, false, not, ◌&&◌, ◌||◌, List, [], ◌∷◌, ◌++◌, Option, none, some, Bytes,
  codes, length, ltb, ◌==◌, if◌then◌else◌,
}
use shinogi.Base.Result.{Result, ok, err}
use shinogi.Win.Network.Valid.{NetworkSettings, Refusal, network_guid_valid, network_config_valid}
use shinogi.Win.Network.Options.{fitted, network_qemu_options}
use shinogi.Win.Guest.{Folder, Calls, GuestError, prepare_guest}

-- An entry of the list of adapters.
pub record NetworkAdapter : Type 0 where
  pub guid : Bytes
  pub name : Bytes
  pub tap : Bool

-- What Windows says: the two values of the LAN set-up in the registry, the path of the program and
-- of the system's directory, whether the check starts and its exit code, where it ends in time, and
-- the adapters. `same_text` is lstrcmpiA, whether it gives 0.
pub record Windows : Type 0 where
  pub managed : Bytes
  pub ethernet : Bytes
  pub program : Option Bytes
  pub system : Option Bytes
  pub starts : Bytes → Bytes → Bool
  pub exit_code : Option ℕ
  pub adapters : List NetworkAdapter
  pub same_text : Bytes → Bytes → Bool

-- The text before the last backslash; `none` where there is none.
unfoldable pub before_backslash : Bytes → Option Bytes
before_backslash [] = none
before_backslash (c ∷ cs) = elim (before_backslash cs) [
  | some dir ↦ some (c ∷ dir)
  | none ↦ if c == b'\\' then some [] else none
]

-- The parameters of the set-up script in a directory.
unfoldable pub setup_parameters : Bytes → Bytes → Bytes → Bool → Bool → Bytes
setup_parameters dir ethernet tap check remove =
    codes "-NoProfile -NonInteractive -ExecutionPolicy Bypass -File "
    ++ (b'"'
        ∷ (dir
            ++ (codes "\\network\\lan-setup.ps1"
                ++ (b'"'
                    ∷ (codes " -EthernetGuid "
                        ++ (ethernet
                            ++ ((if check then codes " -CheckOnly -TapGuid " ++ tap else [])
                                ++ (if remove then codes " -Remove" else []))))))))

-- The program and its parameters, in buffers of these sizes.
unfoldable pub setup_command :
    Windows → ℕ → ℕ → Bytes → Bytes → Bool → Bool → Option (Bytes × Bytes)
setup_command w exe_size size ethernet tap check remove =
    if not (network_guid_valid ethernet) || check && not (network_guid_valid tap)
    then none
    else elim w.program [
      | none ↦ none
      | some program ↦ elim w.system [
        | none ↦ none
        | some system ↦ elim (before_backslash program) [
          | none ↦ none
          | some dir ↦
              elim (fitted exe_size (system ++ codes "\\WindowsPowerShell\\v1.0\\powershell.exe")) [
                | none ↦ none
                | some exe ↦ elim (fitted size (setup_parameters dir ethernet tap check remove)) [
                  | none ↦ none
                  | some parameters ↦ some (exe, parameters)
                ]
              ]
        ]
      ]
    ]

pub data PrepareError : Type 0 where
  refused : Refusal → PrepareError
  not_set_up not_checked unavailable no_tap no_options : PrepareError
  guest : GuestError → PrepareError

-- Whether the LAN that is set up is that of the settings and still there.
unfoldable pub check_lan : Windows → NetworkSettings → Result PrepareError (Unit {0})
check_lan w s =
    if not (w.same_text w.managed s.tap_guid) || not (w.same_text w.ethernet s.ethernet_guid)
    then err not_set_up
    else elim (setup_command w 324 1024 s.ethernet_guid s.tap_guid true false) [
      | none ↦ err not_set_up
      | some (exe, parameters) ↦
          if not (w.starts exe parameters) then err not_checked else elim w.exit_code [
            | none ↦ err unavailable
            | some code ↦ if code == 0 then ok tt else err unavailable
          ]
    ]

-- The name of the last TAP adapter with this identifier.
unfoldable pub tap_name : Windows → Bytes → Bytes → List NetworkAdapter → Bytes
tap_name w guid name [] = name
tap_name w guid name (a ∷ rest) =
    tap_name w guid (if a.tap && w.same_text a.guid guid then a.name else name) rest

-- The name of the adapter for the LAN, and no name for the plain network.
unfoldable pub lan_name : Windows → NetworkSettings → Result PrepareError Bytes
lan_name w s =
    let name = tap_name w s.tap_guid [] w.adapters in
    if s.lan == 0 then ok [] else elim (check_lan w s) [
      | err e ↦ err e
      | ok _ ↦ if length name == 0 then err no_tap else ok name
    ]

-- From the options on.
unfoldable pub with_options :
    NetworkSettings → Calls → Bytes → Bytes → Folder → Result PrepareError Bytes × Folder
with_options s c drivec options d =
    let (r, d') = prepare_guest s c drivec d in
    elim r [ err e ↦ (err (guest e), d') | ok _ ↦ (ok options, d') ]

-- QEMU's options and the folder; `size` is the room for the options.
unfoldable pub network_prepare :
    Windows → NetworkSettings → Calls → Bytes → ℕ → Folder → Result PrepareError Bytes × Folder
network_prepare w s c drivec size d = elim (network_config_valid s) [
  | err e ↦ (err (refused e), d)
  | ok _ ↦ elim (lan_name w s) [
    | err e ↦ (err e, d)
    | ok name ↦ elim (network_qemu_options s name size) [
      | none ↦ (err no_options, d)
      | some options ↦ with_options s c drivec options d
    ]
  ]
]
