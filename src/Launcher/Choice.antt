-- ===== src/Launcher/Choice.antt =====
-- tools/shinogi-launcher.c: the places of the programs, of drive C and of the guest's image, and
-- the display.
use shinogi.Base.{
  c_string, ◌+◌, ◌-◌, Bool, true, false, ◌&&◌, ◌||◌, List, [], ◌∷◌, ◌++◌, Option, none, some, Bytes,
  codes, length, equal, take, ◌==◌, if◌then◌else◌,
}
use shinogi.Win.Network.Hook.{line_contains}
use shinogi.Win.Resolution.Stored.{fgets}
use shinogi.Launcher.Actions.{World, Trace, snprintf, path_max}

-- The text before the last slash; `none` where there is no slash.
unfoldable pub before_slash : Bytes → Option Bytes
before_slash [] = none
before_slash (c ∷ cs) = elim (before_slash cs) [
  | some dir ↦ some (c ∷ dir)
  | none ↦ if c == b'/' then some [] else none
]

-- The directory of the program; `none` where it cannot be told.
unfoldable pub self_dir : World → Option Bytes
self_dir m = elim m.self_exe [
  | none ↦ none
  | some path ↦ if length path == 0 then none else before_slash (take (path_max - 1) path)
]

-- Whether the only names are those of the directory itself and its parent.
unfoldable pub only_dots : List Bytes → Bool
only_dots [] = true
only_dots (name ∷ names) = (equal name (codes ".") || equal name (codes "..")) && only_dots names

unfoldable pub dir_is_empty_or_absent : World → Trace → Bytes → Bool
dir_is_empty_or_absent m t path = elim (m.entries t path) [
  | none ↦ true
  | some names ↦ only_dots names
]

abbrev pub or_else : Option Bytes → Bytes → Bytes
or_else none text = text
or_else (some value) text = value

-- The bundled emulator, or the one that the shell finds.
unfoldable pub qemu_path : World → Trace → Bytes → Bytes
qemu_path m t dir =
    let bundled = snprintf (path_max + 32) (dir ++ codes "/qemu/bin/qemu-system-m68k") in
    if m.exists t bundled then bundled else codes "qemu-system-m68k"

-- The folder of drive C.
unfoldable pub hostfs_path : World → Bytes
hostfs_path m = elim (m.getenv (codes "SHINOGI_HOSTFS")) [
  | some path ↦ snprintf path_max path
  | none ↦
      snprintf path_max (or_else (m.getenv (codes "HOME")) (codes ".") ++ codes "/shinogi-drive-c")
]

-- The guest's image: one of the user's, one beside the program or one in the bundle.
unfoldable pub guest_image : World → Trace → Bytes → Bytes → Option Bytes
guest_image m t dir hostfs =
    let custom = snprintf (path_max + 32) (hostfs ++ codes "/CUSTOM.IMG") in
    let beside = snprintf (path_max + 32) (dir ++ codes "/emutos-virt.elf") in
    let bundled = snprintf (path_max + 32) (dir ++ codes "/../Resources/emutos-virt.elf") in
    if m.exists t custom && m.regular t custom
    then some custom
    else if m.exists t beside
    then some beside
    else if m.exists t bundled
    then some bundled
    else none

-- Whether logind calls this session remote.
unfoldable pub session_is_remote : World → Bool
session_is_remote m = elim (m.getenv (codes "XDG_SESSION_ID")) [
  | none ↦ false
  | some id ↦
      if length id == 0
      then false
      else elim (m.loginctl (
          snprintf 256
            (codes "loginctl show-session " ++ (id ++ codes " -p Remote 2>/dev/null")))) [
              | none ↦ false
              | some output ↦ line_contains (c_string (fgets 127 output).0) (codes "Remote=yes")
            ]
]

-- An argument, or else the environment, unless it is empty; or else what suits the session.
unfoldable pub wanted_display : World → List Bytes → Bytes
wanted_display m args =
    let given : Bytes = elim args [
      | [] ↦ or_else (m.getenv (codes "SHINOGI_DISPLAY")) []
      | arg ∷ _ ↦ arg
    ] in
    if length given == 0 then (if session_is_remote m then codes "gtk" else codes "sdl") else given

unfoldable pub display_option : World → List Bytes → Bytes
display_option m args =
    let want = wanted_display m args in
    snprintf 128 (
      if equal want (codes "gtk")
      then codes "gtk,zoom-to-fit=off,scale="
        ++ or_else (m.getenv (codes "SHINOGI_SCALE")) (codes "1.5")
      else want)
