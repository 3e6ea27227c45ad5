-- ===== src/Launcher/Actions.antt =====
-- tools/shinogi-launcher.c: what the launcher asks of the machine and what it does to it.
use shinogi.Base.{ℕ, ◌-◌, Bool, List, Option, Bytes, take}

-- What the launcher does. A list of these, the last first, is what it has done so far.
pub data Action : Type 0 where
  mkdir : Bytes → Action
  copy_tree : Bytes → Bytes → Action
  unlink : Bytes → Action
  start_helper : Bytes → List Bytes → Action
  pause : Action
  kill_helper : Action
  exec_qemu : Bytes → List Bytes → Action

abbrev pub Trace : Type 0
Trace = List Action

-- The answers of the machine, which may hang on all that was done before: whether `stat` succeeds,
-- whether the file is a regular one, the names in a directory that opens, the contents of a file
-- that opens, whether `fork` succeeds, `cp` ended with 0, the helper has ended, and `execlp`
-- replaced the process. `loginctl` is the output of a command that `popen` starts.
pub record World : Type 0 where
  pub exists : Trace → Bytes → Bool
  pub regular : Trace → Bytes → Bool
  pub entries : Trace → Bytes → Option (List Bytes)
  pub contents : Trace → Bytes → Option Bytes
  pub copied : Trace → Bool
  pub forks : Trace → Bool
  pub helper_ended : Trace → Bool
  pub execs : Trace → Bool
  pub loginctl : Bytes → Option Bytes
  pub getenv : Bytes → Option Bytes
  pub self_exe : Option Bytes
  pub pid : Bytes

-- `SHINOGI_VERSION`, `SHINOGI_EDITION` and `SHINOGI_CPU`, which the build sets.
pub record Build : Type 0 where
  pub version : Bytes
  pub edition : Bytes
  pub cpu : Bytes

-- `snprintf` into a buffer of so many bytes.
abbrev pub snprintf : ℕ → Bytes → Bytes
snprintf size text = take (size - 1) text

abbrev pub path_max : ℕ
path_max = 4096

-- How the launcher ends: with an exit status, or as the emulator.
pub data Ending : Type 0 where
  exits : ℕ → Ending
  becomes_qemu : Ending
