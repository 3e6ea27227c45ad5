-- ===== src/Hostfsd/Startup.antt =====
-- tools/hostfsd/shinogi-hostfsd.c, "Startup": the label, the root and the arguments.
pub mod Arguments
pub mod Label
pub mod Writable
pub mod Sweep
pub mod Accept
use shinogi.Base.{
  ℕ, zero, suc, ◌+◌, ◌-◌, Bool, true, false, not, ◌&&◌, ◌||◌, List, [], ◌∷◌, ◌++◌, Option, none,
  some, map, Bytes, codes, equal, length, take, get_or, ltb, leb, ◌==◌, if◌then◌else◌,
}
use shinogi.Base.Result.{Result, ok, err, ◌>>=◌}
use shinogi.Hostfsd.Config.{Config}
use shinogi.Hostfsd.Host.{Host}

abbrev pub is_separator : ℕ → Bool
is_separator c = c == b'/' || c == b'\\'

-- The loop over `p`, with what `base` points to as its first argument.
unfoldable pub base_name : Bytes → Bytes → Bytes
base_name base [] = base
base_name base (c ∷ cs) = if is_separator c then base_name cs cs else base_name base cs

unfoldable pub label_byte : ℕ → ℕ
label_byte ch = if leb 0x20 ch && ltb ch 0x7f then ch else b'_'

-- `label` has 16 bytes, of which the last is the NUL.
unfoldable pub make_label : Bytes → Bytes
make_label dir =
    let label = map label_byte (take 15 (base_name dir dir)) in
    if length label == 0 then codes "HOSTFS" else label

-- The loop that cuts trailing separators, with `rootlen` as its first argument.
unfoldable pub trim_root : ℕ → Bytes → Bytes
trim_root (suc (suc n)) root =
    let rest = trim_root (suc n) (take (suc n) root) in
    if is_separator (get_or root (suc n) 0) then rest else root
trim_root _ root = root

-- What the loop over `argv` settles.
pub record Settings : Type 0 where
  pub dir : Option Bytes
  pub sockpath : Option Bytes
  pub readyfile : Option Bytes
  pub do_listen : Bool
  pub once : Bool
  pub read_only : Bool
  pub verbose : Bool

abbrev pub no_settings : Settings
no_settings = record {
  dir = none;
  sockpath = none;
  readyfile = none;
  do_listen = false;
  once = false;
  read_only = false;
  verbose = false;
}

-- The options that take the next argument; `none` for any other.
unfoldable pub set_value : Bytes → Bytes → Settings → Option Settings
unfolding equal
set_value name v s =
    if equal name (codes "--root")
    then some (record s { dir = some v })
    else if equal name (codes "--listen")
    then some (record s { sockpath = some v; do_listen = true })
    else if equal name (codes "--connect")
    then some (record s { sockpath = some v; do_listen = false })
    else if equal name (codes "--ready-file")
    then some (record s { readyfile = some v })
    else none

unfoldable pub set_flag : Bytes → Settings → Option Settings
unfolding equal
set_flag name s =
    if equal name (codes "--once")
    then some (record s { once = true })
    else if equal name (codes "--read-only")
    then some (record s { read_only = true })
    else if equal name (codes "--verbose")
    then some (record s { verbose = true })
    else none

-- The loop over `argv`; `none` is the message on usage.
unfoldable pub parse_args : List Bytes → Settings → Option Settings
parse_args [] s = some s
parse_args (name ∷ []) s = set_flag name s
parse_args (name ∷ v ∷ rest) s = elim (set_value name v s) [
  | some s' ↦ parse_args rest s'
  | none ↦ elim (set_flag name s) [ none ↦ none | some s' ↦ parse_args (v ∷ rest) s' ]
]

module _ (H : Host) where
  -- From `plat_realpath` to `make_label`; the error is the exit status.
  unfoldable pub settle_root : H.Os → Bool → Bytes → Result ℕ Config
  settle_root os read_only dir = elim (H.realpath os dir) [
    | none ↦ err 1
    | some root ↦ elim (H.stat os root) [
      | err _ ↦ err 1
      | ok st ↦
          if not st.is_dir
          then err 1
          else let trimmed = trim_root (length root) root in
            ok (record { root = trimmed; read_only = read_only; label = make_label trimmed })
    ]
  ]

  -- The beginning of `main`, up to the writable pass.
  unfoldable pub settle_args : H.Os → List Bytes → Result ℕ (Settings × Config)
  settle_args os argv = elim (parse_args argv no_settings) [
    | none ↦ err 2
    | some s ↦ elim s.dir [
      | none ↦ err 2
      | some dir ↦ elim s.sockpath [
        | none ↦ err 2
        | some _ ↦ do cfg ← settle_root os s.read_only dir; ok (s, cfg)
      ]
    ]
  ]
