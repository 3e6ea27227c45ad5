-- ===== src/Hostfsd/Startup/Writable.antt =====
-- tools/hostfsd/shinogi-hostfsd.c, "Make the served folder writable".
use Prim.Native.Nat.{bit_and, bit_or}
use shinogi.Base.{
  ℕ, zero, suc, ◌+◌, Bool, not, List, [], ◌∷◌, ◌++◌, none, some, Bytes, length, leb, ◌==◌,
  if◌then◌else◌,
}
use shinogi.Base.Result.{ok, err}
use shinogi.Hostfsd.Host.{Host}
use shinogi.Hostfsd.Names.{is_dots}
use shinogi.Hostfsd.Path.{under_root}
use shinogi.Hostfsd.Proto.{fullpath_max}

-- `ro_cleared`, beside the host's state.
pub record Sweep (Os : Type 0) : Type 0 where
  pub cleared : ℕ
  pub os : Os

module _ (H : Host) (root : Bytes) where
  -- `S_IWUSR` is 0200.
  unfoldable pub clear_readonly : Bytes → Sweep H.Os → Sweep H.Os
  clear_readonly path s = elim (H.stat s.os path) [
    | err _ ↦ s
    | ok st ↦
        if not (bit_and st.mode 0o200 == 0)
        then s
        else let (changed, os') = H.chmod path (bit_or st.mode 0o200) s.os in
          elim changed [
            | err _ ↦ record s { os = os' }
            | ok _ ↦ record { cleared = s.cleared + 1; os = os' }
          ]
  ]

  -- The body of the loop for one entry; `descend` is the recursive call.
  unfoldable pub visit : (Bytes → Sweep H.Os → Sweep H.Os) → Bytes → Bytes → Sweep H.Os → Sweep H.Os
  visit descend dir name s =
      let child = dir ++ b'/' ∷ name in
      if is_dots name
      then s
      else if leb fullpath_max (length child)
      then s
      else elim (H.realpath s.os child) [
        | none ↦ s
        | some resolved ↦ if not (under_root root resolved) then s else elim (H.lstat s.os child) [
          | none ↦ s
          | some st ↦ if st.is_dir then descend resolved s else clear_readonly resolved s
        ]
      ]

  unfoldable pub visit_all :
      (Bytes → Sweep H.Os → Sweep H.Os) → Bytes → List Bytes → Sweep H.Os → Sweep H.Os
  visit_all descend dir [] s = s
  visit_all descend dir (name ∷ names) s = visit_all descend dir names (visit descend dir name s)

  -- At `depth`, with `levels` for `33 - depth`; the entries are read before the first is visited.
  unfoldable pub make_writable : ℕ → Bytes → Sweep H.Os → Sweep H.Os
  make_writable zero dir s = s
  make_writable (suc levels) dir s =
      let s' = clear_readonly dir s in
      elim (H.list_dir s'.os dir) [
        | err _ ↦ s'
        | ok names ↦ visit_all (make_writable levels) dir names s'
      ]

-- The pass that `main` makes before the channel comes up.
unfoldable pub writable_pass : (H : Host) → Bytes → Bool → H.Os → Sweep H.Os
writable_pass H root read_only os =
    let s : Sweep H.Os = record { cleared = 0; os = os } in
    if read_only then s else make_writable H root 33 root s
