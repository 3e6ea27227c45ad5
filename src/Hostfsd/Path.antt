-- ===== src/Hostfsd/Path.antt =====
-- tools/hostfsd/shinogi-hostfsd.c, "Path containment": from a path on the wire to a host path.
pub mod Under
pub mod Walk
pub mod Contained
use shinogi.Base.{
  ℕ, ◌+◌, ◌-◌, Bool, true, false, not, ◌&&◌, ◌||◌, [], ◌∷◌, ◌++◌, Option, none, some, Bytes, equal,
  starts_with, length, take, get_or, leb, ltb, ◌==◌, if◌then◌else◌,
}
use shinogi.Base.Result.{Result, ok, err, ◌>>=◌}
use shinogi.Hostfsd.Proto.{Status, epthnf, max_path, fullpath_max}
use shinogi.Hostfsd.Config.{Config}
use shinogi.Hostfsd.Host.{Host}
use shinogi.Hostfsd.Names.{component_ok, match_fold_in}

-- `resolved[rootlen]` is the terminating NUL where `resolved` is no longer than the root.
unfoldable pub under_root : Bytes → Bytes → Bool
unfolding equal starts_with
under_root root resolved =
    if equal resolved root
    then true
    else if not (starts_with resolved root)
    then false
    else get_or resolved (length root) 0 == b'/'

-- The joined path so far, and the spelling of its last component.
pub record Joined : Type 0 where
  pub joined : Bytes
  pub leaf : Bytes

-- The memory that `parent` is copied from: `joined` up to the separator before the leaf.
abbrev pub parent_of : Joined → Bytes
parent_of j = take (length j.joined - length j.leaf - 1) j.joined

module _ (H : Host) (os : H.Os) (root : Bytes) where
  unfoldable pub dir_under_root : Bytes → Bool
  dir_under_root dir = elim (H.realpath os dir) [
    | none ↦ false
    | some resolved ↦ under_root root resolved
  ]

  -- A directory that does not open matches nothing.
  unfoldable pub match_fold : Bytes → Bytes → Option Bytes
  match_fold dir comp = elim (H.list_dir os dir) [
    | err _ ↦ none
    | ok names ↦ match_fold_in names comp
  ]

  -- The spelling in which a component is joined to `joined`.
  unfoldable pub spelling : Bytes → Bytes → Bytes
  spelling joined comp = elim (H.lstat os (joined ++ b'/' ∷ comp)) [
    | some _ ↦ comp
    | none ↦
        if dir_under_root joined
        then elim (match_fold joined comp) [ none ↦ comp | some folded ↦ folded ]
        else comp
  ]

  -- The body of the loop at the end of a component.
  unfoldable pub join_component : Bytes → Bytes → Result Status Joined
  join_component joined [] = err epthnf
  join_component joined (c ∷ cs) =
      if not (component_ok (c ∷ cs))
      then err epthnf
      else let leaf = spelling joined (c ∷ cs) in
        ok (record { joined = joined ++ b'/' ∷ leaf; leaf = leaf })

  -- The loop over `rel`, with the bytes between `start` and `i` in `comp`.
  unfoldable pub join_path : Bytes → Bytes → Bytes → Result Status Joined
  join_path joined comp [] = join_component joined comp
  join_path joined comp (c ∷ rest) = elim (c == b'/') [
    | false ↦ join_path joined (comp ++ c ∷ []) rest
    | true ↦ do j ← join_component joined comp; join_path j.joined [] rest
  ]

  -- From the loop's end to the end of `resolve_path`.
  unfoldable pub resolve_joined : Joined → Result Status Bytes
  resolve_joined j = elim (H.realpath os (parent_of j)) [
    | none ↦ err epthnf
    | some resolved ↦
        let out = resolved ++ b'/' ∷ j.leaf in
        if not (under_root root resolved)
        then err epthnf
        else if leb fullpath_max (length resolved + 1 + length j.leaf)
        then err epthnf
        else elim (H.realpath os out) [
          | none ↦ ok out
          | some target ↦ if not (under_root root target) then err epthnf else ok out
        ]
  ]

  abbrev is_absolute : Bytes → Bool
  is_absolute [] = false
  is_absolute (c ∷ _) = c == b'/' || c == b'\\'

  unfoldable pub resolve_path : Bytes → Result Status Bytes
  resolve_path rel =
      if ltb max_path (length rel)
      then err epthnf
      else if is_absolute rel
      then err epthnf
      else if length rel == 0
      then ok root
      else if leb fullpath_max (length root + 1 + length rel)
      then err epthnf
      else do j ← join_path root [] rel; resolve_joined j
