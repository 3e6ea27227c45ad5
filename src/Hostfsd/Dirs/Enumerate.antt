-- ===== src/Hostfsd/Dirs/Enumerate.antt =====
-- What a client sees that follows the cookies of READDIR or of READDIR_BATCH from 0 to the end.
use mathlib.Core.Option
use shinogi.Base.{
  ℕ, zero, suc, ◌+◌, ◌≤◌, ◌<◌, Bool, true, false, List, [], ◌++◌, Option, none, some, Bytes, ◌≡◌,
  inl, inr, refl, sym, ap, ◌∙◌, arith, length, drop, drop-drop, All-drop, length-drop, All,
}
use shinogi.Hostfsd.Daemon.{Daemon, DirHandle, Reply, dir_of}
use shinogi.Hostfsd.Dirs.{readdir_op}
use shinogi.Hostfsd.Host.{Host}
use shinogi.Hostfsd.Proto.{e_ok, enmfil, max_name}
use shinogi.Hostfsd.Dirs.Pages.{names_of, visible, IsPage, single-IsPage}
use shinogi.Hostfsd.Dirs.Batch.{batch-IsPage}

-- A client that asks for `page` at each cookie up to ENMFIL; `none` if another error comes, or if
-- it is still asking after `fuel` calls.
unfoldable pub enumerate : ℕ → Bool → (ℕ → Reply) → ℕ → Option (List Bytes)
enumerate zero batch page cookie = none
enumerate (suc fuel) batch page cookie =
    let r = page cookie in
    let rest = enumerate fuel batch page r.ra in
    elim r.status [
      | e_ok ↦ Option.map (λ ns. names_of batch r.out ++ ns) rest
      | enmfil ↦ some []
      | _ ↦ none
    ]

enumerate-next :
    (batch : Bool) (fuel : ℕ) (page : ℕ → Reply) (c : ℕ)
    → (page c).status ≡ e_ok
    → enumerate (suc fuel) batch page c
      ≡ Option.map (λ ns. names_of batch (page c).out ++ ns) (enumerate fuel batch page (page c).ra)
unfolding enumerate
enumerate-next batch fuel page c s = rw (s, enumerate)

module _ (H : Host) (d : Daemon H.Os) (a : ℕ) (h : DirHandle)
    (found : dir_of d.dirs a ≡ some h) where
  readdir_op-IsPage :
      (batch : Bool) (c : ℕ)
      → All (λ n. length n ≤ max_name) h.names
      → IsPage H d.os h.path batch (drop c h.names) c (readdir_op H batch a c d).0
  unfolding readdir_op
  readdir_op-IsPage false c short =
      rw (found, readdir_op) (single-IsPage H d.os h.path (drop c h.names) c)
  readdir_op-IsPage true c short =
      rw (found, readdir_op)
        (batch-IsPage H d.os h.path (drop c h.names) c (All-drop _ c h.names short))

  enumerate-from :
      (batch : Bool) (fuel c : ℕ)
      → All (λ n. length n ≤ max_name) h.names
      → length (drop c h.names) < fuel
      → enumerate fuel batch (λ c. (readdir_op H batch a c d).0) c
        ≡ some (visible H d.os h.path (drop c h.names))
  unfolding enumerate
  enumerate-from batch zero c short lt = elim lt [ ]
  enumerate-from batch (suc fuel) c short lt = elim (readdir_op-IsPage batch c short) [
    | inl (s, v) ↦ rw (s, v, enumerate) refl
    | inr (k, pos, within, s, l, v) ↦
        let page = λ (x : ℕ). (readdir_op H batch a x d).0 in
        let found = names_of batch (page c).out in
        enumerate-next batch fuel page c s
        ∙ ap (λ x. Option.map (λ ns. found ++ ns) (enumerate fuel batch page x)) l
        ∙ ap (Option.map (λ ns. found ++ ns)) (
            enumerate-from batch fuel (c + k) short
              (omega (arith, length-drop {0} c h.names, length-drop {0} (c + k) h.names)))
        ∙ ap (λ ns. some (found ++ visible H d.os h.path ns)) (sym (drop-drop k c h.names))
        ∙ ap some (sym v)
  ]

  -- Following the cookies from 0, with READDIR as with READDIR_BATCH, yields each name of the
  -- snapshot that the host can still find, once and in the snapshot's order, and then ends: one
  -- call for each name and one more are enough.
  pub readdir_op-enumerates :
      (batch : Bool) (fuel : ℕ)
      → All (λ n. length n ≤ max_name) h.names
      → length h.names < fuel
      → enumerate fuel batch (λ c. (readdir_op H batch a c d).0) 0
        ≡ some (visible H d.os h.path h.names)
  readdir_op-enumerates batch fuel short lt = enumerate-from batch fuel 0 short lt
