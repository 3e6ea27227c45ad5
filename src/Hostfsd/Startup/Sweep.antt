-- ===== src/Hostfsd/Startup/Sweep.antt =====
-- What the writable pass touches.
use shinogi.Base.{
  ℕ, zero, suc, Bool, true, false, List, [], ◌∷◌, ◌++◌, ◌≡◌, inl, inr, refl, arith, Bytes, length,
  leb, if◌then◌else◌, Bool-cases, Option-cases,
}
use shinogi.Base.Result.{Result-cases}
use shinogi.Hostfsd.Host.{Host}
use shinogi.Hostfsd.Names.{is_dots}
use shinogi.Hostfsd.Path.{under_root}
use shinogi.Hostfsd.Path.Under.{IsUnder, under_root_iff}
use shinogi.Hostfsd.Proto.{fullpath_max}
use shinogi.Hostfsd.Startup.Writable.{
  Sweep, clear_readonly, visit, visit_all, make_writable, writable_pass,
}

-- `P` holds after every `chmod` of a path that is the root or lies below it, if it held before.
abbrev pub Survives : (H : Host) → Bytes → (H.Os → Type 0) → Type 0
Survives H root P =
    (path : Bytes) (mode : ℕ) (os : H.Os) → IsUnder root path → P os → P (H.chmod path mode os).1

module _ (H : Host) (root : Bytes) (P : H.Os → Type 0) (survives : Survives H root P) where
  clear_readonly-keeps :
      (path : Bytes) (s : Sweep H.Os)
      → IsUnder root path
      → P s.os
      → P (clear_readonly H root path s).os
  unfolding clear_readonly
  clear_readonly-keeps path s u p = grind (arith, survives)

  -- What is asked of the recursive call.
  abbrev Keeps : (Bytes → Sweep H.Os → Sweep H.Os) → Type 0
  Keeps f = (path : Bytes) (s : Sweep H.Os) → IsUnder root path → P s.os → P (f path s).os

  either : (b : Bool) (x y : Sweep H.Os) → P x.os → P y.os → P (if b then x else y).os
  either true x y p q = p
  either false x y p q = q

  visit-Keeps :
      (descend : Bytes → Sweep H.Os → Sweep H.Os) (dir name : Bytes) (s : Sweep H.Os)
      → Keeps descend
      → P s.os
      → P (visit H root descend dir name s).os
  unfolding visit
  visit-Keeps descend dir name s k p =
      let child = dir ++ b'/' ∷ name in
      either (is_dots name) _ _ p (
        either (leb fullpath_max (length child)) _ _ p
          (elim (Option-cases (H.realpath s.os child)) [
            | inl e ↦ rw e p
            | inr (resolved, e) ↦ rw e (elim (Bool-cases (under_root root resolved)) [
              | inr outside ↦ rw outside p
              | inl inside ↦
                  let u = (under_root_iff root resolved).0 inside in
                  rw inside (elim (Option-cases (H.lstat s.os child)) [
                    | inl f ↦ rw f p
                    | inr (st, f) ↦ rw f (
                        either st.is_dir _ _ (k resolved s u p)
                          (clear_readonly-keeps resolved s u p))
                  ])
            ])
          ]))

  visit_all-Keeps :
      (descend : Bytes → Sweep H.Os → Sweep H.Os) (dir : Bytes) (names : List Bytes)
      (s : Sweep H.Os)
      → Keeps descend
      → P s.os
      → P (visit_all H root descend dir names s).os
  unfolding visit_all
  visit_all-Keeps descend dir [] s k p = p
  visit_all-Keeps descend dir (n ∷ names) s k p =
      visit_all-Keeps descend dir names (visit H root descend dir n s) k
        (visit-Keeps descend dir n s k p)

  make_writable-Keeps : (levels : ℕ) → Keeps (make_writable H root levels)
  unfolding make_writable
  make_writable-Keeps zero dir s u p = p
  make_writable-Keeps (suc levels) dir s u p =
      let s' = clear_readonly H root dir s in
      let p' = clear_readonly-keeps dir s u p in
      elim (Result-cases (H.list_dir s'.os dir)) [
        | inr (e, m) ↦ rw (m, make_writable) p'
        | inl (names, m) ↦
            rw (m, make_writable)
              (visit_all-Keeps (make_writable H root levels) dir names s'
                (make_writable-Keeps levels) p')
      ]

  -- The writable pass changes the mode of no path but the root and those below it: whatever every
  -- such change leaves true of the host is true after the pass. On a read-only drive the pass
  -- changes nothing.
  pub writable_pass-keeps :
      (read_only : Bool) (os : H.Os)
      → P os
      → P (writable_pass H root read_only os).os
        × (read_only ≡ true → (writable_pass H root read_only os).os ≡ os)
  unfolding writable_pass
  writable_pass-keeps read_only os p =
      (either read_only _ _ p (make_writable-Keeps 33 root _ (inl refl) p), λ e. ground arith)
