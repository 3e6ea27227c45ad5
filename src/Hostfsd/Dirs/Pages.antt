-- ===== src/Hostfsd/Dirs/Pages.antt =====
-- What a reply of READDIR or READDIR_BATCH tells a client.
use shinogi.Base.{
  ℕ, zero, suc, ◌+◌, ◌≤◌, Bool, true, false, List, [], ◌∷◌, ◌++◌, Bytes, ◌≡◌, ◌⊎◌, inl, inr, refl,
  arith, length, take, drop, if◌then◌else◌, Bool-cases,
}
use shinogi.Hostfsd.Daemon.{Reply}
use shinogi.Hostfsd.Dirs.{no_page, add_entry, is_listed, readdir_loop, page_reply}
use shinogi.Hostfsd.Frame.{get16}
use shinogi.Hostfsd.Host.{Host}
use shinogi.Hostfsd.Proto.{e_ok, enmfil}

-- The names of a READDIR_BATCH reply, as the protocol lays them out: a cookie of four bytes, a
-- length of two and the name. The fuel is the number of bytes.
unfoldable pub decode_names : ℕ → Bytes → List Bytes
decode_names fuel [] = []
decode_names zero (c ∷ cs) = []
decode_names (suc fuel) (c ∷ cs) =
    let size = get16 (drop 4 (c ∷ cs)) in
    let rest = decode_names fuel (drop (6 + size) (c ∷ cs)) in take size (drop 6 (c ∷ cs)) ∷ rest

-- The names of one reply.
unfoldable pub names_of : Bool → Bytes → List Bytes
names_of false out = out ∷ []
names_of true out = decode_names (length out) out

module _ (H : Host) (os : H.Os) (path : Bytes) where
  -- The names that can still be found on the host.
  unfoldable pub visible : List Bytes → List Bytes
  visible [] = []
  visible (n ∷ ns) = let rest = visible ns in if is_listed H os path n then n ∷ rest else rest

  pub visible-split :
      (k : ℕ) (ns : List Bytes) → visible ns ≡ visible (take k ns) ++ visible (drop k ns)
  unfolding visible
  visible-split zero ns = refl
  visible-split (suc k) [] = refl
  visible-split (suc k) (n ∷ ns) = ground (arith, visible-split k ns)

  -- What a page from `names` must be: the end, or the names up to some later index.
  abbrev pub IsPage : Bool → List Bytes → ℕ → Reply → Type 0
  IsPage batch names idx r =
      (r.status ≡ enmfil) × (visible names ≡ [])
      ⊎ ((k : ℕ) × (1 ≤ k)
          × (k ≤ length names)
          × (r.status ≡ e_ok)
          × (r.ra ≡ idx + k)
          × (visible names ≡ names_of batch r.out ++ visible (drop k names)))

  pub single-IsPage :
      (names : List Bytes) (idx : ℕ)
      → IsPage false names idx (page_reply (readdir_loop H os path false names idx no_page))
  unfolding readdir_loop visible add_entry names_of
  single-IsPage [] idx = inl (refl, refl)
  single-IsPage (n ∷ names) idx = elim (Bool-cases (is_listed H os path n)) [
    | inl here ↦
        rw (here, readdir_loop, visible) (inr (1, omega arith, omega arith, refl, refl, refl))
    | inr gone ↦ elim (single-IsPage names (idx + 1)) [
      | inl (s, v) ↦ rw (gone, readdir_loop, visible) (inl (s, v))
      | inr (k, a, b, s, l, v) ↦
          rw (gone, readdir_loop, visible)
            (inr (suc k, omega arith, omega arith, s, omega arith, v))
    ]
  ]
