-- ===== src/Hostfsd/Dirs/Snapshot.antt =====
-- The snapshot that OPENDIR takes, and its order.
use mathlib.Core.List.{Perm}
use mathlib.Core.List.Perm
use shinogi.Base.{
  ℕ, true, false, List, [], ◌∷◌, ◌++◌, Bytes, ◌≡◌, ◌⊎◌, inl, inr, refl, sym, ap, ◌∙◌, arith, length,
  not_after, if◌then◌else◌, All, append-nil, append_assoc, Bool-cases, Option-cases,
}
use shinogi.Base.Result.{ok, bind-eq-ok, Result-cases, ok-injective}
use shinogi.Hostfsd.Dirs.{insert_name, sort_names, is_unlisted, grow, collect, dir_snapshot}
use shinogi.Hostfsd.Host.{Host}
use shinogi.Hostfsd.Names.{component_ok}

-- In `strcmp` order.
abbrev pub IsSorted : List Bytes → Type 0
IsSorted [] = Unit
IsSorted (n ∷ []) = Unit
IsSorted (n ∷ m ∷ ns) = (not_after n m ≡ true) × IsSorted (m ∷ ns)

-- The entries that a guest could send back.
unfoldable pub listable : List Bytes → List Bytes
listable [] = []
listable (e ∷ es) = let rest = listable es in if is_unlisted e then rest else e ∷ rest

not_after_total : (a b : Bytes) → not_after a b ≡ false → not_after b a ≡ true
unfolding not_after
not_after_total [] b h = absurd (cc)
not_after_total (x ∷ a) [] h = refl
not_after_total (x ∷ a) (y ∷ b) h = ground (arith, not_after_total a b)

insert_name-IsSorted : (n : Bytes) (ms : List Bytes) → IsSorted ms → IsSorted (insert_name n ms)
unfolding insert_name
insert_name-IsSorted n [] s = tt
insert_name-IsSorted n (m ∷ []) s = elim (Bool-cases (not_after n m)) [
  | inl before ↦ rw before (before, tt)
  | inr after ↦ rw after (not_after_total n m after, tt)
]
insert_name-IsSorted n (m ∷ k ∷ ms) (a, s) = elim (Bool-cases (not_after n m)) [
  | inl before ↦ rw before (before, (a, s))
  | inr after ↦ rw after (
      placed (not_after_total n m after) a (Bool-cases (not_after n k))
        (insert_name-IsSorted n (k ∷ ms) s))
]
  where
    placed :
        not_after m n ≡ true
        → not_after m k ≡ true
        → (not_after n k ≡ true) ⊎ (not_after n k ≡ false)
        → IsSorted (insert_name n (k ∷ ms))
        → IsSorted (m ∷ insert_name n (k ∷ ms))
    placed p q (inl b) r = rw b (p, rw b at r)
    placed p q (inr b) r = rw b (q, rw b at r)

insert_name-perm : (n : Bytes) (ms : List Bytes) → Perm (insert_name n ms) (n ∷ ms)
unfolding insert_name
insert_name-perm n [] = Perm.refl (n ∷ [])
insert_name-perm n (m ∷ ms) = elim (Bool-cases (not_after n m)) [
  | inl before ↦ rw before (Perm.refl (n ∷ m ∷ ms))
  | inr after ↦ rw after (Perm.trans (Perm.cons m (insert_name-perm n ms)) (Perm.swap n m ms))
]

pub sort_names-IsSorted : (ns : List Bytes) → IsSorted (sort_names ns)
unfolding sort_names
sort_names-IsSorted [] = tt
sort_names-IsSorted (n ∷ ns) = insert_name-IsSorted n (sort_names ns) (sort_names-IsSorted ns)

pub sort_names-perm : (ns : List Bytes) → Perm (sort_names ns) ns
unfolding sort_names
sort_names-perm [] = Perm.refl []
sort_names-perm (n ∷ ns) =
    Perm.trans (insert_name-perm n (sort_names ns)) (Perm.cons n (sort_names-perm ns))

insert_name-All :
    (P : Bytes → Type 0) (n : Bytes) (ms : List Bytes) → P n → All P ms → All P (insert_name n ms)
unfolding insert_name
insert_name-All P n [] h k = (h, tt)
insert_name-All P n (m ∷ ms) h (k, ks) = elim (Bool-cases (not_after n m)) [
  | inl before ↦ rw before (h, (k, ks))
  | inr after ↦ rw after (k, insert_name-All P n ms h ks)
]

sort_names-All : (P : Bytes → Type 0) (ns : List Bytes) → All P ns → All P (sort_names ns)
unfolding sort_names
sort_names-All P [] h = tt
sort_names-All P (n ∷ ns) (h, hs) = insert_name-All P n (sort_names ns) h (sort_names-All P ns hs)

listable-component_ok : (es : List Bytes) → All (λ e. component_ok e ≡ true) (listable es)
unfolding listable
listable-component_ok [] = tt
listable-component_ok (e ∷ es) = elim (Bool-cases (is_unlisted e)) [
  | inl left_out ↦ rw left_out (listable-component_ok es)
  | inr listed ↦ rw listed (ground arith, listable-component_ok es)
]

module _ (H : Host) (os : H.Os) where
  collect-listable :
      (es names : List Bytes) (cap : ℕ) {result : List Bytes}
      → collect H os es names cap ≡ ok result
      → result ≡ names ++ listable es
  unfolding collect listable
  collect-listable [] names cap h = ground (arith, append-nil names)
  collect-listable (e ∷ es) names cap {result} h = elim (Bool-cases (is_unlisted e)) [
    | inl left_out ↦ rw left_out (collect-listable es names cap (ground arith))
    | inr listed ↦ elim (Option-cases (grow H os (length names) cap)) [
      | inl full ↦ absurd (ground arith)
      | inr (cap', e') ↦ rw listed (
          collect-listable es (names ++ e ∷ []) cap' (ground arith)
          ∙ append_assoc names (e ∷ []) (listable es))
    ]
  ]

  -- The snapshot holds each entry of the directory that a guest could send back, as often as the
  -- host lists it, in `strcmp` order, and nothing else.
  pub dir_snapshot-listing :
      (path : Bytes) (names : List Bytes)
      → dir_snapshot H os path ≡ ok names
      → (entries : List Bytes) × (H.list_dir os path ≡ ok entries)
        × IsSorted names
        × Perm names (listable entries)
        × All (λ n. component_ok n ≡ true) names
  unfolding dir_snapshot
  dir_snapshot-listing path names h = elim (Result-cases (H.list_dir os path)) [
    | inr (e, m) ↦ absurd (ground arith)
    | inl (entries, m) ↦
        let (found, c, s) =
          bind-eq-ok (collect H os entries [] 0) (λ ns. ok (sort_names ns)) {y = names}
            (ground arith) in
        let made = sym (ok-injective s) ∙ ap sort_names (collect-listable entries [] 0 c) in
        rw made (
          entries,
          m,
          sort_names-IsSorted _,
          sort_names-perm _,
          sort_names-All _ _ (listable-component_ok entries),
        )
  ]
