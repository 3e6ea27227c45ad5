-- ===== src/Hostfsd/Path/Contained.antt =====
-- `resolve_path` as a whole: the security boundary of the served folder.
use mathlib.Core.Bool.{false≢true}
use shinogi.Base.{
  starts_with, ◌<◌, true, false, List, [], ◌∷◌, ◌++◌, some, ◌≡◌, ◌≢◌, ◌⊎◌, inl, inr, refl, sym, ap,
  ◌∙◌, arith, Bytes, length, length-append, ◌==◌, Bool-cases, Option-cases, All,
}
use shinogi.Base.Result.{ok, err, ◌>>=◌, bind-eq-ok, bind-eq-err, Result-cases}
use shinogi.Hostfsd.Proto.{Status, epthnf, fullpath_max}
use shinogi.Hostfsd.Host.{Host}
use shinogi.Hostfsd.Names.{component_ok}
use shinogi.Hostfsd.Path.Under.{IsUnder, under_root_iff}
use shinogi.Hostfsd.Path.Walk.{
  components, NoSlash, SameNames, join_all, join_path-IsSpelled, parent_of-IsSpelled,
}
use shinogi.Hostfsd.Path.{
  Joined, parent_of, join_component, join_path, resolve_joined, resolve_path,
}

-- `out` stands for the non-empty path `rel`: it is a resolved directory, which is the root or lies
-- below it, a separator and one more name.
pub record IsBelow (H : Host) (os : H.Os) (root rel out : Bytes) : Type 0 where
  pub dir : Bytes
  pub parent : Bytes
  pub leaf : Bytes
  pub names : List Bytes
  pub same : SameNames names (components [] rel)
  pub spelled : dir ++ b'/' ∷ leaf ≡ join_all root names
  pub resolves : H.realpath os dir ≡ some parent
  pub parent_under : IsUnder root parent
  pub is_out : out ≡ parent ++ b'/' ∷ leaf
  pub no_slash : NoSlash leaf
  pub leaf_ok : component_ok leaf ≡ true
  pub pieces_ok : All (λ c. component_ok c ≡ true) (components [] rel)
  pub target_under : (target : Bytes) → H.realpath os out ≡ some target → IsUnder root target
  pub fits : length out < fullpath_max

abbrev pub IsContained : (H : Host) → H.Os → Bytes → Bytes → Bytes → Type 0
IsContained H os root rel out = (rel ≡ []) × (out ≡ root) ⊎ IsBelow H os root rel out

-- What `resolve_joined` has checked of the path that it returns.
record IsResolved (H : Host) (os : H.Os) (root out : Bytes) (j : Joined) : Type 0 where
  parent : Bytes
  resolves : H.realpath os (parent_of j) ≡ some parent
  parent_under : IsUnder root parent
  is_out : out ≡ parent ++ b'/' ∷ j.leaf
  target_under : (target : Bytes) → H.realpath os out ≡ some target → IsUnder root target
  fits : length out < fullpath_max

module _ (H : Host) (os : H.Os) (root : Bytes) where
  resolve_joined-IsResolved :
      (j : Joined) (out : Bytes) → resolve_joined H os root j ≡ ok out → IsResolved H os root out j
  unfolding resolve_joined
  resolve_joined-IsResolved j out h = elim (Option-cases (H.realpath os (parent_of j))) [
    | inl absent ↦ absurd (ground arith)
    | inr (parent, e) ↦ record {
      parent = parent;
      resolves = e;
      parent_under = (under_root_iff root parent).0 (ground arith);
      is_out = ground arith;
      target_under = λ target t. (under_root_iff root target).0 (ground arith);
      fits = ground (arith, length-append {0} parent (b'/' ∷ j.leaf));
    }
  ]

  -- What a resolved path is: the root itself for the empty path; otherwise a resolved directory
  -- that is the root or lies below it, a separator and a leaf. The directory and the leaf spell
  -- the guest's components up to the case of letters, each component and the leaf have passed the
  -- vetting, the leaf holds no separator, the result fits its buffer, and where it exists, what it
  -- resolves to is the root or lies below it.
  pub resolve_path-IsContained :
      (rel out : Bytes) → resolve_path H os root rel ≡ ok out → IsContained H os root rel out
  unfolding resolve_path
  resolve_path-IsContained [] out h = inl (refl, ground arith)
  resolve_path-IsContained (c ∷ cs) out h =
      let rel = c ∷ cs in
      let (j, walked, resolved) =
        bind-eq-ok (join_path H os root root [] rel) (resolve_joined H os root) (ground arith) in
      let s = join_path-IsSpelled H os root root [] rel j tt walked in
      let r = resolve_joined-IsResolved j out resolved in
      inr (record {
        dir = s.dir;
        parent = r.parent;
        leaf = j.leaf;
        names = s.names;
        same = s.same;
        spelled = sym s.splits ∙ s.is_join;
        resolves = rw (parent_of-IsSpelled s) at r.resolves;
        parent_under = r.parent_under;
        is_out = r.is_out;
        no_slash = s.no_slash;
        leaf_ok = s.leaf_ok;
        pieces_ok = s.pieces_ok;
        target_under = r.target_under;
        fits = r.fits;
      })

  resolve_joined-error : (j : Joined) {e : Status} → resolve_joined H os root j ≡ err e → e ≡ epthnf
  unfolding resolve_joined
  resolve_joined-error j h = ground arith

  join_component-error :
      (joined comp : Bytes) {e : Status} → join_component H os root joined comp ≡ err e → e ≡ epthnf
  unfolding join_component
  join_component-error joined [] h = ground arith
  join_component-error joined (c ∷ cs) h = ground arith

  join_path-error :
      (joined comp rest : Bytes) {e : Status}
      → join_path H os root joined comp rest ≡ err e
      → e ≡ epthnf
  unfolding join_path
  join_path-error joined comp [] h = join_component-error joined comp h
  join_path-error joined comp (c ∷ rest) h = elim (Bool-cases (c == b'/')) [
    | inl slash ↦
        elim (bind-eq-err (join_component H os root joined comp)
          (λ i. join_path H os root i.joined [] rest) (ground arith)) [
            | inl m ↦ join_component-error joined comp m
            | inr (i, m, g) ↦ join_path-error i.joined [] rest g
          ]
    | inr plain ↦ join_path-error joined (comp ++ c ∷ []) rest (ground arith)
  ]

  -- `EPTHNF` is the only failure.
  pub resolve_path-error :
      (rel : Bytes) {e : Status} → resolve_path H os root rel ≡ err e → e ≡ epthnf
  unfolding resolve_path
  resolve_path-error rel {e} h = ground (
    arith,
    λ (m : (join_path H os root root [] rel >>= resolve_joined H os root) ≡ err e). walk m,
  )
    where
      walk : (join_path H os root root [] rel >>= resolve_joined H os root) ≡ err e → e ≡ epthnf
      walk m = elim (bind-eq-err (join_path H os root root [] rel) (resolve_joined H os root) m) [
        | inl g ↦ join_path-error root [] rel g
        | inr (j, _, g) ↦ resolve_joined-error j g
      ]

  -- A non-empty path of which some component fails the vetting is refused with EPTHNF, whatever the
  -- host holds: among them those with `..`, an empty component or a device name.
  pub resolve_path-refuses :
      (rel : Bytes)
      → rel ≢ []
      → ¬ All (λ c. component_ok c ≡ true) (components [] rel)
      → resolve_path H os root rel ≡ err epthnf
  resolve_path-refuses rel nonempty bad = elim (Result-cases (resolve_path H os root rel)) [
    | inr (e, h) ↦ h ∙ ap err (resolve_path-error rel h)
    | inl (out, h) ↦ elim (resolve_path-IsContained rel out h) [
      | inl (empty, _) ↦ absurd (nonempty empty)
      | inr below ↦ absurd (bad below.pieces_ok)
    ]
  ]

  -- Where the served folder is `/`, and resolved paths do not begin with two separators, a path
  -- that is accepted names nothing that exists, except the root.
  pub resolve_path-slash_root :
      (rel out target : Bytes)
      → rel ≢ []
      → root ≡ b'/' ∷ []
      → ((p r : Bytes) → H.realpath os p ≡ some r → starts_with r (b'/' ∷ b'/' ∷ []) ≡ false)
      → resolve_path H os root rel ≡ ok out
      → H.realpath os out ≡ some target
      → target ≡ root
  unfolding starts_with
  resolve_path-slash_root rel out target nonempty slash canonical h t =
      elim (resolve_path-IsContained rel out h) [
        | inl (empty, _) ↦ absurd (nonempty empty)
        | inr below ↦ elim (below.target_under target t) [
          | inl same ↦ same
          | inr (rest, e) ↦ absurd (false≢true (sym (canonical out target t) ∙ rw (e, slash) refl))
        ]
      ]
