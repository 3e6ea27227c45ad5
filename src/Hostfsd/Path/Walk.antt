-- ===== src/Hostfsd/Path/Walk.antt =====
-- The loop of `resolve_path` against the list of the path's components.
use shinogi.Base.{
  ℕ, ◌+◌, ◌-◌, true, false, List, [], ◌∷◌, ◌++◌, Option, none, some, ◌≡◌, ◌≢◌, inl, inr, refl, ap,
  ◌∙◌, arith, Bytes, length, take-length-append, length-append, ◌==◌, Bool-cases, Option-cases, All,
}
use shinogi.Base.Result.{ok, err, bind-eq-ok}
use shinogi.Hostfsd.Host.{Host}
use shinogi.Hostfsd.Names.{ascii_lower, component_ok, name_eq_fold, match_fold_in}
use shinogi.Hostfsd.Names.Fold.{
  name_eq_fold_refl, length-fold, match_fold_in-name_eq_fold, component_ok-fold,
}
use shinogi.Hostfsd.Path.{match_fold, spelling, Joined, parent_of, join_component, join_path}

-- The pieces between the separators; `comp` is what has been read of the first.
unfoldable pub components : Bytes → Bytes → List Bytes
components comp [] = comp ∷ []
components comp (c ∷ rest) = elim (c == b'/') [
  | true ↦ comp ∷ components [] rest
  | false ↦ components (comp ++ c ∷ []) rest
]

abbrev pub NoSlash : Bytes → Type 0
NoSlash = All (λ c. c ≢ b'/')

NoSlash-concat : (cs : Bytes) (c : ℕ) → NoSlash cs → c ≢ b'/' → NoSlash (cs ++ c ∷ [])
NoSlash-concat [] c h k = (k, tt)
NoSlash-concat (x ∷ cs) c (h, hs) k = (h, NoSlash-concat cs c hs k)

NoSlash-fold : (a b : Bytes) → name_eq_fold a b ≡ true → NoSlash b → NoSlash a
unfolding name_eq_fold ascii_lower
NoSlash-fold [] b h k = tt
NoSlash-fold (x ∷ a) [] h k = absurd (cc)
NoSlash-fold (x ∷ a) (y ∷ b) h (k, ks) = (ground arith, NoSlash-fold a b (ground arith) ks)

-- The same names in the same order, up to the case of ASCII letters.
abbrev pub SameNames : List Bytes → List Bytes → Type 0
SameNames [] [] = Unit
SameNames (a ∷ xs) (b ∷ ys) = (name_eq_fold a b ≡ true) × SameNames xs ys
SameNames _ _ = ⊥

abbrev pub join_all : Bytes → List Bytes → Bytes
join_all dir [] = dir
join_all dir (n ∷ names) = join_all (dir ++ b'/' ∷ n) names

-- What the loop has built from `base` and the pieces of the path: `dir`, a separator and the leaf.
pub record IsSpelled (base : Bytes) (pieces : List Bytes) (j : Joined) : Type 0 where
  pub names : List Bytes
  pub dir : Bytes
  pub is_join : j.joined ≡ join_all base names
  pub same : SameNames names pieces
  pub splits : j.joined ≡ dir ++ b'/' ∷ j.leaf
  pub no_slash : NoSlash j.leaf
  pub leaf_ok : component_ok j.leaf ≡ true
  pub pieces_ok : All (λ c. component_ok c ≡ true) pieces

module _ (H : Host) (os : H.Os) (root : Bytes) where
  match_fold-fold :
      (dir comp name : Bytes)
      → match_fold H os root dir comp ≡ some name
      → name_eq_fold name comp ≡ true
  unfolding match_fold
  match_fold-fold dir comp name h =
      elim (H.list_dir os dir)
          as (λ r.
            elim r as (λ _. Option Bytes) [ err _ ↦ none | ok names ↦ match_fold_in names comp ]
              ≡ some name
            → name_eq_fold name comp ≡ true) [
              | err _ ↦ λ e. absurd (cc)
              | ok names ↦ λ e. match_fold_in-name_eq_fold names comp name e
            ]
        h

  spelling-fold : (joined comp : Bytes) → name_eq_fold (spelling H os root joined comp) comp ≡ true
  unfolding spelling
  spelling-fold joined comp = elim (Option-cases (match_fold H os root joined comp)) [
    | inl e ↦ ground (arith, name_eq_fold_refl comp)
    | inr (name, e) ↦ ground (arith, name_eq_fold_refl comp, match_fold-fold joined comp name e)
  ]

  join_component-IsSpelled :
      (joined comp : Bytes) (j : Joined)
      → NoSlash comp
      → join_component H os root joined comp ≡ ok j
      → IsSpelled joined (comp ∷ []) j
  unfolding join_component
  join_component-IsSpelled joined [] j k h = absurd (cc)
  join_component-IsSpelled joined (c ∷ cs) j k h =
      let comp = c ∷ cs in
      let leaf = spelling H os root joined comp in
      let fold = spelling-fold joined comp in
      let vetted : component_ok comp ≡ true = ground arith in
      let made : j ≡ record { joined = joined ++ b'/' ∷ leaf; leaf = leaf } = ground arith in
      rw made (record {
        names = leaf ∷ [];
        dir = joined;
        is_join = refl;
        same = (fold, tt);
        splits = refl;
        no_slash = NoSlash-fold leaf comp fold k;
        leaf_ok = component_ok-fold leaf comp fold ∙ vetted;
        pieces_ok = (vetted, tt);
      })

  -- A further component in front.
  IsSpelled-cons :
      (joined comp : Bytes) (i j : Joined) (pieces : List Bytes)
      → IsSpelled joined (comp ∷ []) i
      → IsSpelled i.joined pieces j
      → IsSpelled joined (comp ∷ pieces) j
  IsSpelled-cons joined comp i j pieces first later =
      let (name, e, f) = single first.names first.is_join first.same in
      record {
        names = name ∷ later.names;
        dir = later.dir;
        is_join = later.is_join ∙ ap (λ d. join_all d later.names) e;
        same = (f, later.same);
        splits = later.splits;
        no_slash = later.no_slash;
        leaf_ok = later.leaf_ok;
        pieces_ok = (first.pieces_ok.0, later.pieces_ok);
      }
    where
      single :
          (names : List Bytes)
          → i.joined ≡ join_all joined names
          → SameNames names (comp ∷ [])
          → (name : Bytes) × (i.joined ≡ joined ++ b'/' ∷ name) × (name_eq_fold name comp ≡ true)
      single [] e s = absurd s
      single (n ∷ []) e (s, _) = (n, e, s)
      single (n ∷ m ∷ names) e (s, r) = absurd r

  -- When the loop succeeds, every piece has passed the vetting, and the path that it has built
  -- names the same pieces, up to the case of letters.
  pub join_path-IsSpelled :
      (joined comp rest : Bytes) (j : Joined)
      → NoSlash comp
      → join_path H os root joined comp rest ≡ ok j
      → IsSpelled joined (components comp rest) j
  unfolding join_path components
  join_path-IsSpelled joined comp [] j k h = join_component-IsSpelled joined comp j k h
  join_path-IsSpelled joined comp (c ∷ rest) j k h = elim (Bool-cases (c == b'/')) [
    | inl slash ↦
        let (i, m, g) =
          bind-eq-ok (join_component H os root joined comp)
            (λ i. join_path H os root i.joined [] rest) (ground arith) in
        rw (slash, components)
          (IsSpelled-cons joined comp i j (components [] rest)
            (join_component-IsSpelled joined comp i k m)
            (join_path-IsSpelled i.joined [] rest j tt g))
    | inr plain ↦
        rw (plain, components)
          (join_path-IsSpelled joined (comp ++ c ∷ []) rest j
            (NoSlash-concat comp c k (ground arith)) (ground arith))
  ]

-- The separator before the leaf is where `parent_of` cuts.
pub parent_of-IsSpelled :
    {base : Bytes} {pieces : List Bytes} {j : Joined} (s : IsSpelled base pieces j)
    → parent_of j ≡ s.dir
parent_of-IsSpelled {j = j} s =
    let n : length j.joined - length j.leaf - 1 ≡ length s.dir =
      omega (arith, ap (length {0}) s.splits, length-append {0} s.dir (b'/' ∷ j.leaf)) in
    rw n (rw s.splits (take-length-append s.dir (b'/' ∷ j.leaf)))

-- The bytes that the names take with a separator before each.
abbrev joined_size : List Bytes → ℕ
joined_size [] = 0
joined_size (n ∷ names) = 1 + length n + joined_size names

length-join_all :
    (dir : Bytes) (names : List Bytes)
    → length (join_all dir names) ≡ length dir + joined_size names
length-join_all dir [] = omega arith
length-join_all dir (n ∷ names) =
    omega (arith, length-join_all (dir ++ b'/' ∷ n) names, length-append {0} dir (b'/' ∷ n))

joined_size-SameNames : (xs ys : List Bytes) → SameNames xs ys → joined_size xs ≡ joined_size ys
joined_size-SameNames [] [] h = refl
joined_size-SameNames (x ∷ xs) (y ∷ ys) (h, hs) =
    omega (arith, length-fold x y h, joined_size-SameNames xs ys hs)
joined_size-SameNames [] (y ∷ ys) h = absurd h
joined_size-SameNames (x ∷ xs) [] h = absurd h

joined_size-components :
    (comp rest : Bytes) → joined_size (components comp rest) ≡ 1 + length comp + length rest
unfolding components
joined_size-components comp [] = omega arith
joined_size-components comp (c ∷ rest) = elim (Bool-cases (c == b'/')) [
  | inl slash ↦ rw (slash, components) (omega (arith, joined_size-components [] rest))
  | inr plain ↦
      rw (plain, components)
        (omega
          (arith, joined_size-components (comp ++ c ∷ []) rest, length-append {0} comp (c ∷ [])))
]

-- Exactly the root, a separator and as many bytes as the guest sent.
pub length-IsSpelled :
    {base : Bytes} (comp rest : Bytes) {j : Joined}
    → IsSpelled base (components comp rest) j
    → length j.joined ≡ length base + 1 + length comp + length rest
length-IsSpelled {base} comp rest s = omega (
  arith,
  ap (length {0}) s.is_join,
  length-join_all base s.names,
  joined_size-SameNames s.names (components comp rest) s.same,
  joined_size-components comp rest,
)
