-- ===== src/Hostfsd/Path/Under.antt =====
-- `under_root` decides whether a resolved path is the root or lies below it.
use shinogi.Base.{
  true, [], ◌∷◌, ◌++◌, ◌≡◌, ◌⊎◌, ◌↔◌, inl, inr, refl, sym, ap, ◌∙◌, arith, Bytes, equal, equal_iff,
  equal_refl, starts_with-append, starts_with-split, length, get_or, Bool-cases,
}
use shinogi.Hostfsd.Path.{under_root}

-- The served root or something beneath it.
abbrev pub IsUnder : Bytes → Bytes → Type 0
IsUnder root r = (r ≡ root) ⊎ ((rest : Bytes) × (r ≡ root ++ b'/' ∷ rest))

get_or-append : (p r : Bytes) → get_or (p ++ r) (length p) 0 ≡ get_or r 0 0
get_or-append [] r = refl
get_or-append (x ∷ p) r = get_or-append p r

slash_first : (r : Bytes) → get_or r 0 0 ≡ b'/' → (t : Bytes) × (r ≡ b'/' ∷ t)
slash_first [] h = absurd (omega arith)
slash_first (c ∷ r) h = (r, ap (λ x. x ∷ r) h)

under_root-to_IsUnder : (root r : Bytes) → under_root root r ≡ true → IsUnder root r
unfolding under_root
under_root-to_IsUnder root r h = elim (Bool-cases (equal r root)) [
  | inl same ↦ inl ((equal_iff r root).0 same)
  | inr differs ↦
      let (rest, e) = starts_with-split r root (ground arith) in
      let here : get_or r (length root) 0 ≡ b'/' = ground arith in
      let (t, f) = slash_first rest (sym (get_or-append root rest) ∙ rw e at here) in
      inr (t, e ∙ ap (λ x. root ++ x) f)
]

under_root-of_IsUnder : (root r : Bytes) → IsUnder root r → under_root root r ≡ true
unfolding under_root
under_root-of_IsUnder root r (inl same) = rw (same, equal_refl root)
under_root-of_IsUnder root r (inr (rest, e)) =
    rw e (ground (arith, starts_with-append root (b'/' ∷ rest), get_or-append root (b'/' ∷ rest)))

-- A resolved path is accepted exactly when it is the root, or the root, a separator and more.
pub under_root_iff : (root r : Bytes) → (under_root root r ≡ true) ↔ IsUnder root r
under_root_iff root r = (under_root-to_IsUnder root r, under_root-of_IsUnder root r)
