-- ===== src/Win/Drives/Images/Escaped.antt =====
-- How the path of an image comes through the quoting.
use shinogi.Base.{
  ℕ, ◌+◌, ◌<◌, false, ◌||◌, [], ◌∷◌, some, map, ◌≡◌, ◌≢◌, inl, inr, refl, subst, arith, Bytes, All,
  length, leb, ◌==◌, Bool-cases, Option-cases,
}
use shinogi.Win.Drives.Images.{escaped_max, forward, escape_path}
use shinogi.Win.Network.Options.Value.{read_value, read_value-plain, read_value-comma}

-- Behind `n` bytes: QEMU's reading gives the path back with slashes for its backslashes, there is
-- neither a quote nor a backslash in what is written, and it leaves room for a NUL.
abbrev pub IsEscaped : ℕ → Bytes → Bytes → Type 0
IsEscaped n path escaped =
    (read_value escaped ≡ (map forward path, []))
    × All (λ c. (c ≢ 34) × (c ≢ b'\\')) escaped
    × (n + length escaped < escaped_max)

pub escape_path-IsEscaped :
    (n : ℕ) (path escaped : Bytes)
    → n < escaped_max
    → escape_path n path ≡ some escaped
    → IsEscaped n path escaped
unfolding escape_path read_value
escape_path-IsEscaped n [] escaped lt h =
    let made : [] ≡ escaped = ground arith in
    subst (IsEscaped n []) made (refl, tt, omega (arith, lt))
escape_path-IsEscaped n (c ∷ cs) escaped lt h =
    let fine : (c == 34 || leb escaped_max (n + 2)) ≡ false = ground arith in
    elim (Bool-cases (c == b',')) [
      | inl comma ↦ elim (Option-cases (escape_path (n + 2) cs)) [
        | inl e ↦ absurd (ground arith)
        | inr (rest, e) ↦
            let (back, clean, size) = escape_path-IsEscaped (n + 2) cs rest (ground arith) e in
            let is_comma : c ≡ b',' = ground arith in
            let made : b',' ∷ c ∷ rest ≡ escaped = ground arith in
            subst (IsEscaped n (c ∷ cs)) made (
              rw is_comma (
                read_value-comma b',' rest (map forward cs) refl back,
                ((ground arith, ground arith), ((ground arith, ground arith), clean)),
                omega (arith, size),
              ))
      ]
      | inr other ↦ elim (Option-cases (escape_path (n + 1) cs)) [
        | inl e ↦ absurd (ground arith)
        | inr (rest, e) ↦
            let (back, clean, size) = escape_path-IsEscaped (n + 1) cs rest (ground arith) e in
            let made : forward c ∷ rest ≡ escaped = ground arith in
            subst (IsEscaped n (c ∷ cs)) made (
              read_value-plain (forward c) rest (map forward cs) (ground arith) back,
              ((ground arith, ground arith), clean),
              omega (arith, size),
            )
      ]
    ]
