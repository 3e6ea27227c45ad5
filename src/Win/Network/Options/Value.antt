-- ===== src/Win/Network/Options/Value.antt =====
-- How the name of the adapter comes through the quoting of `network_qemu_options`.
use shinogi.Base.{
  ℕ, ◌*◌, ◌≤◌, ◌<◌, true, false, ◌||◌, [], ◌∷◌, ◌++◌, some, ◌≡◌, ◌≢◌, inl, inr, refl, sym, ap,
  subst, ltb→lt, arith, Bytes, All, codes, length, ltb, ◌==◌, if◌then◌else◌, Bool-cases,
  Option-cases,
}
use shinogi.Win.Network.Options.{quote, escape, fitted, network_qemu_options}
use shinogi.Win.Network.Valid.{NetworkSettings}

-- How QEMU reads the value of an option: up to a comma that is not doubled, with a doubled one read
-- as one; with the text behind it.
unfoldable pub read_value : Bytes → Bytes × Bytes
read_value [] = ([], [])
read_value (c ∷ []) = if c == b',' then ([], []) else (c ∷ [], [])
read_value (c ∷ d ∷ cs) =
    let (v, rest) = read_value (d ∷ cs) in
    let (w, left) = read_value cs in
    if c == b',' then (if d == b',' then (c ∷ w, left) else ([], d ∷ cs)) else (c ∷ v, rest)

-- The name comes through whole, with nothing behind it; no byte of what is written ends the quoted
-- argument or is a control character; and it takes at most twice the name's length.
abbrev pub IsQuoted : Bytes → Bytes → Type 0
IsQuoted name escaped =
    (read_value escaped ≡ (name, []))
    × All (λ c. (c ≢ quote) × (32 ≤ c)) escaped
    × (length escaped ≤ 2 * length name)

-- The two halves of what has been read.
read_halves : (p : Bytes × Bytes) (v : Bytes) → p ≡ (v, []) → (p.0 ≡ v) × (p.1 ≡ [])
read_halves p v h = (ap (λ (r : Bytes × Bytes). r.0) h, ap (λ (r : Bytes × Bytes). r.1) h)

pub read_value-plain :
    (c : ℕ) (cs v : Bytes)
    → (c == b',') ≡ false
    → read_value cs ≡ (v, [])
    → read_value (c ∷ cs) ≡ (c ∷ v, [])
unfolding read_value
read_value-plain c [] v h e =
    let (first, _) = read_halves ([], []) v e in rw h (ap (λ (x : Bytes). (c ∷ x, [])) first)
read_value-plain c (d ∷ cs) v h e =
    let (first, second) = read_halves (read_value (d ∷ cs)) v e in rw (h, first, second) refl

pub read_value-comma :
    (c : ℕ) (cs v : Bytes)
    → (c == b',') ≡ true
    → read_value cs ≡ (v, [])
    → read_value (c ∷ b',' ∷ cs) ≡ (c ∷ v, [])
unfolding read_value
read_value-comma c cs v h e =
    let (first, second) = read_halves (read_value cs) v e in rw (h, first, second) refl

escape-IsQuoted : (name escaped : Bytes) → escape name ≡ some escaped → IsQuoted name escaped
unfolding escape read_value
escape-IsQuoted [] escaped h =
    let made : [] ≡ escaped = ground arith in subst (IsQuoted []) made (refl, tt, omega arith)
escape-IsQuoted (c ∷ cs) escaped h = elim (Option-cases (escape cs)) [
  | inl e ↦ absurd (ground arith)
  | inr (rest, e) ↦
      let (back, clean, size) = escape-IsQuoted cs rest e in
      let fine : (c == quote || ltb c 32) ≡ false = ground arith in
      let plain : (c ≢ quote) × (32 ≤ c) = (ground arith, ground arith) in
      elim (Bool-cases (c == b',')) [
        | inl comma ↦
            let made : c ∷ b',' ∷ rest ≡ escaped = ground arith in
            subst (IsQuoted (c ∷ cs)) made (
              read_value-comma c rest cs comma back,
              (plain, ((ground arith, omega arith), clean)),
              omega (arith, size),
            )
        | inr other ↦
            let made : c ∷ rest ≡ escaped = ground arith in
            subst (IsQuoted (c ∷ cs)) made
              (read_value-plain c rest cs other back, (plain, clean), omega (arith, size))
      ]
]

pub fitted-lt :
    (size : ℕ) (text out : Bytes) → fitted size text ≡ some out → (out ≡ text) × (length out < size)
unfolding fitted
fitted-lt size text out h = elim (Bool-cases (ltb (length text) size)) [
  | inl fits ↦
      let same : text ≡ out = ground arith in
      (sym same, omega (arith, ap (length {0}) same, ltb→lt (length text) size fits))
  | inr none_left ↦ absurd (ground arith)
]

-- Where the options for a LAN are written: they hold the adapter's name in a form that QEMU's reading
-- of an option's value, which takes a doubled comma as one, gives back whole; no byte of it
-- ends the quoted argument or is a control character; it fits the buffer of 512 bytes with its NUL,
-- and the text fits the caller's.
pub network_qemu_options-IsQuoted :
    (s : NetworkSettings) (name : Bytes) (size : ℕ) (out : Bytes)
    → s.lan ≢ 0
    → network_qemu_options s name size ≡ some out
    → (escaped : Bytes) × IsQuoted name escaped
      × (out
          ≡ codes " -netdev \"tap,id=net0,ifname="
            ++ (escaped ++ (codes "\" -device virtio-net-device,netdev=net0,mac=" ++ s.mac)))
      × (length escaped < 512)
      × (length out < size)
unfolding network_qemu_options
network_qemu_options-IsQuoted s name size out lan h = elim (Option-cases (escape name)) [
  | inl e ↦ absurd (ground arith)
  | inr (escaped, e) ↦
      let q = escape-IsQuoted name escaped e in
      let (same, lt) = fitted-lt size _ out (ground arith) in
      let short : length name < 256 = ground arith in
      (escaped, q, same, omega (arith, q.2, short), lt)
]
