-- ===== src/Hostfsd/Startup/Label.antt =====
-- The label and the root that `main` settles.
use shinogi.Base.{
  append-nil, append_assoc, subst, All-append, ℕ, zero, suc, ◌-◌, ◌≤◌, ◌<◌, Bool, true, false, [],
  ◌∷◌, ◌++◌, some, map, ◌≡◌, ◌⊎◌, inl, inr, refl, sym, ap, ◌∙◌, arith, Bytes, All, length,
  length-take, take, get_or, ◌==◌, Bool-cases, Option-cases,
}
use shinogi.Base.Result.{ok, Result-cases}
use shinogi.Hostfsd.Host.{Stat, Host}
use shinogi.Hostfsd.Config.{Config}
use shinogi.Hostfsd.Startup.{
  is_separator, base_name, label_byte, make_label, trim_root, settle_root,
}

-- A byte that the label may hold.
abbrev pub IsLabelByte : ℕ → Type 0
IsLabelByte c = (0x20 ≤ c) × (c < 0x7f) × (is_separator c ≡ false)

-- What the guest gets to see of the folder's path.
abbrev pub IsLabel : Bytes → Type 0
IsLabel l = (0 < length l) × (length l ≤ 15) × All IsLabelByte l

abbrev NoSeparator : Bytes → Type 0
NoSeparator = All (λ c. is_separator c ≡ false)

-- If the bytes up to the end of `p` have no separator, neither has what `base_name` leaves.
base_name-NoSeparator :
    (base p : Bytes) → (NoSeparator p → NoSeparator base) → NoSeparator (base_name base p)
unfolding base_name
base_name-NoSeparator base [] h = h tt
base_name-NoSeparator base (c ∷ cs) h = elim (Bool-cases (is_separator c)) [
  | inl sep ↦ rw (sep, base_name) (base_name-NoSeparator cs cs (λ k. k))
  | inr plain ↦ rw (plain, base_name) (base_name-NoSeparator base cs (λ k. h (plain, k)))
]

label_byte-IsLabelByte : (c : ℕ) → is_separator c ≡ false → IsLabelByte (label_byte c)
unfolding label_byte
label_byte-IsLabelByte c h = (ground arith, ground arith, ground arith)

label_bytes : (n : ℕ) (cs : Bytes) → NoSeparator cs → All IsLabelByte (map label_byte (take n cs))
label_bytes zero cs h = tt
label_bytes (suc n) [] h = tt
label_bytes (suc n) (c ∷ cs) h = (label_byte-IsLabelByte c h.0, label_bytes n cs h.1)

length-map-take : (n : ℕ) (cs : Bytes) → length (map label_byte (take n cs)) ≤ n
length-map-take zero cs = omega arith
length-map-take (suc n) [] = omega arith
length-map-take (suc n) (c ∷ cs) = omega (arith, length-map-take n cs)

-- The label has 1 to 15 bytes, printable and without a separator: no path gets through.
pub make_label-IsLabel : (dir : Bytes) → IsLabel (make_label dir)
unfolding make_label
make_label-IsLabel dir =
    let l = map label_byte (take 15 (base_name dir dir)) in
    let bytes = label_bytes 15 _ (base_name-NoSeparator dir dir (λ k. k)) in
    elim (Bool-cases (length l == 0)) [
      | inl empty ↦ rw (empty, make_label) (omega arith, omega arith, ground arith)
      | inr some_left ↦
          rw (some_left, make_label) (ground arith, length-map-take 15 (base_name dir dir), bytes)
    ]

-- What is left of `root` when trailing separators are cut.
pub record IsTrimmed (root trimmed : Bytes) : Type 0 where
  pub cut : Bytes
  pub splits : root ≡ trimmed ++ cut
  pub only_separators : All (λ c. is_separator c ≡ true) cut
  pub ends_well :
      (length trimmed ≤ 1) ⊎ (is_separator (get_or trimmed (length trimmed - 1) 0) ≡ false)

split_last : (n : ℕ) (xs : Bytes) → length xs ≡ suc n → xs ≡ take n xs ++ get_or xs n 0 ∷ []
split_last n [] h = absurd (omega (arith, h))
split_last zero (x ∷ []) h = refl
split_last zero (x ∷ y ∷ xs) h = absurd (omega (arith, h))
split_last (suc n) (x ∷ xs) h = ap (◌∷◌ x) (split_last n xs (omega (arith, h)))

uncut :
    (root : Bytes)
    → ((length root ≤ 1) ⊎ (is_separator (get_or root (length root - 1) 0) ≡ false))
    → IsTrimmed root root
uncut root h = record {
  cut = [];
  splits = sym (append-nil root);
  only_separators = tt;
  ends_well = h;
}

trim-step :
    (n : ℕ) (root t : Bytes)
    → length root ≡ suc n
    → is_separator (get_or root n 0) ≡ true
    → IsTrimmed (take n root) t
    → IsTrimmed root t
trim-step n root t size sep h = record {
  cut = h.cut ++ get_or root n 0 ∷ [];
  splits =
      split_last n root size
      ∙ ap (λ r. r ++ get_or root n 0 ∷ []) h.splits
      ∙ append_assoc t h.cut (get_or root n 0 ∷ []);
  only_separators = All-append _ h.cut _ h.only_separators (sep, tt);
  ends_well = h.ends_well;
}

trim_root-IsTrimmed : (n : ℕ) (root : Bytes) → length root ≡ n → IsTrimmed root (trim_root n root)
unfolding trim_root
trim_root-IsTrimmed zero root h = uncut root (inl (omega (arith, h)))
trim_root-IsTrimmed (suc zero) root h = uncut root (inl (omega (arith, h)))
trim_root-IsTrimmed (suc (suc n)) root h =
    elim (Bool-cases (is_separator (get_or root (suc n) 0))) [
      | inl sep ↦
          rw (sep, trim_root)
            (trim-step (suc n) root _ h sep (
              trim_root-IsTrimmed (suc n) (take (suc n) root)
                (omega (arith, length-take {0} (suc n) root, h))))
      | inr other ↦
          let last : length root - 1 ≡ suc n = omega (arith, h) in
          rw (other, trim_root)
            (uncut root (inr (ap (λ i. is_separator (get_or root i 0)) last ∙ other)))
    ]

-- Where `main` accepts a folder: it resolves, and it is a directory. The root is the resolved path
-- without its trailing separators, and does not end in one unless it is a single byte; the
-- label is printable, has 1 to 15 bytes and holds no separator.
pub settle_root_lem :
    (H : Host) (os : H.Os) (read_only : Bool) (dir : Bytes) (cfg : Config)
    → settle_root H os read_only dir ≡ ok cfg
    → (resolved : Bytes) × (H.realpath os dir ≡ some resolved)
      × (st : Stat) × (H.stat os resolved ≡ ok st)
      × (st.is_dir ≡ true)
      × IsTrimmed resolved cfg.root
      × IsLabel cfg.label
      × (cfg.read_only ≡ read_only)
unfolding settle_root
settle_root_lem H os read_only dir cfg h = elim (Option-cases (H.realpath os dir)) [
  | inl e ↦ absurd (ground arith)
  | inr (resolved, e) ↦ elim (Result-cases (H.stat os resolved)) [
    | inr (x, m) ↦ absurd (ground arith)
    | inl (st, m) ↦
        let t = trim_root (length resolved) resolved in
        let settled : Config = record { root = t; read_only = read_only; label = make_label t } in
        let made : settled ≡ cfg = ground arith in
        (
          resolved,
          e,
          st,
          m,
          ground arith,
          subst (λ c. IsTrimmed resolved c.root) made
              (trim_root-IsTrimmed (length resolved) resolved refl),
          subst (λ c. IsLabel c.label) made
              (make_label-IsLabel (trim_root (length resolved) resolved)),
          ap (λ c. c.read_only) (sym made),
        )
  ]
]
