-- ===== src/Win/Profile.antt =====
-- The settings files of Windows, as tools/win/network.c uses them: what it relies on is a record of
-- operations and of their laws.
use mathlib.Core.Option.{some-injective}
use shinogi.Hostfsd.Names.{name_eq_fold}
use shinogi.Hostfsd.Names.Fold.{name_eq_fold_refl}
use shinogi.Base.{
  ℕ, ◌≡◌, ap, sym, ◌∙◌, inl, inr, Bool, true, not, ◌&&◌, List, [], ◌∷◌, Option, none, some, Bytes,
  equal, all, take, ltb, leb, ◌==◌, if◌then◌else◌, Option-cases,
}

-- Not one of the characters that Windows takes off the ends of a value.
abbrev bare : ℕ → Bool
bare c = ltb 32 c && not (c == b'"') && not (c == 39)

abbrev bare_end : Bytes → Bool
bare_end [] = true
bare_end (c ∷ []) = bare c
bare_end (c ∷ d ∷ cs) = bare_end (d ∷ cs)

-- A value that is read as it was written: no control characters, and neither blanks nor quotation
-- marks at its ends.
abbrev pub IsPlain : Bytes → Type 0
IsPlain text = (all (leb 32) text && bare_end (take 1 text) && bare_end text) ≡ true

abbrev pub is_lower : ℕ → Bool
is_lower c = leb b'a' c && leb c b'z'

-- `get` and `put` are GetPrivateProfileString and WritePrivateProfileString on one file, which is
-- the state; `none` of `get` is a key that is missing, and of `put` a failure. The names of sections
-- and keys are ASCII, and Windows does not tell their case apart. `same_text` is lstrcmpiA, whether
-- it gives 0.
pub record Profiles : Type 1 where
  pub File : Type 0
  pub get : Bytes → Bytes → File → Option Bytes
  pub put : Bytes → Bytes → Bytes → File → Option File
  pub same_text : Bytes → Bytes → Bool
  pub get-put :
      (section key value : Bytes) (f f' : File) (section' key' : Bytes)
      → IsPlain value
      → put section key value f ≡ some f'
      → get section' key' f' ≡ (
          if name_eq_fold section' section && name_eq_fold key' key
          then some value
          else get section' key' f)
  pub same_text_lower :
      (a b : Bytes) → all is_lower a ≡ true → all is_lower b ≡ true → same_text a b ≡ equal a b

-- One write after the other; the first that fails ends them.
unfoldable pub put_all : (p : Profiles) → Bytes → List (Bytes × Bytes) → p.File → Option p.File
put_all p section [] f = some f
put_all p section ((key, value) ∷ rest) f = elim (p.put section key value f) [
  | none ↦ none
  | some f' ↦ put_all p section rest f'
]

-- What the writes leave under a key, where `old` was before them.
unfoldable pub last_value : Bytes → List (Bytes × Bytes) → Option Bytes → Option Bytes
last_value key [] old = old
last_value key ((k, value) ∷ rest) old =
    last_value key rest (if name_eq_fold key k then some value else old)

abbrev pub AllPlain : List (Bytes × Bytes) → Type 0
AllPlain [] = Unit
AllPlain ((key, value) ∷ rest) = IsPlain value × AllPlain rest

pub get-put_all :
    (p : Profiles) (section : Bytes) (values : List (Bytes × Bytes)) (f f' : p.File) (key : Bytes)
    → AllPlain values
    → put_all p section values f ≡ some f'
    → p.get section key f' ≡ last_value key values (p.get section key f)
unfolding put_all last_value
get-put_all p section [] f f' key h e = ap (p.get section key) (sym (some-injective f f' e))
get-put_all p section ((k, value) ∷ rest) f f' key h e =
    elim (Option-cases (p.put section k value f)) [
      | inl fails ↦ let bad = rw (fails, put_all) at e in absurd (cc)
      | inr (f1, written) ↦
          get-put_all p section rest f1 f' key h.1 (rw (written, put_all) at e)
          ∙ ap (last_value key rest) (
              p.get-put section k value f f1 section key h.0 written
              ∙ ap (λ b. if b && name_eq_fold key k then some value else p.get section key f)
                  (name_eq_fold_refl section))
    ]
