-- ===== src/Win/Network/Hook/Lines.antt =====
-- Lines, and the bytes that they come from.
use shinogi.Base.{
  All-append, ℕ, ◌≤◌, true, false, List, [], ◌∷◌, ◌++◌, ◌≡◌, ◌⊎◌, inl, inr, refl, sym, ap, ◌∙◌,
  arith, Bytes, All, length, ◌==◌, if◌then◌else◌, Bool-cases, append_assoc, append-nil,
}
use shinogi.Win.Network.Hook.{Line, lines_of, bytes_of_line}

abbrev pub NoNewline : Bytes → Type 0
NoNewline = All (λ c. (c == b'\n') ≡ false)

-- Only the last line may want its newline, and then it is not empty.
abbrev pub AreLines : List Line → Type 0
AreLines [] = Unit {0}
AreLines (l ∷ ls) =
    NoNewline l.text
    × ((l.newline ≡ true) ⊎ ((l.newline ≡ false) × (1 ≤ length l.text) × (ls ≡ [])))
    × AreLines ls

abbrev pub join_lines : List Line → Bytes
join_lines [] = []
join_lines (l ∷ ls) = bytes_of_line l ++ join_lines ls

lines_of-run :
    (text p rest : Bytes) → NoNewline p → lines_of text (p ++ rest) ≡ lines_of (text ++ p) rest
unfolding lines_of
lines_of-run text [] rest h = ap (λ t. lines_of t rest) (sym (append-nil text))
lines_of-run text (c ∷ p) rest h =
    rw (h.0, lines_of) (lines_of-run (text ++ c ∷ []) p rest h.1)
    ∙ ap (λ t. lines_of t rest) (append_assoc text (c ∷ []) p)

lines_of-last :
    (text : Bytes)
    → 1 ≤ length text
    → lines_of text [] ≡ record { text = text; newline = false } ∷ []
unfolding lines_of
lines_of-last [] h = absurd (omega (arith, h))
lines_of-last (c ∷ text) h = refl

lines_of-newline :
    (text rest : Bytes)
    → NoNewline text
    → lines_of [] (text ++ b'\n' ∷ rest) ≡ record { text = text; newline = true } ∷ lines_of [] rest
unfolding lines_of
lines_of-newline text rest h = lines_of-run [] text (b'\n' ∷ rest) h

-- Lines that are put together come apart as they were.
pub lines_of-join_lines : (ls : List Line) → AreLines ls → lines_of [] (join_lines ls) ≡ ls
unfolding lines_of
lines_of-join_lines [] h = refl
lines_of-join_lines (l ∷ ls) (clean, inl ended, others) =
    let bytes : join_lines (l ∷ ls) ≡ l.text ++ b'\n' ∷ join_lines ls =
      ap (λ b. (l.text ++ (if b then b'\n' ∷ [] else [])) ++ join_lines ls) ended
      ∙ append_assoc l.text (b'\n' ∷ []) (join_lines ls) in
    ap (lines_of []) bytes
    ∙ lines_of-newline l.text (join_lines ls) clean
    ∙ ap (λ b. record { text = l.text; newline = b } ∷ lines_of [] (join_lines ls)) (sym ended)
    ∙ ap (◌∷◌ l) (lines_of-join_lines ls others)
lines_of-join_lines (l ∷ ls) (clean, inr (open_end, size, last), others) =
    let bytes : join_lines (l ∷ ls) ≡ l.text ++ [] =
      ap (λ b. (l.text ++ (if b then b'\n' ∷ [] else [])) ++ join_lines ls) open_end
      ∙ ap (λ ms. (l.text ++ []) ++ join_lines ms) last
      ∙ append-nil (l.text ++ []) in
    ap (lines_of []) bytes
    ∙ lines_of-run [] l.text [] clean
    ∙ lines_of-last l.text size
    ∙ ap (λ b. record { text = l.text; newline = b } ∷ []) (sym open_end)
    ∙ ap (◌∷◌ l) (sym last)

NoNewline-snoc :
    (text : Bytes) (c : ℕ) → NoNewline text → (c == b'\n') ≡ false → NoNewline (text ++ c ∷ [])
NoNewline-snoc text c h k = All-append _ text (c ∷ []) h (k, tt)

pub AreLines-lines_of : (text input : Bytes) → NoNewline text → AreLines (lines_of text input)
unfolding lines_of
AreLines-lines_of [] [] h = tt
AreLines-lines_of (c ∷ text) [] h = (h, inr (refl, omega arith, refl), tt)
AreLines-lines_of text (c ∷ input) h = elim (Bool-cases (c == b'\n')) [
  | inl ends ↦ rw (ends, lines_of) (h, inl refl, AreLines-lines_of [] input tt)
  | inr goes_on ↦
      rw (goes_on, lines_of)
        (AreLines-lines_of (text ++ c ∷ []) input (NoNewline-snoc text c h goes_on))
]
