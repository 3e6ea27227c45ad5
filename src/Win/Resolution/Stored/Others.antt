-- ===== src/Win/Resolution/Stored/Others.antt =====
-- tools/win/resolution.c: the lines that do not set the size are written as they were.
use shinogi.Base.{
  inl, inr, ℕ, ◌≡◌, refl, ap, ◌∙◌, sym, Bool, true, false, List, [], ◌∷◌, ◌++◌, append_assoc,
  append-nil, Bytes, ◌==◌, if◌then◌else◌, Bool-cases,
}
use shinogi.Win.Resolution.Stored.{has_newline, final_byte, skip_line, write_lines}
use shinogi.Win.Resolution.Stored.Kept.{skip_round, first_round, keep_round, end_round}
use shinogi.Win.Resolution.Stored.End.{crlf, end_line, end_open}

-- The text without the lines that set the size, parts of long ones included.
pub other_text : Bool → Bool → List Bytes → Bytes
other_text start skip [] = []
other_text start skip (line ∷ rest) =
    let gone = skip_line start skip line in
    (if gone then [] else line) ++ other_text (has_newline line) gone rest

-- A new line within the kept text, or behind it with a newline for the last line.
pub data Edited (new kept out : Bytes) : Type 0 where
  inserted :
      (front back : Bytes)
      → kept ≡ front ++ back
      → out ≡ front ++ (new ++ back)
      → Edited new kept out
  closed : out ≡ kept ++ (crlf ++ new) → Edited new kept out

others_gone :
    (start skip : Bool) (p : Bytes) (ps : List Bytes)
    → skip_line start skip p ≡ true
    → other_text start skip (p ∷ ps) ≡ other_text (has_newline p) true ps
unfolding other_text
others_gone start skip p ps h = rw h refl

others_kept :
    (start skip : Bool) (p : Bytes) (ps : List Bytes)
    → skip_line start skip p ≡ false
    → other_text start skip (p ∷ ps) ≡ p ++ other_text (has_newline p) false ps
unfolding other_text
others_kept start skip p ps h = rw h refl

others_end : (start skip : Bool) → other_text start skip [] ≡ []
unfolding other_text
others_end start skip = refl

-- Behind the line.
others_behind :
    (new : Bytes) (ps : List Bytes) (start skip : Bool) (last : ℕ)
    → write_lines new true start skip last ps ≡ other_text start skip ps
others_behind new [] start skip last = end_round new start skip last ∙ sym (others_end start skip)
others_behind new (p ∷ ps) start skip last = elim (Bool-cases (skip_line start skip p)) [
  | inl gone ↦
      skip_round new start skip last p ps gone
      ∙ others_behind new ps (has_newline p) true last
      ∙ sym (others_gone start skip p ps gone)
  | inr stays ↦
      keep_round new true start skip last p ps stays
      ∙ ap (◌++◌ p) (others_behind new ps (has_newline p) false (final_byte p))
      ∙ sym (others_kept start skip p ps stays)
]

Edited-append :
    (p : Bytes) {new kept out : Bytes} → Edited new kept out → Edited new (p ++ kept) (p ++ out)
Edited-append p {new} {kept} (inserted a b e f) =
    inserted (p ++ a) b (ap (◌++◌ p) e ∙ sym (append_assoc p a b))
      (ap (◌++◌ p) f ∙ sym (append_assoc p a (new ++ b)))
Edited-append p {new = new} {kept = kept} (closed f) =
    closed (ap (◌++◌ p) f ∙ sym (append_assoc p kept (crlf ++ new)))

pub write_lines-Edited :
    (new : Bytes) (ps : List Bytes) (start : Bool) (last : ℕ)
    → Edited new (other_text start false ps) (write_lines new false start false last ps)
write_lines-Edited new [] start last = elim (Bool-cases (last == 10)) [
  | inl ends ↦
      inserted [] [] (others_end start false) (end_line new start last ends ∙ sym (append-nil new))
  | inr open_end ↦ closed (
      end_open new start last open_end
      ∙ ap (λ t. t ++ (crlf ++ new)) (sym (others_end start false)))
]
write_lines-Edited new (p ∷ ps) start last = elim (Bool-cases (skip_line start false p)) [
  | inl gone ↦ inserted [] (other_text start false (p ∷ ps)) refl (
      first_round new start false last p ps gone
      ∙ ap (◌++◌ new) (
          others_behind new ps (has_newline p) true last ∙ sym (others_gone start false p ps gone)))
  | inr stays ↦
      let ih = Edited-append p (write_lines-Edited new ps (has_newline p) (final_byte p)) in
      rw (keep_round new false start false last p ps stays)
        (rw (others_kept start false p ps stays) ih)
]
