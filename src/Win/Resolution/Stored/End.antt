-- ===== src/Win/Resolution/Stored/End.antt =====
-- tools/win/resolution.c: the size at the end of a file that had none.
use shinogi.Base.{
  inl, inr, ℕ, zero, suc, ◌+◌, ◌≤◌, ◌≡◌, refl, ap, ◌∙◌, sym, arith, Bool, true, false, List, [],
  ◌∷◌, ◌++◌, append_assoc, Bytes, length, length-append, ltb, ◌==◌, Bool-cases, ltb→lt, ltb→le,
}
use shinogi.Win.Resolution.Stored.{
  line_room, lines, has_newline, final_byte, skip_line, write_lines,
}
use shinogi.Win.Resolution.Stored.Chunks.{
  Ended, ended, Full, full, Open, opened, Parts, no_parts, open_part, line_part, full_part,
  lines-Ended, lines-Full, Ended-newline, Ended-pos, Full-pos, final_byte-plain,
}
use shinogi.Win.Resolution.Stored.Kept.{IsSizeLine, skipped_start, keep_round, res_value-cr}
use shinogi.Win.Resolution.Stored.Last.{Before, found, before_first, before_round}

abbrev pub crlf : Bytes
crlf = 13 ∷ 10 ∷ []

pub crlf-Ended : Ended line_room crlf
unfolding has_newline
crlf-Ended = ended (13 ∷ []) refl refl (omega arith)

pub newline-Ended : Ended line_room (10 ∷ [])
unfolding has_newline
newline-Ended = ended [] refl refl (omega arith)

pub has_newline-cr : (p : Bytes) → has_newline p ≡ false → has_newline (p ++ 13 ∷ []) ≡ false
unfolding has_newline
has_newline-cr [] h = refl
has_newline-cr (c ∷ p) h = ground (arith, has_newline-cr p)

-- With a carriage return behind it the line is kept still.
pub skip_line-cr :
    (start : Bool) (p s : Bytes)
    → skip_line start false p ≡ false
    → skip_line start false (p ++ 13 ∷ s) ≡ false
unfolding skip_line
skip_line-cr true p s h = res_value-cr p s h
skip_line-cr false p s h = refl

pub mid_line : (p : Bytes) → skip_line false false p ≡ false
unfolding skip_line
mid_line p = refl

pub end_line :
    (new : Bytes) (start : Bool) (last : ℕ)
    → (last == 10) ≡ true
    → write_lines new false start false last [] ≡ new
unfolding write_lines
end_line new start last e = rw e refl

pub end_open :
    (new : Bytes) (start : Bool) (last : ℕ)
    → (last == 10) ≡ false
    → write_lines new false start false last [] ≡ crlf ++ new
unfolding write_lines
end_open new start last e = rw e refl

pub newline_last : {p : Bytes} → Ended line_room p → (final_byte p == 10) ≡ has_newline p
newline_last {p} w = ground (arith, Ended-newline w)

module _ (new new' : Bytes) (line : IsSizeLine new) where
  -- A line in front of the end is kept, and the size is found behind it.
  found_behind :
      (fuel last : ℕ) (start : Bool) (p : Bytes)
      → Ended line_room p
      → skip_line start false p ≡ false
      → length (p ++ new) ≤ fuel
      → write_lines new' false start false last (lines fuel (p ++ new)) ≡ p ++ new'
  found_behind zero last start p w stays h =
      absurd (omega (arith, length-append p new, Ended-pos w, h))
  found_behind (suc fuel) last start p w stays h =
      let less : length new ≤ fuel = omega (arith, length-append p new, Ended-pos w, h) in
      rw (lines-Ended fuel p new w) (
        rw (keep_round new' false start false last p (lines fuel new) stays)
          (rw (Ended-newline w).0 (ap (◌++◌ p) (found new new' line fuel (final_byte p) less))))

  before_end : Before new new' []
  before_end fuel start last e h = elim (Bool-cases (last == 10)) [
    | inl ends ↦
        let start' : start ≡ true = sym e ∙ ends in
        rw (end_line new start last ends) (
          rw (end_line new' start last ends)
            (rw start' (found new new' line fuel last (rw (end_line new start last ends) at h))))
    | inr open_end ↦
        let start' : start ≡ false = sym e ∙ open_end in
        rw (end_open new start last open_end) (
          rw (end_open new' start last open_end) (
            rw start' (
              found_behind fuel last false crlf crlf-Ended (mid_line crlf)
                (rw (end_open new start last open_end) at h))))
  ]

  -- The part of a line at the end of the file gets its newline.
  closed :
      (fuel last : ℕ) (start : Bool) (p : Bytes)
      → Open line_room p
      → skip_line start false p ≡ false
      → length (p ++ (13 ∷ 10 ∷ new)) ≤ fuel
      → write_lines new' false start false last (lines fuel (p ++ (13 ∷ 10 ∷ new)))
        ≡ p ++ (13 ∷ 10 ∷ new')
  closed zero last start p o stays h = absurd (omega (arith, length-append p (13 ∷ 10 ∷ new), h))
  closed (suc fuel) last start p (opened plain less) stays h =
      elim (Bool-cases (ltb (length p + 1) 1023)) [
        | inl short ↦
            let whole : Ended line_room ((p ++ 13 ∷ []) ++ 10 ∷ []) =
              ended (p ++ 13 ∷ []) refl (has_newline-cr p plain)
                (omega (arith, length-append p (13 ∷ []), ltb→lt (length p + 1) 1023 short)) in
            let join = λ (t : Bytes). append_assoc p (13 ∷ 10 ∷ []) t in
            let one : (p ++ 13 ∷ []) ++ 10 ∷ [] ≡ p ++ crlf = append_assoc p (13 ∷ []) (10 ∷ []) in
            rw (← join new) (
              rw (← join new') (
                found_behind (suc fuel) last start (p ++ crlf) (rw one at whole)
                  (skip_line-cr start p (10 ∷ []) stays) (rw (← join new) at h)))
        | inr long ↦
            let whole : Full line_room (p ++ 13 ∷ []) =
              full (has_newline-cr p plain)
                (omega (arith, length-append p (13 ∷ []), less, ltb→le (length p + 1) 1023 long)) in
            let join = λ (t : Bytes). append_assoc p (13 ∷ []) (10 ∷ t) in
            let rest = 10 ∷ [] ++ new in
            let enough : length (10 ∷ [] ++ new) ≤ fuel =
              omega (arith, length-append p (13 ∷ 10 ∷ new), h) in
            rw (← join new) (
              rw (lines-Full fuel (p ++ 13 ∷ []) (10 ∷ new) whole) (
                rw
                  (keep_round new' false start false last (p ++ 13 ∷ []) (lines fuel (10 ∷ new))
                    (skip_line-cr start p [] stays))
                  (rw (has_newline-cr p plain) (
                    rw (← join new') (
                      ap (◌++◌ (p ++ 13 ∷ [])) (
                        found_behind fuel (final_byte (p ++ 13 ∷ [])) false (10 ∷ []) newline-Ended
                          (mid_line (10 ∷ [])) enough))))))
      ]

  before_open : (p : Bytes) → Open line_room p → Before new new' (p ∷ [])
  before_open p (opened plain less) fuel start last e h =
      elim (Bool-cases (skip_line start false p)) [
        | inl gone ↦
            let true' : start ≡ true = ground (arith, skipped_start start false p gone) in
            rw true'
              (before_first new new' line p no_parts fuel last (rw true' at gone) (rw true' at h))
        | inr stays ↦
            let other = final_byte-plain p plain in
            rw (keep_round new false start false last p [] stays) (
              rw (end_open new (has_newline p) (final_byte p) other) (
                rw (keep_round new' false start false last p [] stays) (
                  rw (end_open new' (has_newline p) (final_byte p) other) (
                    closed fuel last start p (opened plain less) stays (
                      rw (end_open new (has_newline p) (final_byte p) other) at
                        (rw (keep_round new false start false last p [] stays) at h))))))
      ]

  pub before : {ps : List Bytes} → Parts ps → Before new new' ps
  before no_parts = before_end
  before (open_part p o pos) = before_open p o
  before (line_part p ps w more) =
      before_round new new' line p ps (Ended-pos w) (λ fuel. lines-Ended fuel p _ w)
        (newline_last w) more (before more)
  before (full_part p ps (full plain size) more) =
      before_round new new' line p ps (Full-pos (full plain size))
        (λ fuel. lines-Full fuel p _ (full plain size)) (final_byte-plain p plain ∙ sym plain) more
        (before more)
