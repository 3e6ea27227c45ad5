-- ===== src/Win/Resolution/Stored/Read.antt =====
-- tools/win/resolution.c: what is read from the file that was written.
use shinogi.Base.{
  ap, NoNul, inl, inr, ℕ, zero, suc, ◌+◌, ◌≤◌, ◌<◌, ◌≡◌, refl, ◌∙◌, sym, arith, Bool, true, false,
  List, [], ◌∷◌, ◌++◌, append_assoc, append-nil, none, some, Bytes, length, length-append, ltb,
  ◌==◌, Bool-cases, ltb→lt, ltb→le,
}
use shinogi.Win.Resolution.{res_line}
use shinogi.Win.Resolution.Parsed.{IsSize, written-res_value, written-parsed}
use shinogi.Win.Resolution.Stored.{
  line_room, lines, has_newline, final_byte, line_size, read_lines, skip_line, write_lines,
  shinogi_write_resolution, shinogi_read_resolution,
}
use shinogi.Win.Resolution.Stored.Chunks.{
  Ended, ended, Full, full, Open, opened, Parts, no_parts, open_part, line_part, full_part,
  lines-Ended, lines-Full, lines-Parts, Ended-newline, Ended-pos, Full-pos, final_byte-plain,
}
use shinogi.Win.Resolution.Stored.Kept.{skipped_start, keep_round, first_round}
use shinogi.Win.Resolution.Stored.End.{
  crlf, end_line, end_open, before, has_newline-cr, skip_line-cr, newline_last, mid_line,
  crlf-Ended, newline-Ended,
}
use shinogi.Win.Resolution.Stored.Others.{other_text, Edited, write_lines-Edited}
use shinogi.Win.Resolution.Stored.Plain.{
  lines-NoNul, text_lines-NoNul, write-NoNul, res_line-NoNul, write_lines-NoNul,
}
use shinogi.Win.Resolution.Stored.SizeLine.{res_line-IsSizeLine, cut_comment-written}

kept_size : (start : Bool) (p : Bytes) → skip_line start false p ≡ false → line_size start p ≡ none
unfolding skip_line line_size
kept_size start p h = ground arith

read_round :
    (start : Bool) (p : Bytes) (ps : List Bytes)
    → line_size start p ≡ none
    → read_lines start (p ∷ ps) ≡ read_lines (has_newline p) ps
unfolding read_lines
read_round start p ps h = rw (h, read_lines) refl

read_size :
    (start : Bool) (p : Bytes) (ps : List Bytes) {s : ℕ × ℕ}
    → line_size start p ≡ some s
    → read_lines start (p ∷ ps) ≡ some s
unfolding read_lines
read_size start p ps h = rw (h, read_lines) refl

line_size-res_line : (w h : ℕ) → IsSize w h → line_size true (res_line w h) ≡ some (w, h)
unfolding line_size
line_size-res_line w h size =
    rw (written-res_value w h) (rw (cut_comment-written w h size) (written-parsed w h size))

module _ (w h : ℕ) (size : IsSize w h) where
  found :
      (fuel : ℕ) (rest : Bytes)
      → length (res_line w h ++ rest) ≤ fuel
      → read_lines true (lines fuel (res_line w h ++ rest)) ≡ some (w, h)
  found zero rest le = absurd (
      omega (
        arith,
        length-append (res_line w h) rest,
        Ended-pos (res_line-IsSizeLine w h size).whole,
        le,
      ))
  found (suc fuel) rest le =
      rw (lines-Ended fuel (res_line w h) rest (res_line-IsSizeLine w h size).whole)
        (read_size true (res_line w h) (lines fuel rest) (line_size-res_line w h size))

  -- A line in front is passed over.
  passed :
      (fuel : ℕ) (start : Bool) (p rest : Bytes)
      → 0 < length p
      → ((f : ℕ) → lines (suc f) (p ++ rest) ≡ p ∷ lines f rest)
      → skip_line start false p ≡ false
      → ((f : ℕ) → length rest ≤ f → read_lines (has_newline p) (lines f rest) ≡ some (w, h))
      → length (p ++ rest) ≤ fuel
      → read_lines start (lines fuel (p ++ rest)) ≡ some (w, h)
  passed zero start p rest pos split stays then_ le =
      absurd (omega (arith, length-append p rest, pos, le))
  passed (suc fuel) start p rest pos split stays then_ le = rw (split fuel) (
      read_round start p (lines fuel rest) (kept_size start p stays)
      ∙ then_ fuel (omega (arith, length-append p rest, pos, le)))

  found_last :
      (fuel : ℕ)
      → length (res_line w h) ≤ fuel
      → read_lines true (lines fuel (res_line w h)) ≡ some (w, h)
  found_last fuel le =
      rw (← append-nil (res_line w h)) (found fuel [] (rw (append-nil (res_line w h)) le))

  found_behind :
      (fuel : ℕ) (start : Bool) (p : Bytes)
      → Ended line_room p
      → skip_line start false p ≡ false
      → length (p ++ res_line w h) ≤ fuel
      → read_lines start (lines fuel (p ++ res_line w h)) ≡ some (w, h)
  found_behind fuel start p whole stays le =
      passed fuel start p (res_line w h) (Ended-pos whole)
        (λ f. lines-Ended f p (res_line w h) whole) stays
        (λ f m. rw (Ended-newline whole).0 (found_last f m)) le

  closed :
      (fuel : ℕ) (start : Bool) (p : Bytes)
      → Open line_room p
      → skip_line start false p ≡ false
      → length (p ++ (crlf ++ res_line w h)) ≤ fuel
      → read_lines start (lines fuel (p ++ (crlf ++ res_line w h))) ≡ some (w, h)
  closed fuel start p (opened plain less) stays le = elim (Bool-cases (ltb (length p + 1) 1023)) [
    | inl short ↦
        let whole : Ended line_room ((p ++ 13 ∷ []) ++ 10 ∷ []) =
          ended (p ++ 13 ∷ []) refl (has_newline-cr p plain)
            (omega (arith, length-append p (13 ∷ []), ltb→lt (length p + 1) 1023 short)) in
        let one : (p ++ 13 ∷ []) ++ 10 ∷ [] ≡ p ++ crlf = append_assoc p (13 ∷ []) (10 ∷ []) in
        let join = append_assoc p crlf (res_line w h) in
        rw (← join) (
          found_behind fuel start (p ++ crlf) (rw one at whole)
            (skip_line-cr start p (10 ∷ []) stays) (rw (← join) at le))
    | inr long ↦
        let whole : Full line_room (p ++ 13 ∷ []) =
          full (has_newline-cr p plain)
            (omega (arith, length-append p (13 ∷ []), less, ltb→le (length p + 1) 1023 long)) in
        let rest = 10 ∷ [] ++ res_line w h in
        let join : (p ++ 13 ∷ []) ++ rest ≡ p ++ (crlf ++ res_line w h) =
          append_assoc p (13 ∷ []) rest in
        rw (← join) (
          passed fuel start (p ++ 13 ∷ []) rest (Full-pos whole)
            (λ f. lines-Full f (p ++ 13 ∷ []) rest whole) (skip_line-cr start p [] stays)
            (λ f m.
              rw (has_newline-cr p plain)
                (found_behind f false (10 ∷ []) newline-Ended (mid_line (10 ∷ [])) m))
            (rw (← join) at le))
  ]

  -- What the loop wrote is read as the size.
  abbrev Found : List Bytes → Type 0
  Found ps =
      (fuel : ℕ) (start : Bool) (last : ℕ)
      → (last == 10) ≡ start
      → length (write_lines (res_line w h) false start false last ps) ≤ fuel
      → read_lines start (lines fuel (write_lines (res_line w h) false start false last ps))
        ≡ some (w, h)

  end-Found : Found []
  end-Found fuel start last e le = elim (Bool-cases (last == 10)) [
    | inl ends ↦
        let start' : start ≡ true = sym e ∙ ends in
        rw (end_line (res_line w h) start last ends)
          (rw start' (found_last fuel (rw (end_line (res_line w h) start last ends) at le)))
    | inr open_end ↦
        let start' : start ≡ false = sym e ∙ open_end in
        rw (end_open (res_line w h) start last open_end) (
          rw start' (
            found_behind fuel false crlf crlf-Ended (mid_line crlf)
              (rw (end_open (res_line w h) start last open_end) at le)))
  ]

  round-Found :
      (p : Bytes) (ps : List Bytes)
      → ((fuel : ℕ) (start : Bool)
          → skip_line start false p ≡ false
          → length (p ++ write_lines (res_line w h) false (has_newline p) false (final_byte p) ps)
            ≤ fuel
          → read_lines start (
              lines fuel
                (p ++ write_lines (res_line w h) false (has_newline p) false (final_byte p) ps))
            ≡ some (w, h))
      → Found (p ∷ ps)
  round-Found p ps kept fuel start last e le = elim (Bool-cases (skip_line start false p)) [
    | inl gone ↦
        let true' : start ≡ true = ground (arith, skipped_start start false p gone) in
        let opens = first_round (res_line w h) start false last p ps gone in
        let le' = rw opens at le in
        rw opens
          (rw true' (found fuel (write_lines (res_line w h) true (has_newline p) true last ps) le'))
    | inr stays ↦
        let opens = keep_round (res_line w h) false start false last p ps stays in
        rw opens (kept fuel start stays (rw opens at le))
  ]

  all-Found : {ps : List Bytes} → Parts ps → Found ps
  all-Found no_parts = end-Found
  all-Found (open_part p (opened plain less) pos) =
      let other = final_byte-plain p plain in
      round-Found p [] λ fuel start stays le.
        rw (end_open (res_line w h) (has_newline p) (final_byte p) other) (
          closed fuel start p (opened plain less) stays
            (rw (end_open (res_line w h) (has_newline p) (final_byte p) other) at le))
  all-Found (line_part p ps whole more) = round-Found p ps λ fuel start stays le.
      passed fuel start p _ (Ended-pos whole) (λ f. lines-Ended f p _ whole) stays
        (λ f m. all-Found more f (has_newline p) (final_byte p) (newline_last whole) m) le
  all-Found (full_part p ps (full plain long) more) = round-Found p ps λ fuel start stays le.
      passed fuel start p _ (Full-pos (full plain long)) (λ f. lines-Full f p _ (full plain long))
        stays
        (λ f m.
          all-Found more f (has_newline p) (final_byte p) (final_byte-plain p plain ∙ sym plain) m)
        le

-- Of a settings file without a 0 byte, whatever else it holds, long lines, other keys and several
-- sizes included, the loop never reads before its buffer. Then the size that is written is read from
-- the new file; the new file is the old one without the lines that set the size, with the new line
-- put in at one place, or behind it once the last line has its newline; and a size written after
-- another gives the file that it gives alone.
pub shinogi_write_resolution_lem :
    (file : Bytes) (w h w' h' : ℕ)
    → NoNul file
    → IsSize w h
    → (out : Bytes) × (shinogi_write_resolution file w h ≡ some out)
      × (shinogi_read_resolution out ≡ some (w, h))
      × Edited (res_line w h) (other_text true false (lines (length file) file)) out
      × (shinogi_write_resolution out w' h' ≡ shinogi_write_resolution file w' h')
unfolding shinogi_read_resolution
shinogi_write_resolution_lem file w h w' h' plain size =
    let new = res_line w h in
    let ls = lines (length file) file in
    let parts = lines-Parts (length file) file (omega arith) in
    let out = write_lines new false true false 10 ls in
    let plain' : NoNul out =
      write_lines-NoNul new ls false true false 10 (res_line-NoNul w h)
        (lines-NoNul (length file) file plain) in
    let kept =
      before new (res_line w' h') (res_line-IsSizeLine w h size) parts (length out) true 10 refl
        (omega arith) in
    (
      out,
      write-NoNul file w h plain,
      rw (text_lines-NoNul out plain')
          (all-Found w h size parts (length out) true 10 refl (omega arith)),
      write_lines-Edited new ls true 10,
      write-NoNul out w' h' plain' ∙ ap some kept ∙ sym (write-NoNul file w' h' plain),
    )
