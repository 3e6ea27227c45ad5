-- ===== src/Win/Resolution/Stored/Plain.antt =====
-- tools/win/resolution.c: files without a 0 byte, of which the calls on C strings see all.
use shinogi.Base.{
  inl, inr, ℕ, zero, suc, ◌<◌, ◌≡◌, ◌≢◌, refl, arith, Bool, true, false, List, [], ◌∷◌, ◌++◌, map,
  some, Bytes, codes, NoNul, c_string, c_string-NoNul, All, All-append, length, ltb, ◌==◌,
  Bool-cases,
}
use shinogi.Win.Resolution.{decimal_text, res_line}
use shinogi.Win.Resolution.Stored.{
  fgets, line_room, lines, text_lines, has_newline, final_byte, skip_line, write_lines,
  reads_before, shinogi_write_resolution,
}
use shinogi.Win.Resolution.Stored.Chunks.{
  Parts, no_parts, open_part, line_part, full_part, lines-Parts, Ended-pos, Full-pos,
}

fgets-NoNul :
    (room : ℕ) (text : Bytes) → NoNul text → NoNul (fgets room text).0 × NoNul (fgets room text).1
unfolding fgets
fgets-NoNul zero text h = (tt, h)
fgets-NoNul (suc room) [] h = (tt, tt)
fgets-NoNul (suc room) (c ∷ cs) (h, hs) =
    let more = fgets-NoNul room cs hs in
    elim (Bool-cases (c == 10)) [
      | inl ends ↦ rw ends ((h, tt), hs)
      | inr goes_on ↦ rw goes_on ((h, more.0), more.1)
    ]

pub lines-NoNul : (fuel : ℕ) (text : Bytes) → NoNul text → All NoNul (lines fuel text)
unfolding lines
lines-NoNul zero text h = tt
lines-NoNul (suc fuel) [] h = tt
lines-NoNul (suc fuel) (c ∷ cs) h =
    let (line, rest) = fgets-NoNul line_room (c ∷ cs) h in
    (line, lines-NoNul fuel (fgets line_room (c ∷ cs)).1 rest)

map-NoNul : (ls : List Bytes) → All NoNul ls → map c_string ls ≡ ls
map-NoNul [] h = refl
map-NoNul (l ∷ ls) (h, hs) = rw (c_string-NoNul l h, map-NoNul ls hs)

pub text_lines-NoNul : (file : Bytes) → NoNul file → text_lines file ≡ lines (length file) file
unfolding text_lines
text_lines-NoNul file h = map-NoNul (lines (length file) file) (lines-NoNul (length file) file h)

-- No part of a file is empty.
reads_before-line :
    (start skip : Bool) (p : Bytes) (ps : List Bytes)
    → 0 < length p
    → ((start skip : Bool) → reads_before start skip ps ≡ false)
    → reads_before start skip (p ∷ ps) ≡ false
unfolding reads_before
reads_before-line start skip p ps h more =
    let some_byte : (length p == 0) ≡ false = ground (arith, h) in
    let behind = more (has_newline p) (skip_line start skip p) in ground (arith, some_byte, behind)

reads_before-Parts :
    {ps : List Bytes} (start skip : Bool) → Parts ps → reads_before start skip ps ≡ false
unfolding reads_before
reads_before-Parts start skip no_parts = refl
reads_before-Parts start skip (open_part p o pos) =
    reads_before-line start skip p [] pos (λ s k. refl)
reads_before-Parts start skip (line_part p ps whole more) =
    reads_before-line start skip p ps (Ended-pos whole) (λ s k. reads_before-Parts s k more)
reads_before-Parts start skip (full_part p ps whole more) =
    reads_before-line start skip p ps (Full-pos whole) (λ s k. reads_before-Parts s k more)

pub write-NoNul :
    (file : Bytes) (w h : ℕ)
    → NoNul file
    → shinogi_write_resolution file w h
      ≡ some (write_lines (res_line w h) false true false 10 (lines (length file) file))
unfolding shinogi_write_resolution
write-NoNul file w h plain =
    let parts = lines-Parts (length file) file (omega arith) in
    rw (text_lines-NoNul file plain, reads_before-Parts true false parts) refl

decimal_text-NoNul : (n : ℕ) → NoNul (decimal_text n)
unfolding decimal_text
decimal_text-NoNul n = elim (Bool-cases (ltb n 1000)) [
  | inl short ↦ rw short (omega arith, (omega arith, (omega arith, tt)))
  | inr long ↦ rw long (omega arith, (omega arith, (omega arith, (omega arith, tt))))
]

pub res_line-NoNul : (w h : ℕ) → NoNul (res_line w h)
unfolding res_line
res_line-NoNul w h =
    let end : NoNul (13 ∷ 10 ∷ []) = (omega arith, (omega arith, tt)) in
    let low = decimal_text h ++ 13 ∷ 10 ∷ [] in
    let low' : NoNul low =
      All-append (λ c. c ≢ 0) (decimal_text h) (13 ∷ 10 ∷ []) (decimal_text-NoNul h) end in
    let size : NoNul (decimal_text w ++ 120 ∷ low) =
      All-append (λ c. c ≢ 0) (decimal_text w) (120 ∷ low) (decimal_text-NoNul w)
        (omega arith, low') in
    All-append (λ c. c ≢ 0) (codes "res = ") (decimal_text w ++ 120 ∷ low) (ground arith) size

pub write_lines-NoNul :
    (new : Bytes) (ps : List Bytes) (wrote start skip : Bool) (last : ℕ)
    → NoNul new
    → All NoNul ps
    → NoNul (write_lines new wrote start skip last ps)
unfolding write_lines
write_lines-NoNul new [] true start skip last n h = tt
write_lines-NoNul new [] false start skip last n h = elim (Bool-cases (last == 10)) [
  | inl ends ↦ rw ends n
  | inr open_end ↦ rw open_end (omega arith, (omega arith, n))
]
write_lines-NoNul new (p ∷ ps) wrote start skip last n (h, hs) =
    let skipped = write_lines-NoNul new ps true (has_newline p) true last n hs in
    let kept = write_lines-NoNul new ps wrote (has_newline p) false (final_byte p) n hs in
    elim (Bool-cases (skip_line start skip p)) [
      | inr stays ↦ rw stays (All-append (λ c. c ≢ 0) p _ h kept)
      | inl gone ↦ elim (Bool-cases wrote) [
        | inl already ↦ rw gone (rw already skipped)
        | inr first ↦ rw gone (rw first (All-append (λ c. c ≢ 0) new _ n skipped))
      ]
    ]
