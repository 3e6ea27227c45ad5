-- ===== src/Win/Resolution/Stored/Chunks.antt =====
-- tools/win/resolution.c: what the calls of `fgets` give.
use shinogi.Base.{
  inl, inr, ℕ, zero, suc, ◌≤◌, ◌<◌, ◌≡◌, refl, ap, ◌∙◌, arith, true, false, List, [], ◌∷◌, ◌++◌,
  append_assoc, append-nil, Bytes, length, length-append, ◌==◌, Bool-cases,
}
use shinogi.Win.Resolution.Stored.{fgets, line_room, lines, has_newline, final_byte}

-- A line that ends, a part that fills the buffer, or what is left behind the last newline.
pub data Ended (room : ℕ) (p : Bytes) : Type 0 where
  ended : (q : Bytes) → p ≡ q ++ 10 ∷ [] → has_newline q ≡ false → length q < room → Ended room p

pub data Full (room : ℕ) (p : Bytes) : Type 0 where
  full : has_newline p ≡ false → length p ≡ room → Full room p

pub data Open (room : ℕ) (p : Bytes) : Type 0 where
  opened : has_newline p ≡ false → length p < room → Open room p

-- A call on a line that ends early enough gives the line.
pub fgets-line :
    (room : ℕ) (q rest : Bytes)
    → has_newline q ≡ false
    → length q < room
    → fgets room (q ++ 10 ∷ rest) ≡ (q ++ 10 ∷ [], rest)
unfolding fgets has_newline
fgets-line zero q rest h l = absurd (omega (arith, l))
fgets-line (suc room) [] rest h l = refl
fgets-line (suc room) (c ∷ q) rest h l = ground (arith, fgets-line room q rest)

pub fgets-full :
    (room : ℕ) (p rest : Bytes)
    → has_newline p ≡ false
    → length p ≡ room
    → fgets room (p ++ rest) ≡ (p, rest)
unfolding fgets has_newline
fgets-full zero [] rest h l = refl
fgets-full zero (c ∷ p) rest h l = absurd (omega (arith, l))
fgets-full (suc room) [] rest h l = absurd (omega (arith, l))
fgets-full (suc room) (c ∷ p) rest h l = ground (arith, fgets-full room p rest)

-- The cases of a call.
pub data Got (room : ℕ) (text p rest : Bytes) : Type 0 where
  got_line : Ended room p → text ≡ p ++ rest → Got room text p rest
  got_full : Full room p → text ≡ p ++ rest → Got room text p rest
  got_open : Open room p → text ≡ p → rest ≡ [] → Got room text p rest

more-Got :
    (room c : ℕ) (cs p rest : Bytes)
    → (c == 10) ≡ false
    → Got room cs p rest
    → Got (suc room) (c ∷ cs) (c ∷ p) rest
unfolding has_newline
more-Got room c cs p rest n (got_line (ended q e h l) t) =
    got_line (ended (c ∷ q) (ap (◌∷◌ c) e) (ground arith) (omega (arith, l))) (ap (◌∷◌ c) t)
more-Got room c cs p rest n (got_full (full h l) t) =
    got_full (full (ground arith) (omega (arith, l))) (ap (◌∷◌ c) t)
more-Got room c cs p rest n (got_open (opened h l) t r) =
    got_open (opened (ground arith) (omega (arith, l))) (ap (◌∷◌ c) t) r

pub fgets_cases : (room : ℕ) (text : Bytes) → Got room text (fgets room text).0 (fgets room text).1
unfolding fgets has_newline
fgets_cases zero text = got_full (full refl refl) refl
fgets_cases (suc room) [] = got_open (opened refl (omega arith)) refl refl
fgets_cases (suc room) (c ∷ cs) = elim (Bool-cases (c == 10)) [
  | inl ends ↦
      let e : c ∷ [] ≡ 10 ∷ [] = ground arith in
      rw ends (got_line (ended [] e refl (omega arith)) refl)
  | inr other ↦
      rw other (more-Got room c cs (fgets room cs).0 (fgets room cs).1 other (fgets_cases room cs))
]

-- The parts of a file: only behind the last newline one may be shorter than the buffer.
pub data Parts : List Bytes → Type 0 where
  no_parts : Parts []
  open_part : (p : Bytes) → Open line_room p → 0 < length p → Parts (p ∷ [])
  line_part : (p : Bytes) (ps : List Bytes) → Ended line_room p → Parts ps → Parts (p ∷ ps)
  full_part : (p : Bytes) (ps : List Bytes) → Full line_room p → Parts ps → Parts (p ∷ ps)

lines_step :
    (fuel c : ℕ) (cs : Bytes)
    → lines (suc fuel) (c ∷ cs)
      ≡ (fgets line_room (c ∷ cs)).0 ∷ lines fuel (fgets line_room (c ∷ cs)).1
unfolding lines
lines_step fuel c cs = refl

nonempty :
    (fuel : ℕ) (p rest line rest' : Bytes)
    → 0 < length p
    → fgets line_room (p ++ rest) ≡ (line, rest')
    → lines (suc fuel) (p ++ rest) ≡ line ∷ lines fuel rest'
nonempty fuel [] rest line rest' h e = absurd (omega (arith, h))
nonempty fuel (c ∷ p) rest line rest' h e = lines_step fuel c (p ++ rest) ∙ rw e refl

ended_pos : (q : Bytes) → 0 < length (q ++ 10 ∷ [])
ended_pos q = omega (arith, length-append q (10 ∷ []))

-- A part in front is given by one call.
pub lines-Ended :
    (fuel : ℕ) (p rest : Bytes)
    → Ended line_room p
    → lines (suc fuel) (p ++ rest) ≡ p ∷ lines fuel rest
lines-Ended fuel p rest (ended q e h l) = rw e (
    nonempty fuel (q ++ 10 ∷ []) rest (q ++ 10 ∷ []) rest (ended_pos q)
      (rw (append_assoc q (10 ∷ []) rest) (fgets-line line_room q rest h l)))

pub lines-Full :
    (fuel : ℕ) (p rest : Bytes)
    → Full line_room p
    → lines (suc fuel) (p ++ rest) ≡ p ∷ lines fuel rest
lines-Full fuel p rest (full h l) =
    nonempty fuel p rest p rest (omega (arith, l)) (fgets-full line_room p rest h l)

pub Ended-pos : {p : Bytes} → Ended line_room p → 0 < length p
Ended-pos (ended q e h l) = rw e (ended_pos q)

pub Full-pos : {p : Bytes} → Full line_room p → 0 < length p
Full-pos (full h l) = omega (arith, l)

-- One call, and the parts that the others give.
Parts-Got :
    (text p rest : Bytes) (ps : List Bytes)
    → 0 < length text
    → Got line_room text p rest
    → Parts ps
    → (rest ≡ [] → ps ≡ [])
    → Parts (p ∷ ps)
Parts-Got text p rest ps h (got_line k t) more e = line_part p ps k more
Parts-Got text p rest ps h (got_full k t) more e = full_part p ps k more
Parts-Got text p rest ps h (got_open k t r) more e = rw (e r) (open_part p k (rw (← t) h))

shorter-Got :
    (text p rest : Bytes) → 0 < length text → Got line_room text p rest → length rest < length text
shorter-Got text p rest h (got_line k t) =
    omega (arith, ap length t, length-append p rest, Ended-pos k)
shorter-Got text p rest h (got_full k t) =
    omega (arith, ap length t, length-append p rest, Full-pos k)
shorter-Got text p rest h (got_open k t r) = omega (arith, ap length r, h)

pub lines-nil : (fuel : ℕ) → lines fuel [] ≡ []
unfolding lines
lines-nil zero = refl
lines-nil (suc fuel) = refl

pub lines-Parts : (fuel : ℕ) (text : Bytes) → length text ≤ fuel → Parts (lines fuel text)
lines-Parts fuel [] h = rw (lines-nil fuel) no_parts
lines-Parts zero (c ∷ cs) h = absurd (omega (arith, h))
lines-Parts (suc fuel) (c ∷ cs) h =
    let (line, rest) = fgets line_room (c ∷ cs) in
    let got = fgets_cases line_room (c ∷ cs) in
    let less = shorter-Got (c ∷ cs) line rest (omega arith) got in
    rw (lines_step fuel c cs) (
      Parts-Got (c ∷ cs) line rest (lines fuel rest) (omega arith) got
        (lines-Parts fuel rest (omega (arith, h, less))) (λ e. rw e (lines-nil fuel)))

has_newline-ended : (q : Bytes) → has_newline (q ++ 10 ∷ []) ≡ true
unfolding has_newline
has_newline-ended [] = refl
has_newline-ended (c ∷ q) = ground (arith, has_newline-ended q)

final_byte-ended : (q : Bytes) → final_byte (q ++ 10 ∷ []) ≡ 10
unfolding final_byte
final_byte-ended [] = refl
final_byte-ended (c ∷ []) = refl
final_byte-ended (c ∷ d ∷ q) = final_byte-ended (d ∷ q)

pub final_byte-plain : (p : Bytes) → has_newline p ≡ false → (final_byte p == 10) ≡ false
unfolding final_byte has_newline
final_byte-plain [] h = refl
final_byte-plain (c ∷ []) h = ground arith
final_byte-plain (c ∷ d ∷ p) h = final_byte-plain (d ∷ p) (ground arith)

-- The newline is the last byte or missing.
pub Ended-newline : {p : Bytes} → Ended line_room p → (has_newline p ≡ true) × (final_byte p ≡ 10)
Ended-newline (ended q e h l) = rw e (has_newline-ended q, final_byte-ended q)

pub Full-newline : {p : Bytes} → Full line_room p → has_newline p ≡ false
Full-newline (full h l) = h

fgets-open :
    (room : ℕ) (p : Bytes) → has_newline p ≡ false → length p < room → fgets room p ≡ (p, [])
unfolding fgets has_newline
fgets-open zero p h l = absurd (omega (arith, l))
fgets-open (suc room) [] h l = refl
fgets-open (suc room) (c ∷ p) h l = ground (arith, fgets-open room p)

pub lines-Open :
    (fuel : ℕ) (p : Bytes)
    → Open line_room p
    → 0 < length p
    → lines (suc fuel) (p ++ []) ≡ p ∷ lines fuel []
lines-Open fuel p (opened h l) pos =
    nonempty fuel p [] p [] pos (rw (append-nil p) (fgets-open line_room p h l))
