-- ===== src/Win/Resolution/Stored/Last.antt =====
-- tools/win/resolution.c: of two sizes written one after the other the last stays, and is read.
use shinogi.Base.{
  inl, inr, ℕ, zero, suc, ◌≤◌, ◌<◌, ◌≡◌, refl, ap, ◌∙◌, sym, ◌⊎◌, arith, Bool, true, false, ◌||◌,
  List, [], ◌∷◌, ◌++◌, append-nil, Bytes, length, length-append, ◌==◌, Bool-cases,
}
use shinogi.Win.Resolution.Stored.{lines, has_newline, final_byte, skip_line, write_lines}
use shinogi.Win.Resolution.Stored.Chunks.{
  Parts, no_parts, open_part, line_part, full_part, lines-Ended, lines-Full, lines-nil,
  Ended-newline, Ended-pos, Full-pos, lines-Open,
}
use shinogi.Win.Resolution.Stored.Kept.{
  IsSizeLine, skip_line_again, skipped_start, skip_round, first_round, keep_round, end_round,
}

module _ (new new' : Bytes) where
  -- Behind the line: a second run keeps what the first kept.
  abbrev Behind : List Bytes → Type 0
  Behind ps =
      (fuel : ℕ) (start skip start' skip' : Bool) (last last1 last2 : ℕ)
      → start' ≡ (start || skip)
      → (start' ≡ true) ⊎ (skip' ≡ false)
      → length (write_lines new true start skip last ps) ≤ fuel
      → write_lines new' true start' skip' last1
          (lines fuel (write_lines new true start skip last ps))
        ≡ write_lines new' true start skip last2 ps

  behind_round :
      (p : Bytes) (ps : List Bytes)
      → 0 < length p
      → ((fuel : ℕ)
          → lines (suc fuel) (p ++ write_lines new true (has_newline p) false (final_byte p) ps)
            ≡ p ∷ lines fuel (write_lines new true (has_newline p) false (final_byte p) ps))
      → Behind ps
      → Behind (p ∷ ps)
  behind_round p ps pos split ih zero start skip start' skip' last last1 last2 e f h =
      elim (Bool-cases (skip_line start skip p)) [
        | inl gone ↦
            let true' = e ∙ skipped_start start skip p gone in
            rw (skip_round new start skip last p ps gone) (
              rw (skip_round new' start skip last2 p ps gone) (
                ih zero (has_newline p) true start' skip' last last1 last2 (ground arith)
                  (inl true') (rw (skip_round new start skip last p ps gone) at h)))
        | inr stays ↦
            let rest = write_lines new true (has_newline p) false (final_byte p) ps in
            absurd (
              omega (
                arith,
                length-append p rest,
                pos,
                rw (keep_round new true start skip last p ps stays) at h,
              ))
      ]
  behind_round p ps pos split ih (suc fuel) start skip start' skip' last last1 last2 e f h =
      elim (Bool-cases (skip_line start skip p)) [
        | inl gone ↦
            let true' = e ∙ skipped_start start skip p gone in
            rw (skip_round new start skip last p ps gone) (
              rw (skip_round new' start skip last2 p ps gone) (
                ih (suc fuel) (has_newline p) true start' skip' last last1 last2 (ground arith)
                  (inl true') (rw (skip_round new start skip last p ps gone) at h)))
        | inr stays ↦
            let rest = write_lines new true (has_newline p) false (final_byte p) ps in
            let stays' = skip_line_again start skip start' skip' p e f stays in
            let less : length rest ≤ fuel = omega (
              arith,
              length-append p rest,
              pos,
              rw (keep_round new true start skip last p ps stays) at h,
            ) in
            rw (keep_round new true start skip last p ps stays) (
              rw (keep_round new' true start skip last2 p ps stays) (
                rw (split fuel) (
                  rw (keep_round new' true start' skip' last1 p (lines fuel rest) stays') (
                    ap (◌++◌ p) (
                      ih fuel (has_newline p) false (has_newline p) false (final_byte p)
                        (final_byte p) (final_byte p) (ground arith) (inr refl) less)))))
      ]

  behind_end : Behind []
  behind_end fuel start skip start' skip' last last1 last2 e f h =
      rw (end_round new start skip last) (
        rw (lines-nil fuel)
          (end_round new' start' skip' last1 ∙ sym (end_round new' start skip last2)))

  behind : {ps : List Bytes} → Parts ps → Behind ps
  behind no_parts = behind_end
  behind (open_part p o pos) =
      behind_round p [] pos
        (λ fuel. rw (end_round new (has_newline p) false (final_byte p)) (lines-Open fuel p o pos))
        behind_end
  behind (line_part p ps w more) =
      behind_round p ps (Ended-pos w) (λ fuel. lines-Ended fuel p _ w) (behind more)
  behind (full_part p ps w more) =
      behind_round p ps (Full-pos w) (λ fuel. lines-Full fuel p _ w) (behind more)

  -- Before it: both runs stand at the same place.
  abbrev pub Before : List Bytes → Type 0
  Before ps =
      (fuel : ℕ) (start : Bool) (last : ℕ)
      → (last == 10) ≡ start
      → length (write_lines new false start false last ps) ≤ fuel
      → write_lines new' false start false last
          (lines fuel (write_lines new false start false last ps))
        ≡ write_lines new' false start false last ps

skips : (new : Bytes) → IsSizeLine new → skip_line true false new ≡ true
unfolding skip_line
skips new line = line.sets

module _ (new new' : Bytes) (line : IsSizeLine new) where
  -- The line that the first run wrote is replaced by that of the second.
  replaced :
      (fuel last : ℕ) (rest : Bytes)
      → length (new ++ rest) ≤ fuel
      → (f : ℕ) × (length rest ≤ f)
        × (write_lines new' false true false last (lines fuel (new ++ rest))
            ≡ new' ++ write_lines new' true true true last (lines f rest))
  replaced zero last rest h = absurd (omega (arith, length-append new rest, Ended-pos line.whole))
  replaced (suc fuel) last rest h =
      let gone : skip_line true false new ≡ true = skips new line in
      (
        fuel,
        omega (arith, length-append new rest, Ended-pos line.whole, h),
        rw (lines-Ended fuel new rest line.whole) (
            rw (first_round new' true false last new (lines fuel rest) gone)
              (rw (Ended-newline line.whole).0)),
      )

  pub before_first :
      (p : Bytes) {ps : List Bytes}
      → Parts ps
      → (fuel last : ℕ) → skip_line true false p ≡ true
      → length (write_lines new false true false last (p ∷ ps)) ≤ fuel
      → write_lines new' false true false last
          (lines fuel (write_lines new false true false last (p ∷ ps)))
        ≡ write_lines new' false true false last (p ∷ ps)
  before_first p {ps} more fuel last gone h =
      let rest = write_lines new true (has_newline p) true last ps in
      let (f, le, e) =
        replaced fuel last rest (rw (first_round new true false last p ps gone) at h) in
      rw (first_round new true false last p ps gone) (
        rw (first_round new' true false last p ps gone) (
          rw e (
            ap (◌++◌ new') (
              behind new new' more f (has_newline p) true true true last last last (ground arith)
                (inl refl) le))))

  before_kept :
      (p : Bytes) (ps : List Bytes)
      → 0 < length p
      → ((fuel : ℕ)
          → lines (suc fuel) (p ++ write_lines new false (has_newline p) false (final_byte p) ps)
            ≡ p ∷ lines fuel (write_lines new false (has_newline p) false (final_byte p) ps))
      → (final_byte p == 10) ≡ has_newline p
      → Before new new' ps
      → (fuel : ℕ) (start : Bool) (last : ℕ) → skip_line start false p ≡ false
      → length (write_lines new false start false last (p ∷ ps)) ≤ fuel
      → write_lines new' false start false last
          (lines fuel (write_lines new false start false last (p ∷ ps)))
        ≡ write_lines new' false start false last (p ∷ ps)
  before_kept p ps pos split flag ih zero start last stays h =
      let rest = write_lines new false (has_newline p) false (final_byte p) ps in
      absurd (
        omega (
          arith,
          length-append p rest,
          pos,
          rw (keep_round new false start false last p ps stays) at h,
        ))
  before_kept p ps pos split flag ih (suc fuel) start last stays h =
      let rest = write_lines new false (has_newline p) false (final_byte p) ps in
      let less : length rest ≤ fuel = omega (
        arith,
        length-append p rest,
        pos,
        rw (keep_round new false start false last p ps stays) at h,
      ) in
      rw (keep_round new false start false last p ps stays) (
        rw (keep_round new' false start false last p ps stays) (
          rw (split fuel) (
            rw (keep_round new' false start false last p (lines fuel rest) stays)
              (ap (◌++◌ p) (ih fuel (has_newline p) (final_byte p) flag less)))))

  pub before_round :
      (p : Bytes) (ps : List Bytes)
      → 0 < length p
      → ((fuel : ℕ)
          → lines (suc fuel) (p ++ write_lines new false (has_newline p) false (final_byte p) ps)
            ≡ p ∷ lines fuel (write_lines new false (has_newline p) false (final_byte p) ps))
      → (final_byte p == 10) ≡ has_newline p
      → Parts ps
      → Before new new' ps
      → Before new new' (p ∷ ps)
  before_round p ps pos split flag more ih fuel start last e h =
      elim (Bool-cases (skip_line start false p)) [
        | inl gone ↦
            let true' : start ≡ true = ground (arith, skipped_start start false p gone) in
            rw true' (before_first p more fuel last (rw true' at gone) (rw true' at h))
        | inr stays ↦ before_kept p ps pos split flag ih fuel start last stays h
      ]

  -- Only the line is left.
  pub found :
      (fuel last : ℕ)
      → length new ≤ fuel
      → write_lines new' false true false last (lines fuel new) ≡ new'
  found fuel last h =
      let (f, _, e) = replaced fuel last [] (rw (append-nil new) h) in
      let e' = rw (append-nil new) at e in
      e' ∙ rw (lines-nil f) (rw (end_round new' true true last) (append-nil new'))
