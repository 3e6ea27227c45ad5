-- ===== src/Linux/Monitor/Qmp/Enough.antt =====
-- tools/linux/shinogi-monitor.c, `qmp_send`: the rounds that the loop is given are enough.
use shinogi.Base.{
  ℕ, zero, suc, ◌<◌, ◌≡◌, refl, ap, inl, inr, arith, [], ◌∷◌, ◌++◌, List, some, Bytes, length, ◌==◌,
  Bool-cases, Option-cases,
}
use mathlib.Core.Option.{some-injective}
use shinogi.Linux.Monitor.Qmp.{Single, byte, nothing, read_line, qmp_line_room, await_answer}

-- A line takes at least one byte.
read_line-shorter :
    (room : ℕ) (bs : List Single) (front line : Bytes) (rest : List Single)
    → read_line room bs front ≡ some (line, rest)
    → length rest < length bs
unfolding read_line
read_line-shorter zero bs front line rest h = absurd (cc)
read_line-shorter (suc room) [] front line rest h = absurd (cc)
read_line-shorter (suc room) (nothing ∷ bs) front line rest h = absurd (cc)
read_line-shorter (suc room) (byte c ∷ bs) front line rest h = elim (Bool-cases (c == 10)) [
  | inl newline ↦
      let e = some-injective (front, bs) (line, rest) (rw newline at h) in
      omega (arith, ap (λ p. length p.1) e)
  | inr other ↦
      let shorter = read_line-shorter room bs (front ++ c ∷ []) line rest (rw other at h) in
      omega (arith, shorter)
]

-- Rounds beyond one for each byte and one more change nothing.
await_answer-enough :
    (n m : ℕ) (bs : List Single)
    → length bs < n
    → length bs < m
    → await_answer n bs ≡ await_answer m bs
unfolding await_answer
await_answer-enough zero m bs h k = absurd (omega (arith, h))
await_answer-enough (suc n) zero bs h k = absurd (omega (arith, k))
await_answer-enough (suc n) (suc m) bs h k = elim (Option-cases (read_line qmp_line_room bs [])) [
  | inl ends ↦ rw (ends, await_answer) refl
  | inr ((text, rest), e) ↦
      let shorter = read_line-shorter qmp_line_room bs [] text rest e in
      let again =
        await_answer-enough n m rest (omega (arith, h, shorter)) (omega (arith, k, shorter)) in
      rw (e, await_answer) (rw again refl)
]
