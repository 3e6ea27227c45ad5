-- ===== src/Linux/Monitor/Text/Printed.antt =====
-- tools/linux/shinogi-monitor.c, `print_reply`: the echo, the prompt and the blank lines go.
use shinogi.Base.{
  ℕ, zero, suc, ◌+◌, ◌-◌, ◌<◌, ◌≡◌, ◌≢◌, refl, ap, ◌∙◌, sym, ◌⊎◌, inl, inr, arith, true, ◌&&◌, [],
  ◌∷◌, ◌++◌, append_assoc, some, Bytes, length, length-append, take, drop, take-append-drop,
  take-length-append, drop-length-append, All, equal, equal_iff, equal_refl, leb, ltb, ◌==◌,
  if◌then◌else◌, Bool-cases,
}
use shinogi.Linux.Monitor.Text.{
  prompt, reply_max, behind_newline, strip_prompts, strip_newlines, terminated, body_of,
  print_reply,
}
use shinogi.Linux.Monitor.Text.Prompt.{IsPrompted}

-- Empty, or with something else than a newline or a carriage return at its end.
pub data IsTrimmed : Bytes → Type 0 where
  empty : IsTrimmed []
  ends_in : (text : Bytes) (c : ℕ) → c ≢ 10 → c ≢ 13 → IsTrimmed (text ++ c ∷ [])

abbrev pub IsLineEnd : ℕ → Type 0
IsLineEnd c = (c ≡ 10) ⊎ (c ≡ 13)

behind_newline-append :
    (echo rest : Bytes) → All (λ c. c ≢ 10) echo → behind_newline (echo ++ 10 ∷ rest) ≡ some rest
unfolding behind_newline
behind_newline-append [] rest h = refl
behind_newline-append (c ∷ echo) rest (h, hs) = ground (arith, behind_newline-append echo rest hs)

strip_prompts-other :
    (text : Bytes) (n : ℕ) → ((zs : Bytes) → text ≢ zs ++ prompt) → strip_prompts n text ≡ text
unfolding strip_prompts
strip_prompts-other text zero h = refl
strip_prompts-other text (suc n) h =
    let k = length text - 7 in
    elim (Bool-cases (leb 7 (length text) && equal (drop k text) prompt)) [
      | inl found ↦
          let tail : drop k text ≡ prompt =
            (equal_iff (drop k text) prompt).0 (ground (arith, found)) in
          absurd (h (take k text) (sym (take-append-drop k text) ∙ ap (λ l. take k text ++ l) tail))
      | inr other ↦ rw other
    ]

-- One prompt at the end goes, if none stands before it.
strip_prompts-one :
    (text : Bytes) (n : ℕ)
    → ((zs : Bytes) → text ≢ zs ++ prompt)
    → strip_prompts (suc n) (text ++ prompt) ≡ text
unfolding strip_prompts
strip_prompts-one text n h =
    let at : length (text ++ prompt) - 7 ≡ length text = omega (arith, length-append text prompt) in
    let long : leb 7 (length (text ++ prompt)) ≡ true = ground (arith, length-append text prompt) in
    rw (at, long, drop-length-append text prompt, equal_refl prompt, take-length-append text prompt)
      (strip_prompts-other text n h)

strip_newlines-ends : (ends : Bytes) → All IsLineEnd ends → strip_newlines ends ≡ []
unfolding strip_newlines
strip_newlines-ends [] h = refl
strip_newlines-ends (c ∷ ends) (h, hs) = rw (strip_newlines-ends ends hs) (ground arith)

strip_newlines-kept :
    (text : Bytes) (c : ℕ) (ends : Bytes)
    → c ≢ 10
    → c ≢ 13
    → All IsLineEnd ends
    → strip_newlines (text ++ c ∷ ends) ≡ text ++ c ∷ []
unfolding strip_newlines
strip_newlines-kept [] c ends h k l = rw (strip_newlines-ends ends l) (ground arith)
strip_newlines-kept (x ∷ text) c ends h k l =
    rw (strip_newlines-kept text c ends h k l) (ground (arith, length-append text (c ∷ [])))

strip_newlines-trimmed :
    (text ends : Bytes) → IsTrimmed text → All IsLineEnd ends → strip_newlines (text ++ ends) ≡ text
strip_newlines-trimmed _ ends empty k = strip_newlines-ends ends k
strip_newlines-trimmed _ ends (ends_in text c h h') k =
    rw (append_assoc text (c ∷ []) ends) (strip_newlines-kept text c ends h h' k)

-- What is printed of an answer.
abbrev pub answer_line : Bytes → Bytes
answer_line [] = []
answer_line (c ∷ cs) = (c ∷ cs) ++ 10 ∷ []

body_of-terminated :
    (echo text : Bytes)
    → All (λ c. c ≢ 10) echo
    → length (echo ++ 10 ∷ (text ++ prompt)) < reply_max
    → body_of (terminated (echo ++ 10 ∷ (text ++ prompt))) ≡ text ++ prompt
unfolding body_of terminated
body_of-terminated echo text h room =
    let fits : ltb (length (echo ++ 10 ∷ (text ++ prompt))) reply_max ≡ true =
      ground (arith, room) in
    rw fits (rw (behind_newline-append echo (text ++ prompt) h, body_of) refl)

line_of-trimmed :
    (answer : Bytes) → (if length answer == 0 then [] else answer ++ 10 ∷ []) ≡ answer_line answer
line_of-trimmed [] = refl
line_of-trimmed (c ∷ cs) = ground arith

pub print_reply-answer :
    (echo answer ends : Bytes)
    → All (λ c. c ≢ 10) echo
    → IsTrimmed answer
    → All IsLineEnd ends
    → IsPrompted (echo ++ 10 ∷ ((answer ++ ends) ++ prompt))
    → length (echo ++ 10 ∷ ((answer ++ ends) ++ prompt)) < reply_max
    → print_reply (echo ++ 10 ∷ ((answer ++ ends) ++ prompt)) ≡ answer_line answer
unfolding print_reply
print_reply-answer echo answer ends h k l r room =
    let text = answer ++ ends in
    let alone : (zs : Bytes) → text ≢ zs ++ prompt = λ zs e.
      let twice : echo ++ 10 ∷ (text ++ prompt) ≡ (echo ++ 10 ∷ zs) ++ (prompt ++ prompt) =
        ap (λ l. echo ++ 10 ∷ (l ++ prompt)) e
        ∙ ap (λ l. echo ++ 10 ∷ l) (append_assoc zs prompt prompt)
        ∙ sym (append_assoc echo (10 ∷ zs) (prompt ++ prompt)) in
      absurd (omega (arith, ap length (r.once (echo ++ 10 ∷ zs) prompt twice))) in
    let size : length (text ++ prompt) ≡ suc (length text + 6) =
      omega (arith, length-append text prompt) in
    rw
      (
        body_of-terminated echo text h room,
        size,
        strip_prompts-one text (length text + 6) alone,
        strip_newlines-trimmed answer ends k l,
      )
      (line_of-trimmed answer)
