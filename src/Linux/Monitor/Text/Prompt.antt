-- ===== src/Linux/Monitor/Text/Prompt.antt =====
-- tools/linux/shinogi-monitor.c, `drain`: the prompt is found wherever the reads cut it.
use shinogi.Base.{
  ℕ, zero, suc, ◌+◌, ◌-◌, ◌≤◌, ◌<◌, min, ◌≡◌, refl, ap, ◌∙◌, sym, ◌⊎◌, inl, inr, arith, Bool, true,
  false, List, [], ◌∷◌, ◌++◌, append-nil, append_assoc, Bytes, length, length-append, length-drop,
  take, drop, take-append-drop, replicate, get_or, All, equal, equal_iff, Bool-cases, leb, ◌==◌,
  not, ◌&&◌, ◌||◌, starts_with, starts_with-append,
}
use shinogi.Linux.Monitor.Text.{
  Arrival, got, prompted, prompt, reply_max, no_tail, next_tail, keep_reply, drain,
}

-- All that the pieces hold.
abbrev pub joined : List Bytes → Bytes
joined [] = []
joined (piece ∷ pieces) = piece ++ joined pieces

-- The pieces come one by one, and then what else comes.
abbrev pub arriving : List Bytes → List Arrival → List Arrival
arriving [] more = more
arriving (piece ∷ pieces) more = got piece ∷ arriving pieces more

none_of_length : (l : Bytes) → length l ≡ 0 → l ≡ []
none_of_length [] h = refl
none_of_length (x ∷ l) h = absurd (omega (arith, h))

-- The prompt stands at the end and nowhere before.
pub record IsPrompted (s : Bytes) : Type 0 where
  pub before : Bytes
  pub shape : s ≡ before ++ prompt
  pub once : (xs ys : Bytes) → s ≡ xs ++ (prompt ++ ys) → ys ≡ []

-- Whether no prompt stands before the last seven bytes.
unfoldable pub is_once : Bytes → Bool
is_once [] = true
is_once (c ∷ cs) = (not (starts_with (c ∷ cs) prompt) || length (c ∷ cs) == 7) && is_once cs

pub is_once_lem : (s xs ys : Bytes) → is_once s ≡ true → s ≡ xs ++ (prompt ++ ys) → ys ≡ []
unfolding is_once
is_once_lem [] xs ys h e =
    absurd (omega (arith, ap length e, length-append xs (prompt ++ ys), length-append prompt ys))
is_once_lem (c ∷ cs) [] ys h e =
    let starts : starts_with (c ∷ cs) prompt ≡ true =
      ap (λ s. starts_with s prompt) e ∙ starts_with-append prompt ys in
    none_of_length ys (ground (arith, starts, ap length e, length-append prompt ys))
is_once_lem (c ∷ cs) (x ∷ xs) ys h e = is_once_lem cs xs ys (ground (arith, h)) (ap (drop 1) e)

-- The last seven bytes of seven zeros and those that came.
IsTail : Bytes → Bytes → Type 0
IsTail seen tail = (pre : Bytes) × ((no_tail ++ seen ≡ pre ++ tail) × (length tail ≡ 7))

shed :
    (n : ℕ) (seen pre : Bytes)
    → replicate n 0 ++ seen ≡ pre ++ prompt
    → (zs : Bytes) × (seen ≡ zs ++ prompt)
shed zero seen pre e = (pre, e)
shed (suc n) seen [] e = absurd (omega (arith, ap (λ (l : Bytes). get_or l 0 0) e))
shed (suc n) seen (x ∷ pre) e = shed n seen pre (ap (drop 1) e)

same_suffix : (xs ys vs ws : Bytes) → xs ++ vs ≡ ys ++ ws → length vs ≡ length ws → vs ≡ ws
same_suffix [] [] vs ws e l = e
same_suffix [] (y ∷ ys) vs ws e l = absurd (omega (arith, ap length e, length-append (y ∷ ys) ws))
same_suffix (x ∷ xs) [] vs ws e l = absurd (omega (arith, ap length e, length-append (x ∷ xs) vs))
same_suffix (x ∷ xs) (y ∷ ys) vs ws e l = same_suffix xs ys vs ws (ap (drop 1) e) l

-- The bytes that leave the front of the tail, and the others.
kept_order :
    (k j : ℕ) (tail buf : Bytes)
    → (j ≡ 0) ⊎ (drop k tail ≡ [])
    → (take k tail ++ take j buf) ++ (drop k tail ++ drop j buf) ≡ tail ++ buf
kept_order k j tail buf (inl none_left) = rw (
  none_left,
  append-nil (take k tail),
  sym (append_assoc (take k tail) (drop k tail) buf),
  take-append-drop k tail,
)
kept_order k j tail buf (inr all_gone) =
    let same : take k tail ≡ tail =
      sym (append-nil (take k tail))
      ∙ ap (λ l. take k tail ++ l) (sym all_gone)
      ∙ take-append-drop k tail in
    rw (all_gone, same, append_assoc tail (take j buf) (drop j buf), take-append-drop j buf)

next_tail-IsTail :
    (seen tail buf : Bytes) → IsTail seen tail → IsTail (seen ++ buf) (next_tail tail buf)
unfolding IsTail next_tail
next_tail-IsTail seen tail buf (pre, (e, l)) =
    let k = min (length buf) 7 in
    let j = length buf - k in
    let front = take k tail ++ take j buf in
    let moved : (j ≡ 0) ⊎ (drop k tail ≡ []) = elim (Bool-cases (leb (length buf) 7)) [
      | inl short ↦ inl (ground arith)
      | inr long ↦ inr (none_of_length (drop k tail) (ground (arith, l, length-drop k tail)))
    ] in
    let order : front ++ next_tail tail buf ≡ tail ++ buf = kept_order k j tail buf moved in
    (
      pre ++ front,
      (
        sym (append_assoc no_tail seen buf)
            ∙ ap (λ l. l ++ buf) e
            ∙ append_assoc pre tail buf
            ∙ ap (λ l. pre ++ l) (sym order)
            ∙ sym (append_assoc pre front (next_tail tail buf)),
        omega (
          arith,
          l,
          length-append (drop k tail) (drop j buf),
          length-drop k tail,
          length-drop j buf,
        ),
      ),
    )

-- The tail is the prompt exactly where the prompt stands at the end of what came.
tail_prompt :
    (seen tail : Bytes)
    → IsTail seen tail
    → equal tail prompt ≡ true
    → (zs : Bytes) × (seen ≡ zs ++ prompt)
unfolding IsTail
tail_prompt seen tail (pre, (e, l)) h =
    shed 7 seen pre (e ∙ ap (λ t. pre ++ t) ((equal_iff tail prompt).0 h))

prompt_tail :
    (seen tail zs : Bytes) → IsTail seen tail → seen ≡ zs ++ prompt → equal tail prompt ≡ true
unfolding IsTail
prompt_tail seen tail zs (pre, (e, l)) h = (equal_iff tail prompt).1 (
    same_suffix pre (no_tail ++ zs) tail prompt
      (sym e ∙ ap (λ s. no_tail ++ s) h ∙ sym (append_assoc no_tail zs prompt)) l)

-- What the reply buffer holds after the pieces.
abbrev pub gathered : Bool → Bytes → List Bytes → Bytes
gathered keep reply [] = reply
gathered keep reply (piece ∷ pieces) = gathered keep (keep_reply keep reply piece) pieces

no_pieces :
    (pieces : List Bytes) → All (λ p. 0 < length p) pieces → joined pieces ≡ [] → pieces ≡ []
no_pieces [] h e = refl
no_pieces (piece ∷ pieces) (h, hs) e =
    absurd (omega (arith, h, ap length e, length-append piece (joined pieces)))

drain-found :
    (keep : Bool) (pieces : List Bytes) (more : List Arrival) (seen tail : Bytes) (n : ℕ)
    (reply s : Bytes)
    → All (λ p. 0 < length p) pieces
    → IsPrompted s
    → seen ++ joined pieces ≡ s
    → IsTail seen tail
    → equal tail prompt ≡ false
    → drain keep (arriving pieces more) tail n reply
      ≡ (prompted (n + length (joined pieces)), gathered keep reply pieces, more)
unfolding drain
drain-found keep [] more seen tail n reply s h r e t unseen =
    let yes = prompt_tail seen tail r.before t (sym (append-nil seen) ∙ e ∙ r.shape) in absurd (cc)
drain-found keep ([] ∷ pieces) more seen tail n reply s (h, hs) r e t unseen =
    absurd (omega (arith, h))
drain-found keep ((b ∷ bs) ∷ pieces) more seen tail n reply s (h, hs) r e t unseen =
    let t' = next_tail-IsTail seen tail (b ∷ bs) t in
    let e' : (seen ++ b ∷ bs) ++ joined pieces ≡ s =
      append_assoc seen (b ∷ bs) (joined pieces) ∙ e in
    elim (Bool-cases (equal (next_tail tail (b ∷ bs)) prompt)) [
      | inl found ↦
          let (zs, at_end) = tail_prompt (seen ++ b ∷ bs) (next_tail tail (b ∷ bs)) t' found in
          let last : pieces ≡ [] = no_pieces pieces hs (
            r.once zs (joined pieces) (
              sym e'
              ∙ ap (λ l. l ++ joined pieces) at_end
              ∙ append_assoc zs prompt (joined pieces))) in
          rw (found, last, append-nil bs)
      | inr not_yet ↦
          let count : n + length (b ∷ bs) + length (joined pieces)
              ≡ n + length ((b ∷ bs) ++ joined pieces) =
            omega (arith, length-append (b ∷ bs) (joined pieces)) in
          rw (not_yet, sym count)
            (drain-found keep pieces more (seen ++ b ∷ bs) (next_tail tail (b ∷ bs))
              (n + length (b ∷ bs)) (keep_reply keep reply (b ∷ bs)) s hs r e' t' not_yet)
    ]

-- From the start of a reply.
pub drain-reply :
    (keep : Bool) (pieces : List Bytes) (more : List Arrival)
    → All (λ p. 0 < length p) pieces
    → IsPrompted (joined pieces)
    → drain keep (arriving pieces more) no_tail 0 []
      ≡ (prompted (length (joined pieces)), gathered keep [] pieces, more)
unfolding IsTail equal
drain-reply keep pieces more h r =
    let count : 0 + length (joined pieces) ≡ length (joined pieces) = omega arith in
    rw (sym count) (
      drain-found keep pieces more [] no_tail 0 [] (joined pieces) h r refl ([], (refl, refl)) refl)

take_enough : (n : ℕ) (l : Bytes) → length l ≤ n → take n l ≡ l
take_enough zero [] h = refl
take_enough zero (x ∷ l) h = absurd (omega (arith, h))
take_enough (suc n) [] h = refl
take_enough (suc n) (x ∷ l) h = ap (◌∷◌ x) (take_enough n l (omega (arith, h)))

-- A reply for which there is room is kept whole.
pub gathered-all :
    (reply : Bytes) (pieces : List Bytes)
    → length reply + length (joined pieces) ≤ reply_max
    → gathered true reply pieces ≡ reply ++ joined pieces
unfolding keep_reply
gathered-all reply [] h = sym (append-nil reply)
gathered-all reply (piece ∷ pieces) h =
    let room : length piece ≤ reply_max - length reply =
      omega (arith, h, length-append piece (joined pieces)) in
    let fits : length (reply ++ piece) + length (joined pieces) ≤ reply_max =
      omega (arith, h, length-append piece (joined pieces), length-append reply piece) in
    rw (take_enough (reply_max - length reply) piece room)
      (gathered-all (reply ++ piece) pieces fits ∙ append_assoc reply piece (joined pieces))
