-- ===== src/Hostfsd/Session/Receive.antt =====
-- `recv_exact` depends on the bytes that come in, and not on how they are cut into pieces.
use shinogi.Base.{
  ℕ, zero, suc, ◌+◌, ◌-◌, ◌≤◌, ◌<◌, min, Bool, true, false, ◌&&◌, List, [], ◌∷◌, ◌++◌, Option, some,
  ◌≡◌, refl, sym, ap, ◌∙◌, arith, Bytes, length, length-append, length-take, length-drop, take,
  drop, append-nil, append_assoc, ltb, ◌==◌, if◌then◌else◌,
}
use shinogi.Hostfsd.Session.{
  Event, arrive, broken, Received, whole, at_end, cut_off, leftover, conn_recv, recv_loop,
  recv_exact,
}

-- All that comes in before the end.
unfoldable pub bytes_of : List Event → Bytes
bytes_of [] = []
bytes_of (broken ∷ es) = []
bytes_of (arrive c cs ∷ es) = c ∷ (cs ++ bytes_of es)

-- Whether the end is a close, and not a failure.
unfoldable pub is_clean : List Event → Bool
is_clean [] = true
is_clean (broken ∷ es) = false
is_clean (arrive c cs ∷ es) = is_clean es

module _ {ℓ} {A : Type ℓ} where
  take_rest :
      (m : ℕ) (xs ys : List A)
      → take m (xs ++ ys) ≡ take m xs ++ take (m - length (take m xs)) (drop m xs ++ ys)
  take_rest zero xs ys = refl
  take_rest (suc m) [] ys = let e : suc m - 0 ≡ suc m = omega arith in rw e
  take_rest (suc m) (x ∷ xs) ys =
      let e : suc m - suc (length (take m xs)) ≡ m - length (take m xs) = omega arith in
      rw e (ap (◌∷◌ x) (take_rest m xs ys))

  drop_rest :
      (m : ℕ) (xs ys : List A) → drop m (xs ++ ys) ≡ drop (m - length (take m xs)) (drop m xs ++ ys)
  drop_rest zero xs ys = refl
  drop_rest (suc m) [] ys = let e : suc m - 0 ≡ suc m = omega arith in rw e
  drop_rest (suc m) (x ∷ xs) ys =
      let e : suc m - suc (length (take m xs)) ≡ m - length (take m xs) = omega arith in
      rw e (drop_rest m xs ys)

bytes_of-leftover : (cs : Bytes) (es : List Event) → bytes_of (leftover cs es) ≡ cs ++ bytes_of es
unfolding bytes_of leftover
bytes_of-leftover [] es = refl
bytes_of-leftover (c ∷ cs) es = refl

is_clean-leftover : (cs : Bytes) (es : List Event) → is_clean (leftover cs es) ≡ is_clean es
unfolding is_clean leftover
is_clean-leftover [] es = refl
is_clean-leftover (c ∷ cs) es = refl

-- `n` bytes are there: they are taken, and the rest is left.
record Takes (bytes : Bytes) (rest : Bytes) (clean : Bool) (r : Option Received) : Type 0 where
  events : List Event
  is_whole : r ≡ some (whole bytes events)
  rest_is : bytes_of events ≡ rest
  clean_is : is_clean events ≡ clean

-- A round that brings a piece.
recv_loop_step :
    (fuel m : ℕ) (acc : Bytes) (c : ℕ) (cs : Bytes) (es : List Event)
    → recv_loop (suc fuel) acc (length acc + suc m) (arrive c cs ∷ es)
      ≡ recv_loop fuel
          (acc ++ take (suc m) (c ∷ cs))
          (length acc + suc m)
          (leftover (drop (suc m) (c ∷ cs)) es)
unfolding recv_loop conn_recv
recv_loop_step fuel m acc c cs es =
    let more : ltb (length acc) (length acc + suc m) ≡ true = ground arith in
    let left : length acc + suc m - length acc ≡ suc m = omega arith in
    rw (more, left, recv_loop) refl

recv_loop-Takes :
    (fuel m : ℕ) (acc : Bytes) (es : List Event)
    → m ≤ fuel
    → m ≤ length (bytes_of es)
    → Takes
        (acc ++ take m (bytes_of es))
        (drop m (bytes_of es))
        (is_clean es)
        (recv_loop fuel acc (length acc + m) es)
unfolding recv_loop bytes_of is_clean conn_recv
recv_loop-Takes zero zero acc es f h = record {
  events = es;
  is_whole = ground (arith, append-nil acc);
  rest_is = refl;
  clean_is = refl;
}
recv_loop-Takes zero (suc m) acc es f h = absurd (omega arith)
recv_loop-Takes (suc fuel) zero acc es f h = record {
  events = es;
  is_whole = ground (arith, append-nil acc);
  rest_is = refl;
  clean_is = refl;
}
recv_loop-Takes (suc fuel) (suc m) acc [] f h = absurd (omega arith)
recv_loop-Takes (suc fuel) (suc m) acc (broken ∷ es) f h = absurd (omega arith)
recv_loop-Takes (suc fuel) (suc m) acc (arrive c cs ∷ es) f h =
    let chunk = c ∷ cs in
    let b = take (suc m) chunk in
    let es' = leftover (drop (suc m) chunk) es in
    let k = suc m - length b in
    let size : length b ≡ min (suc m) (length chunk) = length-take (suc m) chunk in
    let rest = bytes_of-leftover (drop (suc m) chunk) es in
    let total : length acc + suc m ≡ length (acc ++ b) + k =
      omega (arith, length-append {0} acc b) in
    let t = recv_loop-Takes fuel k (acc ++ b) es' (omega arith) (
      omega (
        arith,
        ap (length {0}) rest,
        length-append {0} (drop (suc m) chunk) (bytes_of es),
        length-drop {0} (suc m) chunk,
        length-append {0} cs (bytes_of es),
      )) in
    record {
      events = t.events;
      is_whole =
          recv_loop_step fuel m acc c cs es
          ∙ ap (λ n. recv_loop fuel (acc ++ b) n es') total
          ∙ t.is_whole
          ∙ ap (λ bytes. some (whole bytes t.events))
              (append_assoc acc b (take k (bytes_of es'))
                ∙ ap (λ r. acc ++ (b ++ take k r)) rest
                ∙ ap (λ r. acc ++ r) (sym (take_rest (suc m) chunk (bytes_of es))));
      rest_is = t.rest_is ∙ ap (drop k) rest ∙ sym (drop_rest (suc m) chunk (bytes_of es));
      clean_is = t.clean_is ∙ is_clean-leftover (drop (suc m) chunk) es;
    }

-- Too few bytes are there.
recv_loop_short :
    (fuel m : ℕ) (acc : Bytes) (es : List Event)
    → m ≤ fuel
    → length (bytes_of es) < m
    → recv_loop fuel acc (length acc + m) es
      ≡ some (if is_clean es && length acc + length (bytes_of es) == 0 then at_end else cut_off)
unfolding bytes_of is_clean
recv_loop_short fuel zero acc es f h = absurd (omega arith)
recv_loop_short zero (suc m) acc es f h = absurd (omega arith)
recv_loop_short (suc fuel) (suc m) acc [] f h =
    let more : ltb (length acc) (length acc + suc m) ≡ true = ground arith in
    unfold recv_loop conn_recv in rw (more, recv_loop) (ground arith)
recv_loop_short (suc fuel) (suc m) acc (broken ∷ es) f h =
    let more : ltb (length acc) (length acc + suc m) ≡ true = ground arith in
    unfold recv_loop conn_recv in rw (more, recv_loop) refl
recv_loop_short (suc fuel) (suc m) acc (arrive c cs ∷ es) f h =
    let chunk = c ∷ cs in
    let b = take (suc m) chunk in
    let es' = leftover (drop (suc m) chunk) es in
    let k = suc m - length b in
    let size : length b ≡ min (suc m) (length chunk) = length-take (suc m) chunk in
    let rest = bytes_of-leftover (drop (suc m) chunk) es in
    let sizes : (length (bytes_of es') ≡ length chunk - suc m + length (bytes_of es))
        × (length (cs ++ bytes_of es) ≡ length cs + length (bytes_of es))
        × (length (acc ++ b) ≡ length acc + length b) =
      (
        omega (
          arith,
          ap (length {0}) rest,
          length-append {0} (drop (suc m) chunk) (bytes_of es),
          length-drop {0} (suc m) chunk,
        ),
        length-append cs (bytes_of es),
        length-append acc b,
      ) in
    let total : length acc + suc m ≡ length (acc ++ b) + k = omega arith in
    let ih = recv_loop_short fuel k (acc ++ b) es' (omega arith) (omega arith) in
    let clean = is_clean-leftover (drop (suc m) chunk) es in
    recv_loop_step fuel m acc c cs es
    ∙ ap (λ n. recv_loop fuel (acc ++ b) n es') total
    ∙ ih
    ∙ ground arith

-- Where at least `n` bytes come in before the end, `recv_exact` returns the first `n` and leaves
-- the rest, and where fewer do, it reports a close if there is not one and no failure, and an
-- error otherwise: both depend on the bytes, and not on how they are cut into pieces.
pub recv_exact_lem :
    (n : ℕ) (es : List Event)
    → (n ≤ length (bytes_of es)
        → (es' : List Event) × (recv_exact n es ≡ some (whole (take n (bytes_of es)) es'))
          × (bytes_of es' ≡ drop n (bytes_of es))
          × (is_clean es' ≡ is_clean es))
      × (length (bytes_of es) < n
          → recv_exact n es
            ≡ some (if is_clean es && length (bytes_of es) == 0 then at_end else cut_off))
recv_exact_lem n es =
    let z : 0 + n ≡ n = omega arith in
    let y : 0 + length (bytes_of es) ≡ length (bytes_of es) = omega arith in
    (
      λ h.
          let t = recv_loop-Takes n n [] es (omega arith) h in
          (t.events, rw z at t.is_whole, t.rest_is, t.clean_is),
      λ h. rw (z, y) at (recv_loop_short n n [] es (omega arith) h),
    )
