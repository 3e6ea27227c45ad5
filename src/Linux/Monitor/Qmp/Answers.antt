-- ===== src/Linux/Monitor/Qmp/Answers.antt =====
-- tools/linux/shinogi-monitor.c, `qmp_main`: the replies are picked out of what comes, line by line.
use shinogi.Base.{
  c_string, ℕ, zero, suc, ◌+◌, ◌≤◌, ◌<◌, ◌≡◌, ◌≢◌, refl, ap, sym, inl, inr, arith, Bool, true,
  false, ◌&&◌, ◌||◌, List, [], ◌∷◌, ◌++◌, map, append-nil, append_assoc, some, Bytes, length,
  length-append, All, equal, ltb, ◌==◌, if◌then◌else◌, Bool-cases,
}
use shinogi.Win.Network.Hook.{line_contains}
use shinogi.Linux.Monitor.Text.{Arrival}
use shinogi.Linux.Monitor.Text.Prompt.{joined, arriving}
use shinogi.Linux.Monitor.Qmp.{
  Single, byte, bytes_then, singles, read_line, qmp_line_room, return_key, error_key, Deed, wrote,
  paused, WriteAnswers, refused, answered, await_answer, qmp_send, ExitState, bare_success,
  send_all_json, capabilities, qmp_main,
}

-- A command, the events that come before its reply, and the reply.
pub record Exchange : Type 0 where
  pub json : Bytes
  pub events : List Bytes
  pub reply : Bytes

pub record IsLine (line : Bytes) : Type 0 where
  pub unbroken : All (λ c. c ≢ 10) line
  pub short : length line < qmp_line_room

-- Whether the line holds one of the two keys.
abbrev pub has_key : Bytes → Bool
has_key line = line_contains (c_string line) return_key || line_contains (c_string line) error_key

-- The events hold neither key and the reply holds one.
pub record IsExchange (x : Exchange) : Type 0 where
  pub event_lines : All IsLine x.events
  pub event_keys : All (λ line. has_key line ≡ false) x.events
  pub reply_line : IsLine x.reply
  pub reply_key : has_key x.reply ≡ true

abbrev pub said : List Bytes → Bytes
said [] = []
said (line ∷ lines) = line ++ 10 ∷ said lines

abbrev pub transcript : List Exchange → Bytes
transcript [] = []
transcript (x ∷ xs) = said x.events ++ (x.reply ++ 10 ∷ transcript xs)

-- What each exchange adds: a pause before all but the first where one is asked for, the command, and
-- its reply on standard output unless it is the bare success; the first error ends it.
unfoldable pub expected : ℕ → ℕ → List Exchange → Bytes → List Deed → ExitState
expected gap i [] out t = (0, out, t)
expected gap i (x ∷ xs) out t =
    let line = c_string x.reply in
    let t' = if ltb 0 i && ltb 0 gap then paused gap ∷ t else t in
    let t'' = wrote (10 ∷ []) ∷ wrote x.json ∷ t' in
    let rest =
      expected gap (i + 1) xs (if equal line bare_success then out else out ++ line ++ 10 ∷ [])
        t'' in
    if line_contains line error_key then (1, out, t'') else rest

read_line-line :
    (room : ℕ) (line text : Bytes) (more : List Single) (front : Bytes)
    → All (λ c. c ≢ 10) line
    → length line < room
    → read_line room (bytes_then (line ++ 10 ∷ text) more) front
      ≡ some (front ++ line, bytes_then text more)
unfolding read_line bytes_then
read_line-line zero line text more front h k = absurd (omega (arith, k))
read_line-line (suc room) [] text more front h k = rw (append-nil front) refl
read_line-line (suc room) (c ∷ line) text more front (h, hs) k =
    let other : (c == 10) ≡ false = ground (arith, h) in
    let rest = read_line-line room line text more (front ++ c ∷ []) hs (omega (arith, k)) in
    rw (other, rest) (rw (append_assoc front (c ∷ []) line) refl)

await_answer-reply :
    (n : ℕ) (events : List Bytes) (reply text : Bytes) (more : List Single)
    → length events < n
    → All IsLine events
    → All (λ line. has_key line ≡ false) events
    → IsLine reply
    → has_key reply ≡ true
    → await_answer n (bytes_then (said events ++ (reply ++ 10 ∷ text)) more) ≡ (
        if line_contains (c_string reply) error_key
        then refused (c_string reply)
        else answered (c_string reply) (bytes_then text more))
unfolding await_answer
await_answer-reply zero events reply text more h ls ks l k = absurd (omega (arith, h))
await_answer-reply (suc n) [] reply text more h ls ks l k =
    rw (read_line-line qmp_line_room reply text more [] l.unbroken l.short, await_answer)
      (rw k refl)
await_answer-reply (suc n) (event ∷ events) reply text more h (l', ls) (k', ks) l k =
    rw
      (
        append_assoc event (10 ∷ said events) (reply ++ 10 ∷ text),
        read_line-line qmp_line_room event (said events ++ (reply ++ 10 ∷ text)) more [] l'.unbroken
            l'.short,
        await_answer,
      )
      (rw k' (await_answer-reply n events reply text more (omega (arith, h)) ls ks l k))

length-bytes_then :
    (text : Bytes) (more : List Single) → length (bytes_then text more) ≡ length text + length more
unfolding bytes_then
length-bytes_then [] more = omega arith
length-bytes_then (c ∷ text) more = omega (arith, length-bytes_then text more)

length-said : (lines : List Bytes) → length lines ≤ length (said lines)
length-said [] = omega arith
length-said (line ∷ lines) = omega (arith, length-said lines, length-append line (10 ∷ said lines))

module _ (takes : WriteAnswers)
    (all_taken : (t : List Deed) (text : Bytes) → takes t text ≡ true) where
  qmp_send-reply :
      (x : Exchange) (text : Bytes) (more : List Single) (t : List Deed)
      → IsExchange x
      → qmp_send takes x.json (bytes_then (said x.events ++ (x.reply ++ 10 ∷ text)) more) t ≡ (
        (if line_contains (c_string x.reply) error_key
            then refused (c_string x.reply)
            else answered (c_string x.reply) (bytes_then text more)),
        wrote (10 ∷ []) ∷ wrote x.json ∷ t,
      )
  unfolding qmp_send
  qmp_send-reply x text more t e =
      let bs = bytes_then (said x.events ++ (x.reply ++ 10 ∷ text)) more in
      let rounds : length x.events < suc (length bs) = omega (
        arith,
        length-bytes_then (said x.events ++ (x.reply ++ 10 ∷ text)) more,
        length-append (said x.events) (x.reply ++ 10 ∷ text),
        length-said x.events,
      ) in
      rw
        (
          all_taken t x.json,
          all_taken (wrote x.json ∷ t) (10 ∷ []),
          await_answer-reply (suc (length bs)) x.events x.reply text more rounds e.event_lines
              e.event_keys e.reply_line e.reply_key,
        )
        refl

  send_all_json-expected :
      (gap i : ℕ) (xs : List Exchange) (more : List Single) (out : Bytes) (t : List Deed)
      → All IsExchange xs
      → send_all_json takes gap i (map (λ x. x.json) xs) (bytes_then (transcript xs) more) out t
        ≡ expected gap i xs out t
  unfolding send_all_json expected
  send_all_json-expected gap i [] more out t h = refl
  send_all_json-expected gap i (x ∷ xs) more out t (e, es) =
      let t' = if ltb 0 i && ltb 0 gap then paused gap ∷ t else t in
      let sent = qmp_send-reply x (transcript xs) more t' e in
      let result = ap (λ s. s.0) sent in
      let deeds = ap (λ s. s.1) sent in
      elim (Bool-cases (line_contains (c_string x.reply) error_key)) [
        | inl bad ↦ rw (result, send_all_json) (rw (bad, deeds) refl)
        | inr good ↦
            rw (result, send_all_json)
              (rw (good, deeds) (send_all_json-expected gap (i + 1) xs more _ _ es))
      ]

  -- What is to come of the greeting, of the capabilities and of the commands.
  pub qmp_main-expected :
      (gap : ℕ) (greeting : Bytes) (events : List Bytes) (reply : Bytes) (xs : List Exchange)
      (more : List Single)
      → IsLine greeting
      → IsExchange (record { json = capabilities; events = events; reply = reply })
      → line_contains (c_string reply) error_key ≡ false
      → All IsExchange xs
      → qmp_main takes
          (map (λ x. x.json) xs)
          gap
          (bytes_then (greeting ++ 10 ∷ (said events ++ (reply ++ 10 ∷ transcript xs))) more)
        ≡ expected gap 0 xs [] (wrote (10 ∷ []) ∷ wrote capabilities ∷ [])
  unfolding qmp_main
  qmp_main-expected gap greeting events reply xs more g e good es =
      let x : Exchange = record { json = capabilities; events = events; reply = reply } in
      let sent = qmp_send-reply x (transcript xs) more [] e in
      rw
        (
          read_line-line qmp_line_room greeting (said events ++ (reply ++ 10 ∷ transcript xs)) more
              [] g.unbroken g.short,
          qmp_main,
        )
        (rw (ap (λ s. s.0) sent)
          (rw (good, ap (λ s. s.1) sent) (send_all_json-expected gap 0 xs more [] _ es)))

bytes_then-append :
    (xs ys : Bytes) (more : List Single)
    → bytes_then (xs ++ ys) more ≡ bytes_then xs (bytes_then ys more)
unfolding bytes_then
bytes_then-append [] ys more = refl
bytes_then-append (c ∷ xs) ys more = ap (◌∷◌ (byte c)) (bytes_then-append xs ys more)

-- Bytes come one by one, however they are cut.
pub singles-arriving :
    (pieces : List Bytes) (more : List Arrival)
    → All (λ p. 0 < length p) pieces
    → singles (arriving pieces more) ≡ bytes_then (joined pieces) (singles more)
unfolding singles bytes_then
singles-arriving [] more h = refl
singles-arriving ([] ∷ pieces) more (h, hs) = absurd (omega (arith, h))
singles-arriving ((c ∷ cs) ∷ pieces) more (h, hs) =
    rw (singles-arriving pieces more hs)
      (ap (◌∷◌ (byte c)) (sym (bytes_then-append cs (joined pieces) (singles more))))
