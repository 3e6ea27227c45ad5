-- ===== src/Linux/Monitor/Replied.antt =====
-- tools/linux/shinogi-monitor.c: what the program prints of the human monitor's answer.
use shinogi.Base.{
  ◌<◌, ◌%◌, ◌^◌, ◌≡◌, ◌≢◌, refl, ap, ◌∙◌, subst, arith, true, false, List, [], ◌∷◌, ◌++◌, some,
  Bytes, codes, length, All, equal, leb,
}
use shinogi.Base.Int.{int_limit}
use shinogi.Linux.Monitor.Text.{Arrival, prompt, reply_max, print_reply}
use shinogi.Linux.Monitor.Text.Prompt.{
  joined, arriving, gathered, IsPrompted, drain-reply, gathered-all,
}
use shinogi.Linux.Monitor.Text.Printed.{IsTrimmed, IsLineEnd, answer_line, print_reply-answer}
use shinogi.Linux.Monitor.Qmp.{wrote}
use shinogi.Linux.Monitor.{Socket, connect_unix, join_args, is_failure, talk, monitor_text, monitor}

-- The other end gives its banner up to the first prompt, and, in any pieces, the echo of the command,
-- a newline, the answer, line ends and the prompt again.
pub record IsAnswering (p : Socket) (answer : Bytes) : Type 0 where
  pub banner : List Bytes
  pub pieces : List Bytes
  pub more : List Arrival
  pub echo : Bytes
  pub ends : Bytes
  pub arrivals : p.incoming ≡ arriving banner (arriving pieces more)
  pub banner_pieces : All (λ b. 0 < length b) banner
  pub reply_pieces : All (λ b. 0 < length b) pieces
  pub reply : joined pieces ≡ echo ++ 10 ∷ ((answer ++ ends) ++ prompt)
  pub banner_prompt : IsPrompted (joined banner)
  pub reply_prompt : IsPrompted (joined pieces)
  pub one_line : All (λ c. c ≢ 10) echo
  pub line_ends : All IsLineEnd ends

monitor-text :
    (p : Socket) (path arg : Bytes) (args : List Bytes)
    → equal path (codes "--qmp") ≡ false
    → equal path (codes "--qmp-seq") ≡ false
    → monitor p (path ∷ arg ∷ args) ≡ monitor_text p (path ∷ arg ∷ args)
unfolding monitor
monitor-text p path arg [] h k = refl
monitor-text p path arg (a ∷ args) h k = rw (h, k) refl

talk-answer :
    (p : Socket) (path cmd answer : Bytes)
    → connect_unix p path ≡ true
    → p.takes [] cmd ≡ true
    → IsTrimmed answer
    → (a : IsAnswering p answer) → length (joined a.pieces) < reply_max
    → talk p path cmd ≡ (0, answer_line answer, wrote cmd ∷ [])
unfolding talk is_failure
talk-answer p path cmd answer there taken trimmed a room =
    let banner =
      drain-reply false a.banner (arriving a.pieces a.more) a.banner_pieces a.banner_prompt in
    let reply = drain-reply true a.pieces a.more a.reply_pieces a.reply_prompt in
    let kept : gathered true [] a.pieces ≡ joined a.pieces =
      gathered-all [] a.pieces (omega (arith, room)) in
    let small : leb int_limit (length (joined a.pieces) % 2 ^ 32) ≡ false = ground (arith, room) in
    let printed : print_reply (joined a.pieces) ≡ answer_line answer =
      ap print_reply a.reply
      ∙ print_reply-answer a.echo answer a.ends a.one_line trimmed a.line_ends
          (subst IsPrompted a.reply a.reply_prompt)
          (subst (λ l. length l < reply_max) a.reply room) in
    rw (there, a.arrivals) (rw (banner, taken) (rw (reply, small, kept, printed) refl))

-- Where the socket can be reached and the command fits its buffer and is taken, and the other end
-- answers it, in whatever pieces, in less than a megabyte: the program writes the command once,
-- prints the answer and nothing of banner, echo or prompt, and ends with 0.
pub monitor-answer :
    (p : Socket) (path arg cmd answer : Bytes) (args : List Bytes)
    → equal path (codes "--qmp") ≡ false
    → equal path (codes "--qmp-seq") ≡ false
    → connect_unix p path ≡ true
    → join_args (arg ∷ args) [] ≡ some cmd
    → p.takes [] (cmd ++ 10 ∷ []) ≡ true
    → IsTrimmed answer
    → (a : IsAnswering p answer) → length (joined a.pieces) < reply_max
    → monitor p (path ∷ arg ∷ args) ≡ (0, answer_line answer, wrote (cmd ++ 10 ∷ []) ∷ [])
unfolding monitor_text
monitor-answer p path arg cmd answer args h k there fits taken trimmed a room =
    rw (monitor-text p path arg args h k) (
      rw (fits, monitor_text)
        (talk-answer p path (cmd ++ 10 ∷ []) answer there taken trimmed a room))
