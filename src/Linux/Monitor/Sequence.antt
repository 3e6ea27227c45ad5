-- ===== src/Linux/Monitor/Sequence.antt =====
-- tools/linux/shinogi-monitor.c: a paced sequence of commands over QMP, from the arguments on.
use shinogi.Base.{
  c_string, ℕ, ◌<◌, ◌≡◌, arith, true, false, List, [], ◌∷◌, ◌++◌, map, Bytes, codes, length, All,
  equal, ◌==◌,
}
use shinogi.Base.Int.{pos_part}
use shinogi.Linux.Shot.Crop.{atoi}
use shinogi.Linux.Monitor.Text.{Arrival}
use shinogi.Linux.Monitor.Text.Prompt.{joined, arriving}
use shinogi.Win.Network.Hook.{line_contains}
use shinogi.Linux.Monitor.Qmp.{Deed, wrote, error_key, capabilities}
use shinogi.Linux.Monitor.Qmp.Answers.{
  Exchange, IsExchange, IsLine, said, transcript, expected, qmp_main-expected, singles-arriving,
}
use shinogi.Linux.Monitor.{Socket, connect_unix, qmp, monitor}

-- The other end gives, in any pieces, a greeting, the reply to the handshake, and for each command
-- its reply, with events before any of these replies.
pub record IsTalking (p : Socket) (xs : List Exchange) : Type 0 where
  pub pieces : List Bytes
  pub more : List Arrival
  pub greeting : Bytes
  pub events : List Bytes
  pub reply : Bytes
  pub arrivals : p.incoming ≡ arriving pieces more
  pub whole_pieces : All (λ b. 0 < length b) pieces
  pub text : joined pieces ≡ greeting ++ 10 ∷ (said events ++ (reply ++ 10 ∷ transcript xs))
  pub greeting_line : IsLine greeting
  pub handshake : IsExchange (record { json = capabilities; events = events; reply = reply })
  pub accepted : line_contains (c_string reply) error_key ≡ false
  pub exchanges : All IsExchange xs

qmp-expected :
    (p : Socket) (path : Bytes) (gap : ℕ) (xs : List Exchange)
    → connect_unix p path ≡ true
    → ((t : List Deed) (text : Bytes) → p.takes t text ≡ true)
    → IsTalking p xs
    → qmp p path (map (λ x. x.json) xs) gap
      ≡ expected gap 0 xs [] (wrote (10 ∷ []) ∷ wrote capabilities ∷ [])
unfolding qmp
qmp-expected p path gap xs there taken k =
    rw (there, k.arrivals, singles-arriving k.pieces k.more k.whole_pieces, k.text)
      (qmp_main-expected p.takes taken gap k.greeting k.events k.reply xs _ k.greeting_line
        k.handshake k.accepted k.exchanges)

-- Where the socket can be reached and every write is taken, and the other end talks QMP in whatever
-- pieces: `--qmp-seq` negotiates, sends the commands in order with the pauses between them, prints
-- each reply but the bare success, skips the events, and stops with 1 at the first error.
pub monitor-expected :
    (p : Socket) (path gap : Bytes) (x : Exchange) (xs : List Exchange)
    → connect_unix p path ≡ true
    → ((t : List Deed) (text : Bytes) → p.takes t text ≡ true)
    → IsTalking p (x ∷ xs)
    → monitor p (codes "--qmp-seq" ∷ path ∷ gap ∷ map (λ x. x.json) (x ∷ xs))
      ≡ expected (pos_part (atoi gap)) 0 (x ∷ xs) [] (wrote (10 ∷ []) ∷ wrote capabilities ∷ [])
unfolding monitor equal
monitor-expected p path gap x xs there taken k =
    let some_left : (length (map (λ (x : Exchange). x.json) (x ∷ xs)) == 0) ≡ false =
      ground arith in
    rw some_left (qmp-expected p path (pos_part (atoi gap)) (x ∷ xs) there taken k)
