-- ===== src/Linux/Monitor.antt =====
-- tools/linux/shinogi-monitor.c: one command to a running guest's control sockets.
pub mod Text
pub mod Qmp
pub mod Replied
pub mod Sequence
use shinogi.Base.{
  ℕ, zero, suc, ◌+◌, ◌%◌, ◌^◌, Bool, true, false, not, ◌&&◌, List, [], ◌∷◌, ◌++◌, Option, none,
  some, Bytes, codes, length, equal, ltb, leb, ◌==◌, if◌then◌else◌,
}
use shinogi.Base.Int.{pos_part, int_limit}
use shinogi.Linux.Shot.Crop.{atoi}
use shinogi.Linux.Monitor.Text.{
  Arrival, Drained, ended, failed, prompted, no_tail, drain, print_reply,
}
use shinogi.Linux.Monitor.Qmp.{WriteAnswers, Deed, wrote, ExitState, singles, qmp_main}

-- What is at the other end: whether a socket's path can be reached, which writes it takes whole, and
-- what comes from it.
pub record Socket : Type 0 where
  pub reaches : Bytes → Bool
  pub takes : WriteAnswers
  pub incoming : List Arrival

-- `connect_unix`; `sun_path` has 108 bytes.
unfoldable pub connect_unix : Socket → Bytes → Bool
connect_unix p path = not (leb 108 (length path)) && p.reaches path

-- The loop that joins the arguments in a buffer of 4096 bytes.
unfoldable pub join_args : List Bytes → Bytes → Option Bytes
join_args [] cmd = some cmd
join_args (arg ∷ args) cmd =
    if leb 4096 (length cmd + length arg + 2)
    then none
    else join_args args ((if length cmd == 0 then [] else cmd ++ 32 ∷ []) ++ arg)

-- Whether the `int` that `drain` returns is negative.
unfoldable pub is_failure : Drained → Bool
is_failure ended = false
is_failure failed = true
is_failure (prompted seen) = leb int_limit (seen % 2 ^ 32)

-- `main` from the socket on, with the command and its newline.
unfoldable pub talk : Socket → Bytes → Bytes → ExitState
talk p path cmd =
    if not (connect_unix p path)
    then (1, [], [])
    else let banner = drain false p.incoming no_tail 0 [] in
      if not (p.takes [] cmd)
      then (1, [], [])
      else let answer = drain true banner.2 no_tail 0 [] in
        if is_failure answer.0
        then (1, [], wrote cmd ∷ [])
        else (0, print_reply answer.1, wrote cmd ∷ [])

unfoldable pub qmp : Socket → Bytes → List Bytes → ℕ → ExitState
qmp p path jsons gap =
    if connect_unix p path then qmp_main p.takes jsons gap (singles p.incoming) else (1, [], [])

-- `main`, of the arguments behind the program's name.
unfoldable pub monitor_text : Socket → List Bytes → ExitState
monitor_text p (path ∷ arg ∷ args) = elim (join_args (arg ∷ args) []) [
  | none ↦ (2, [], [])
  | some cmd ↦ talk p path (cmd ++ 10 ∷ [])
]
monitor_text p _ = (2, [], [])

unfoldable pub monitor : Socket → List Bytes → ExitState
monitor p (option ∷ path ∷ json ∷ jsons) =
    if equal option (codes "--qmp")
    then qmp p path (json ∷ jsons) 0
    else if equal option (codes "--qmp-seq") && not (length jsons == 0)
    then qmp p path jsons (pos_part (atoi json))
    else monitor_text p (option ∷ path ∷ json ∷ jsons)
monitor p args = monitor_text p args
