-- ===== src/Linux/Monitor/Qmp.antt =====
-- tools/linux/shinogi-monitor.c: one line of JSON and its reply, over QMP.
pub mod Answers
pub mod Enough
use shinogi.Base.{
  c_string, ℕ, zero, suc, ◌+◌, Bool, true, false, not, ◌&&◌, ◌||◌, List, [], ◌∷◌, ◌++◌, Option,
  none, some, Bytes, codes, length, equal, ltb, ◌==◌, if◌then◌else◌,
}
use shinogi.Win.Network.Hook.{line_contains}
use shinogi.Linux.Monitor.Text.{Arrival, got, idle, hung_up, broken}

-- What reads of one byte each give: a byte, or no byte.
pub data Single : Type 0 where
  byte : ℕ → Single
  nothing : Single

unfoldable pub bytes_then : Bytes → List Single → List Single
bytes_then [] rest = rest
bytes_then (c ∷ cs) rest = byte c ∷ bytes_then cs rest

unfoldable pub singles : List Arrival → List Single
singles [] = []
singles (got [] ∷ more) = nothing ∷ singles more
singles (got (c ∷ cs) ∷ more) = bytes_then (c ∷ cs) (singles more)
singles (idle ∷ more) = nothing ∷ singles more
singles (hung_up ∷ more) = nothing ∷ singles more
singles (broken ∷ more) = nothing ∷ singles more

-- `read_line` with room for so many bytes besides the NUL, behind those of the line so far.
unfoldable pub read_line : ℕ → List Single → Bytes → Option (Bytes × List Single)
read_line zero bs line = none
read_line (suc room) [] line = none
read_line (suc room) (nothing ∷ bs) line = none
read_line (suc room) (byte c ∷ bs) line =
    let rest = read_line room bs (line ++ c ∷ []) in if c == 10 then some (line, bs) else rest

abbrev pub qmp_line_room : ℕ
qmp_line_room = 8191

abbrev pub return_key : Bytes
return_key = codes "\"return\""

abbrev pub error_key : Bytes
error_key = codes "\"error\""

-- What the machine does: it takes a write whole or not, by what was done before.
pub data Deed : Type 0 where
  wrote : Bytes → Deed
  paused : ℕ → Deed

abbrev pub WriteAnswers : Type 0
WriteAnswers = List Deed → Bytes → Bool

-- -1, 1 and 0 of `qmp_send`, with the line in the buffer and what is still to come.
pub data Sent : Type 0 where
  lost : Sent
  refused : Bytes → Sent
  answered : Bytes → List Single → Sent

-- The loop of `qmp_send`, on a round for each byte to come and one more.
unfoldable pub await_answer : ℕ → List Single → Sent
await_answer zero bs = lost
await_answer (suc n) bs = elim (read_line qmp_line_room bs []) [
  | none ↦ lost
  | some (text, bs') ↦
      let line = c_string text in
      if line_contains line return_key || line_contains line error_key
      then (if line_contains line error_key then refused line else answered line bs')
      else await_answer n bs'
]

unfoldable pub qmp_send : WriteAnswers → Bytes → List Single → List Deed → Sent × List Deed
qmp_send takes json bs t =
    if not (takes t json) || not (takes (wrote json ∷ t) (10 ∷ []))
    then (lost, t)
    else (await_answer (suc (length bs)) bs, wrote (10 ∷ []) ∷ wrote json ∷ t)

-- The exit status, what was printed, and what was done, the last first.
abbrev pub ExitState : Type 0
ExitState = ℕ × Bytes × List Deed

abbrev pub bare_success : Bytes
bare_success = codes "{\"return\": {}}"

-- The loop over the commands from the `i`th on; `gap` is what `atoi` gave, or 0 where it is negative.
unfoldable pub send_all_json :
    WriteAnswers → ℕ → ℕ → List Bytes → List Single → Bytes → List Deed → ExitState
send_all_json takes gap i [] bs out t = (0, out, t)
send_all_json takes gap i (json ∷ jsons) bs out t =
    let t' = if ltb 0 i && ltb 0 gap then paused gap ∷ t else t in
    let sent = qmp_send takes json bs t' in
    elim (sent.0) [
      | lost ↦ (1, out, sent.1)
      | refused line ↦ (1, out, sent.1)
      | answered line bs' ↦
          send_all_json takes gap (i + 1) jsons bs'
            (if equal line bare_success then out else out ++ line ++ 10 ∷ []) sent.1
    ]

abbrev pub capabilities : Bytes
capabilities = codes "{\"execute\":\"qmp_capabilities\"}"

-- `qmp_main` behind `connect_unix`.
unfoldable pub qmp_main : WriteAnswers → List Bytes → ℕ → List Single → ExitState
qmp_main takes jsons gap bs = elim (read_line qmp_line_room bs []) [
  | none ↦ (1, [], [])
  | some (greeting, bs') ↦
      let sent = qmp_send takes capabilities bs' [] in
      elim (sent.0) [
        | lost ↦ (1, [], sent.1)
        | refused line ↦ (1, [], sent.1)
        | answered line bs'' ↦ send_all_json takes gap 0 jsons bs'' [] sent.1
      ]
]
