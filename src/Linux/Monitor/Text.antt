-- ===== src/Linux/Monitor/Text.antt =====
-- tools/linux/shinogi-monitor.c: the reply of the human monitor, read up to its prompt.
pub mod Printed
pub mod Prompt
use shinogi.Base.{
  ℕ, zero, suc, ◌+◌, ◌-◌, ◌^◌, min, Bool, true, false, not, ◌&&◌, ◌||◌, List, [], ◌∷◌, ◌++◌, Option,
  none, some, Bytes, codes, length, take, drop, replicate, equal, ltb, leb, ◌==◌, if◌then◌else◌,
}

-- What `select` and the `read` behind it give: what came, no more than the buffer of 4096 bytes
-- holds, or nothing within the timeout, or the end, or an error.
pub data Arrival : Type 0 where
  got : Bytes → Arrival
  idle : Arrival
  hung_up : Arrival
  broken : Arrival

pub data Drained : Type 0 where
  ended : Drained
  failed : Drained
  prompted : ℕ → Drained

abbrev pub prompt : Bytes
prompt = codes "(qemu) "

abbrev pub reply_max : ℕ
reply_max = 2 ^ 20

abbrev pub no_tail : Bytes
no_tail = replicate 7 0

-- The last seven bytes, with a piece behind them.
unfoldable pub next_tail : Bytes → Bytes → Bytes
next_tail tail buf = let keep = min (length buf) 7 in drop keep tail ++ drop (length buf - keep) buf

unfoldable pub keep_reply : Bool → Bytes → Bytes → Bytes
keep_reply keep reply buf = if keep then reply ++ take (reply_max - length reply) buf else reply

-- `drain` where it wants the prompt: how it ends, the reply, and what is still to come. `strstr` finds
-- the seven bytes of the prompt in the seven of the tail only where they are equal.
unfoldable pub drain : Bool → List Arrival → Bytes → ℕ → Bytes → Drained × Bytes × List Arrival
drain keep [] tail seen reply = (ended, reply, [])
drain keep (idle ∷ more) tail seen reply = (ended, reply, more)
drain keep (hung_up ∷ more) tail seen reply = (ended, reply, more)
drain keep (broken ∷ more) tail seen reply = (failed, reply, more)
drain keep (got [] ∷ more) tail seen reply = (ended, reply, more)
drain keep (got (b ∷ bs) ∷ more) tail seen reply =
    let tail' = next_tail tail (b ∷ bs) in
    let seen' = seen + length (b ∷ bs) in
    let reply' = keep_reply keep reply (b ∷ bs) in
    let rest = drain keep more tail' seen' reply' in
    if equal tail' prompt then (prompted seen', reply', more) else rest

unfoldable pub behind_newline : Bytes → Option Bytes
behind_newline [] = none
behind_newline (c ∷ cs) = if c == 10 then some cs else behind_newline cs

-- The loop on the prompts at the end, on one round for each byte.
unfoldable pub strip_prompts : ℕ → Bytes → Bytes
strip_prompts zero body = body
strip_prompts (suc n) body =
    let len = length body in
    let rest = strip_prompts n (take (len - 7) body) in
    if leb 7 len && equal (drop (len - 7) body) prompt then rest else body

unfoldable pub strip_newlines : Bytes → Bytes
strip_newlines [] = []
strip_newlines (c ∷ cs) =
    let rest = strip_newlines cs in
    if length rest == 0 && (c == 10 || c == 13) then [] else c ∷ rest

-- The buffer once it has its NUL, which takes the last byte of a full one.
unfoldable pub terminated : Bytes → Bytes
terminated reply =
    if ltb (length reply) reply_max then reply else take (reply_max - 1) reply ++ 0 ∷ []

unfoldable pub body_of : Bytes → Bytes
body_of reply = elim (behind_newline reply) [ none ↦ reply | some body ↦ body ]

unfoldable pub print_reply : Bytes → Bytes
print_reply reply =
    let body = body_of (terminated reply) in
    let out = strip_newlines (strip_prompts (length body) body) in
    if length out == 0 then [] else out ++ 10 ∷ []
