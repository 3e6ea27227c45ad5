-- ===== src/Win/Network/Hook.antt =====
-- tools/win/network-config.c: `network_boot_hook`, which edits the guest's MINT.CNF.
pub mod Counted
pub mod Lines
pub mod Stable
use shinogi.Base.{
  ℕ, zero, suc, ◌+◌, ◌-◌, Bool, true, false, not, ◌&&◌, ◌||◌, List, [], ◌∷◌, ◌++◌, Option, none,
  some, Bytes, codes, equal, starts_with, length, ltb, leb, ◌==◌, if◌then◌else◌,
}
use shinogi.Base.Result.{Result, ok, err, ◌>>=◌}

-- `SHINOGI_NETWORK_HOOK`
abbrev pub network_hook : Bytes
network_hook = codes "exec u:/bin/bash u:/c/mint/1-19-cur/shnnet.sh"

abbrev pub ifconfig_line : Bytes
ifconfig_line = codes "exec u:/bin/ifconfig eth0 addr 10.0.2.15 netmask 255.255.255.0 up"

abbrev pub route_line : Bytes
route_line = codes "exec u:/bin/route add default eth0 gw 10.0.2.2"

-- Whether the line ends in a carriage return, and the line without it.
unfoldable pub ends_cr : Bytes → Bool
ends_cr [] = false
ends_cr (c ∷ []) = c == b'\r'
ends_cr (c ∷ d ∷ cs) = ends_cr (d ∷ cs)

unfoldable pub without_cr : Bytes → Bytes
without_cr [] = []
without_cr (c ∷ []) = if c == b'\r' then [] else c ∷ []
without_cr (c ∷ d ∷ cs) = c ∷ without_cr (d ∷ cs)

unfoldable pub line_equal : Bytes → Bytes → Bool
line_equal line expected = equal (without_cr line) expected

unfoldable pub line_contains : Bytes → Bytes → Bool
line_contains [] word = length word == 0
line_contains (c ∷ cs) word = starts_with (c ∷ cs) word || line_contains cs word

-- `isspace` in the C locale.
abbrev pub is_space : ℕ → Bool
is_space c = c == b' ' || leb 9 c && leb c 13

-- The loop over `start`, and the test that the first other byte is there and no `#`.
unfoldable pub is_active : Bytes → Bool
is_active [] = false
is_active (c ∷ cs) = let rest = is_active cs in if is_space c then rest else not (c == b'#')

-- A command of the user's that sets up the network.
unfoldable pub is_custom : Bytes → Bool
is_custom line =
    is_active line
    && (line_contains line (codes "ifconfig") && line_contains line (codes "eth0")
        || line_contains line (codes "route") && line_contains line (codes "default"))

-- A line, and whether a newline ends it.
pub record Line : Type 0 where
  pub text : Bytes
  pub newline : Bool

-- The pieces that the loop over `line` takes off; the bytes before the next newline are in `text`.
unfoldable pub lines_of : Bytes → Bytes → List Line
lines_of [] [] = []
lines_of (c ∷ text) [] = record { text = c ∷ text; newline = false } ∷ []
lines_of text (c ∷ input) = elim (c == b'\n') [
  | true ↦ record { text = text; newline = true } ∷ lines_of [] input
  | false ↦ lines_of (text ++ c ∷ []) input
]

abbrev pub bytes_of_line : Line → Bytes
bytes_of_line l = l.text ++ (if l.newline then b'\n' ∷ [] else [])

-- What stands for the command that configured the interface.
abbrev pub hook_bytes : Bytes → Bytes
hook_bytes text = network_hook ++ (if ends_cr text then b'\r' ∷ b'\n' ∷ [] else b'\n' ∷ [])

-- The two messages, and the want of memory.
pub data HookError : Type 0 where
  no_memory custom_setup custom_or_duplicate : HookError

pub record Editing : Type 0 where
  pub out : Bytes
  pub got_if : ℕ
  pub got_route : ℕ
  pub got_hook : ℕ

-- The body of the loop.
unfoldable pub edit_line : Line → Editing → Result HookError Editing
edit_line l s =
    if line_equal l.text ifconfig_line
    then ok (record s { out = s.out ++ hook_bytes l.text; got_if = s.got_if + 1 })
    else if line_equal l.text route_line
    then ok (record s { got_route = s.got_route + 1 })
    else if line_equal l.text network_hook
    then ok (record s { out = s.out ++ bytes_of_line l; got_hook = s.got_hook + 1 })
    else if is_custom l.text
    then err custom_setup
    else ok (record s { out = s.out ++ bytes_of_line l })

unfoldable pub edit_lines : List Line → Editing → Result HookError Editing
edit_lines [] s = ok s
edit_lines (l ∷ ls) s = do s' ← edit_line l s; edit_lines ls s'

-- The test behind the loop.
unfoldable pub is_complete : Editing → Bool
is_complete s =
    s.got_if == 1 && s.got_route == 1 && s.got_hook == 0
    || s.got_if == 0 && s.got_route == 0 && s.got_hook == 1

-- `granted` is whether `malloc` has the memory.
unfoldable pub network_boot_hook : Bool → Bytes → Result HookError Bytes
network_boot_hook granted input =
    if not granted
    then err no_memory
    else elim (edit_lines (lines_of [] input)
        (record { out = []; got_if = 0; got_route = 0; got_hook = 0 })) [
          | err e ↦ err e
          | ok s ↦ if is_complete s then ok s.out else err custom_or_duplicate
        ]
