-- ===== src/Win/Network/Hook/Stable.antt =====
-- What `network_boot_hook` makes of its own result.
use shinogi.Base.{
  ℕ, ◌+◌, ◌≤◌, Bool, true, false, List, [], ◌∷◌, ◌++◌, ◌≡◌, ◌⊎◌, inl, inr, refl, sym, ap, ◌∙◌,
  arith, Bytes, equal, length, if◌then◌else◌, Bool-cases, append_assoc, append-nil,
}
use shinogi.Base.Result.{ok, err, Result-cases, ok-injective}
use shinogi.Win.Network.Hook.{
  Line, network_hook, ifconfig_line, route_line, ends_cr, without_cr, line_equal, lines_of,
  is_custom, bytes_of_line, hook_bytes, custom_setup, Editing, edit_line, edit_lines, is_complete,
  network_boot_hook,
}
use shinogi.Win.Network.Hook.Counted.{count_lines, edit_lines-counts}
use shinogi.Win.Network.Hook.Lines.{
  NoNewline, AreLines, join_lines, lines_of-join_lines, AreLines-lines_of,
}

-- The lines are kept as they are, and `n` of them are the hook.
abbrev Rerun : List Line → ℕ → Type 0
Rerun ls n =
    (t : Editing)
    → edit_lines ls t ≡ ok (record t { out = t.out ++ join_lines ls; got_hook = t.got_hook + n })

-- One line is kept, which is the hook `k` times.
abbrev Kept : Line → ℕ → Type 0
Kept l k =
    (t : Editing)
    → edit_line l t ≡ ok (record t { out = t.out ++ bytes_of_line l; got_hook = t.got_hook + k })

Rerun-cons : (l : Line) (ls : List Line) (k n : ℕ) → Kept l k → Rerun ls n → Rerun (l ∷ ls) (k + n)
unfolding edit_lines
Rerun-cons l ls k n kept rerun t =
    rw (kept t, edit_lines)
      (rerun (record t { out = t.out ++ bytes_of_line l; got_hook = t.got_hook + k })
        ∙ ap (λ o. ok (record t { out = o; got_hook = t.got_hook + k + n }))
            (append_assoc t.out (bytes_of_line l) (join_lines ls))
        ∙ ap (λ h. ok (record t { out = t.out ++ join_lines (l ∷ ls); got_hook = h }))
            (omega arith))

-- What the loop makes of lines.
record Edited (ls : List Line) (s s' : Editing) : Type 0 where
  lines : List Line
  ifs : ℕ
  hooks : ℕ
  out_is : s'.out ≡ s.out ++ join_lines lines
  if_is : s'.got_if ≡ s.got_if + ifs
  hook_is : s'.got_hook ≡ s.got_hook + hooks
  are_lines : AreLines lines
  empty : ls ≡ [] → lines ≡ []
  rerun : Rerun lines (hooks + ifs)

Edited-cons :
    (l l' : Line) (ls : List Line) (a b : ℕ) (s s1 s' : Editing)
    → s1.out ≡ s.out ++ bytes_of_line l'
    → s1.got_if ≡ s.got_if + a
    → s1.got_hook ≡ s.got_hook + b
    → NoNewline l'.text
    → (l'.newline ≡ true) ⊎ ((l'.newline ≡ false) × (1 ≤ length l'.text) × (ls ≡ []))
    → Kept l' (b + a)
    → Edited ls s1 s'
    → Edited (l ∷ ls) s s'
Edited-cons l l' ls a b s s1 s' o i h clean ends kept e = record {
  lines = l' ∷ e.lines;
  ifs = a + e.ifs;
  hooks = b + e.hooks;
  out_is =
      e.out_is
      ∙ ap (λ x. x ++ join_lines e.lines) o
      ∙ append_assoc s.out (bytes_of_line l') (join_lines e.lines);
  if_is = omega (arith, e.if_is, i);
  hook_is = omega (arith, e.hook_is, h);
  are_lines = (clean, ending ends, e.are_lines);
  empty = λ x. absurd (cc);
  rerun = λ t.
      Rerun-cons l' e.lines (b + a) (e.hooks + e.ifs) kept e.rerun t
      ∙ ap
          (λ n.
            ok (record t { out = t.out ++ join_lines (l' ∷ e.lines); got_hook = t.got_hook + n }))
          (omega arith);
}
  where
    ending :
        (l'.newline ≡ true) ⊎ ((l'.newline ≡ false) × (1 ≤ length l'.text) × (ls ≡ []))
        → (l'.newline ≡ true) ⊎ ((l'.newline ≡ false) × (1 ≤ length l'.text) × (e.lines ≡ []))
    ending (inl x) = inl x
    ending (inr (x, y, z)) = inr (x, y, e.empty z)

-- The line that stands for the command on the interface.
abbrev hook_line : Bool → Line
hook_line cr = record { text = network_hook ++ (if cr then b'\r' ∷ [] else []); newline = true }

hook_line-Kept : (cr : Bool) → Kept (hook_line cr) 1
unfolding edit_line line_equal without_cr equal
hook_line-Kept true t = refl
hook_line-Kept false t = refl

hook_line-bytes :
    (cr : Bool)
    → network_hook ++ (if cr then b'\r' ∷ b'\n' ∷ [] else b'\n' ∷ []) ≡ bytes_of_line (hook_line cr)
hook_line-bytes true = refl
hook_line-bytes false = refl

hook_line-NoNewline : (cr : Bool) → NoNewline (hook_line cr).text
hook_line-NoNewline true = ground arith
hook_line-NoNewline false = ground arith

-- The branches of the loop's body. A line that is kept is kept in every state.
data Branch (l : Line) (s : Editing) : Type 0 where
  by_if :
      edit_line l s ≡ ok (record s { out = s.out ++ hook_bytes l.text; got_if = s.got_if + 1 })
      → Branch l s
  by_route : edit_line l s ≡ ok (record s { got_route = s.got_route + 1 }) → Branch l s
  by_kept : (k : ℕ) → Kept l k → Branch l s
  by_custom : edit_line l s ≡ err custom_setup → Branch l s

edit_line-Branch : (l : Line) (s : Editing) → Branch l s
unfolding edit_line
edit_line-Branch l s = elim (Bool-cases (line_equal l.text ifconfig_line)) [
  | inl is_if ↦ by_if (rw (is_if, edit_line) refl)
  | inr not_if ↦ elim (Bool-cases (line_equal l.text route_line)) [
    | inl is_route ↦ by_route (rw (not_if, is_route, edit_line) refl)
    | inr not_route ↦ elim (Bool-cases (line_equal l.text network_hook)) [
      | inl is_hook ↦ by_kept 1 (λ t. rw (not_if, not_route, is_hook, edit_line) refl)
      | inr not_hook ↦ elim (Bool-cases (is_custom l.text)) [
        | inl custom ↦ by_custom (rw (not_if, not_route, not_hook, custom, edit_line) refl)
        | inr plain ↦ by_kept 0 (λ t.
            let none_more : t.got_hook + 0 ≡ t.got_hook = omega arith in
            rw (not_if, not_route, not_hook, plain, none_more, edit_line) refl)
      ]
    ]
  ]
]

edit_lines-Edited :
    (ls : List Line) (s s' : Editing) → AreLines ls → edit_lines ls s ≡ ok s' → Edited ls s s'
unfolding edit_lines
edit_lines-Edited [] s s' h e = record {
  lines = [];
  ifs = 0;
  hooks = 0;
  out_is = ap (λ x. x.out) (sym (ok-injective e)) ∙ sym (append-nil s.out);
  if_is = omega (arith, ap (λ x. x.got_if) (ok-injective e));
  hook_is = omega (arith, ap (λ x. x.got_hook) (ok-injective e));
  are_lines = tt;
  empty = λ _. refl;
  rerun = λ t.
      ap (λ o. ok (record t { out = o })) (sym (append-nil t.out))
      ∙ ap (λ n. ok (record t { out = t.out ++ []; got_hook = n })) (omega arith);
}
edit_lines-Edited (l ∷ ls) s s' (clean, ends, others) e = elim (edit_line-Branch l s) [
  | by_if i ↦
      let s1 : Editing = record s { out = s.out ++ hook_bytes l.text; got_if = s.got_if + 1 } in
      let more = edit_lines-Edited ls s1 s' others (rw i at e) in
      let cr = ends_cr l.text in
      Edited-cons l (hook_line cr) ls 1 0 s s1 s' (ap (λ b. s.out ++ b) (hook_line-bytes cr)) refl
        (omega arith) (hook_line-NoNewline cr) (inl refl) (hook_line-Kept cr) more
  | by_route r ↦
      let s1 : Editing = record s { got_route = s.got_route + 1 } in
      let more = edit_lines-Edited ls s1 s' others (rw r at e) in
      record {
        lines = more.lines;
        ifs = more.ifs;
        hooks = more.hooks;
        out_is = more.out_is;
        if_is = more.if_is;
        hook_is = more.hook_is;
        are_lines = more.are_lines;
        empty = λ x. absurd (cc);
        rerun = more.rerun;
      }
  | by_kept k kept ↦
      let s1 : Editing = record s { out = s.out ++ bytes_of_line l; got_hook = s.got_hook + k } in
      let more = edit_lines-Edited ls s1 s' others (rw (kept s) at e) in
      let same : k + 0 ≡ k = omega arith in
      Edited-cons l l ls 0 k s s1 s' refl (omega arith) refl clean ends (λ t. rw same (kept t)) more
  | by_custom c ↦ absurd (cc)
]

abbrev nothing : Editing
nothing = record { out = []; got_if = 0; got_route = 0; got_hook = 0 }

-- How often the two commands and the hook are among the lines of a text.
abbrev pub Has : Bytes → ℕ → ℕ → ℕ → Type 0
Has text ifs routes hooks =
    (count_lines ifconfig_line (lines_of [] text) ≡ ifs)
    × (count_lines route_line (lines_of [] text) ≡ routes)
    × (count_lines network_hook (lines_of [] text) ≡ hooks)

-- The old text has each of the two commands once or the hook once, the new one has the hook once and
-- neither command, and editing it again changes nothing.
pub record IsHookedOnce (input out : Bytes) : Type 0 where
  pub before : Has input 1 1 0 ⊎ Has input 0 0 1
  pub after : Has out 0 0 1
  pub again : network_boot_hook true out ≡ ok out

-- Where a new MINT.CNF is made, the old one has, as whole lines with or without a carriage return,
-- either each of the two commands once and the hook not at all, or the hook once and neither of them;
-- the new one has the hook once and neither command; and editing it again changes nothing.
pub network_boot_hook-IsHookedOnce :
    (input out : Bytes) → network_boot_hook true input ≡ ok out → IsHookedOnce input out
unfolding network_boot_hook is_complete
network_boot_hook-IsHookedOnce input out h =
    elim (Result-cases (edit_lines (lines_of [] input) nothing)) [
      | inr (x, m) ↦ absurd (ground arith)
      | inl (s, m) ↦
          let e =
            edit_lines-Edited (lines_of [] input) nothing s (AreLines-lines_of [] input tt) m in
          let made : s.out ≡ out = ground arith in
          let split =
            ap (lines_of []) (sym made ∙ e.out_is) ∙ lines_of-join_lines e.lines e.are_lines in
          let once : 0 + (e.hooks + e.ifs) ≡ 1 = ground (arith, e.if_is, e.hook_is) in
          let again : edit_lines (lines_of [] out) nothing
              ≡ ok (record nothing { out = out; got_hook = 1 }) =
            ap (λ ls. edit_lines ls nothing) split
            ∙ e.rerun nothing
            ∙ ap (λ n. ok (record nothing { out = join_lines e.lines; got_hook = n })) once
            ∙ ap (λ o. ok (record nothing { out = o; got_hook = 1 })) (sym e.out_is ∙ made) in
          let (ifs, routes, hooks) = edit_lines-counts (lines_of [] out) nothing _ again in
          let (old_ifs, old_routes, old_hooks) =
            edit_lines-counts (lines_of [] input) nothing s m in
          record {
            before = ground (arith, old_ifs, old_routes, old_hooks);
            after = (omega (arith, ifs), omega (arith, routes), omega (arith, hooks));
            again = rw (again, network_boot_hook) refl;
          }
    ]
