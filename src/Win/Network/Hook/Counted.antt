-- ===== src/Win/Network/Hook/Counted.antt =====
-- tools/win/network-config.c: how often the commands stand in what `network_boot_hook` makes.
use shinogi.Base.{
  ℕ, ◌+◌, Bool, true, false, List, [], ◌∷◌, ◌≡◌, inl, inr, refl, sym, ap, ◌∙◌, arith, Bytes, equal,
  equal_iff, if◌then◌else◌, Bool-cases,
}
use shinogi.Base.Result.{ok, ok-injective, bind-eq-ok}
use shinogi.Win.Network.Hook.{
  Line, network_hook, ifconfig_line, route_line, without_cr, line_equal, is_custom, Editing,
  edit_line, edit_lines,
}

-- How many of the lines are this command, with or without a carriage return.
pub count_lines : Bytes → List Line → ℕ
count_lines command [] = 0
count_lines command (l ∷ ls) = (if line_equal l.text command then 1 else 0) + count_lines command ls

-- No line is two different commands.
other_command :
    (text a b : Bytes) → equal a b ≡ false → line_equal text a ≡ true → line_equal text b ≡ false
unfolding line_equal
other_command text a b differ same =
    ap (λ l. equal l b) ((equal_iff (without_cr text) a).0 same) ∙ differ

-- What one line adds to the counts.
record Adds (l : Line) (s s' : Editing) : Type 0 where
  ifs : s'.got_if ≡ s.got_if + (if line_equal l.text ifconfig_line then 1 else 0)
  routes : s'.got_route ≡ s.got_route + (if line_equal l.text route_line then 1 else 0)
  hooks : s'.got_hook ≡ s.got_hook + (if line_equal l.text network_hook then 1 else 0)

-- The line is or is not each of the commands, and the state behind it.
Adds-by :
    (l : Line) (s s1 s' : Editing) (a b c : Bool)
    → line_equal l.text ifconfig_line ≡ a
    → line_equal l.text route_line ≡ b
    → line_equal l.text network_hook ≡ c
    → s1 ≡ s'
    → s1.got_if ≡ s.got_if + (if a then 1 else 0)
    → s1.got_route ≡ s.got_route + (if b then 1 else 0)
    → s1.got_hook ≡ s.got_hook + (if c then 1 else 0)
    → Adds l s s'
Adds-by l s s1 s' a b c ea eb ec made i r h = record {
  ifs = rw ea (ap (λ x. x.got_if) (sym made) ∙ i);
  routes = rw eb (ap (λ x. x.got_route) (sym made) ∙ r);
  hooks = rw ec (ap (λ x. x.got_hook) (sym made) ∙ h);
}

edit_line-Adds : (l : Line) (s s' : Editing) → edit_line l s ≡ ok s' → Adds l s s'
unfolding edit_line equal
edit_line-Adds l s s' e = elim (Bool-cases (line_equal l.text ifconfig_line)) [
  | inl is_if ↦
      let no_route = other_command l.text ifconfig_line route_line refl is_if in
      let no_hook = other_command l.text ifconfig_line network_hook refl is_if in
      let made = ok-injective (rw (is_if, edit_line) at e) in
      Adds-by l s _ s' true false false is_if no_route no_hook made (omega arith) (omega arith)
        (omega arith)
  | inr not_if ↦ elim (Bool-cases (line_equal l.text route_line)) [
    | inl is_route ↦
        let no_hook = other_command l.text route_line network_hook refl is_route in
        let made = ok-injective (rw (not_if, is_route, edit_line) at e) in
        Adds-by l s _ s' false true false not_if is_route no_hook made (omega arith) (omega arith)
          (omega arith)
    | inr not_route ↦ elim (Bool-cases (line_equal l.text network_hook)) [
      | inl is_hook ↦
          let made = ok-injective (rw (not_if, not_route, is_hook, edit_line) at e) in
          Adds-by l s _ s' false false true not_if not_route is_hook made (omega arith)
            (omega arith) (omega arith)
      | inr not_hook ↦ elim (Bool-cases (is_custom l.text)) [
        | inl custom ↦
            let bad = rw (not_if, not_route, not_hook, custom, edit_line) at e in absurd (cc)
        | inr plain ↦
            let made = ok-injective (rw (not_if, not_route, not_hook, plain, edit_line) at e) in
            Adds-by l s _ s' false false false not_if not_route not_hook made (omega arith)
              (omega arith) (omega arith)
      ]
    ]
  ]
]

pub edit_lines-counts :
    (ls : List Line) (s s' : Editing)
    → edit_lines ls s ≡ ok s'
    → (s'.got_if ≡ s.got_if + count_lines ifconfig_line ls)
      × (s'.got_route ≡ s.got_route + count_lines route_line ls)
      × (s'.got_hook ≡ s.got_hook + count_lines network_hook ls)
unfolding edit_lines count_lines
edit_lines-counts [] s s' e =
    let same = ok-injective e in
    (
      omega (arith, ap (λ x. x.got_if) same),
      omega (arith, ap (λ x. x.got_route) same),
      omega (arith, ap (λ x. x.got_hook) same),
    )
edit_lines-counts (l ∷ ls) s s' e =
    let (s1, one, others) = bind-eq-ok (edit_line l s) (edit_lines ls) e in
    let adds = edit_line-Adds l s s1 one in
    let (i, r, h) = edit_lines-counts ls s1 s' others in
    (omega (arith, i, adds.ifs), omega (arith, r, adds.routes), omega (arith, h, adds.hooks))
