-- ===== src/Hostfsd/Names/Vetted.antt =====
-- `component_ok` against a description of the names that a guest may send.
use shinogi.Base.{
  ℕ, ◌≤◌, true, false, List, [], ◌∷◌, ◌≡◌, ◌≢◌, ◌↔◌, refl, map, arith, Bytes, equal_iff, length,
  All,
}
use shinogi.Hostfsd.Proto.{max_name}
use shinogi.Hostfsd.Names.{
  device_names, stem, upper, same_device, any_device, forbidden, byte_ok, bytes_ok, last_byte,
  component_ok,
}

-- A byte that may stand in a name.
abbrev pub IsNameByte : ℕ → Type 0
IsNameByte c = (0x20 ≤ c) × (c ≢ 0x7f) × All (λ d. c ≢ d) forbidden

-- What a correct guest sends for one component.
pub record IsVetted (comp : Bytes) : Type 0 where
  pub nonempty : 1 ≤ length comp
  pub short : length comp ≤ max_name
  pub ne_dot : comp ≢ b'.' ∷ []
  pub ne_dots : comp ≢ b'.' ∷ b'.' ∷ []
  pub last_ne_dot : last_byte comp ≢ b'.'
  pub last_ne_space : last_byte comp ≢ b' '
  pub name_bytes : All IsNameByte comp
  pub no_device : All (λ d. map upper (stem comp) ≢ d) device_names

byte_ok_iff : (c : ℕ) → (byte_ok c ≡ true) ↔ IsNameByte c
unfolding byte_ok
byte_ok_iff c = ground arith

bytes_ok_iff : (cs : Bytes) → (bytes_ok cs ≡ true) ↔ All IsNameByte cs
unfolding bytes_ok
bytes_ok_iff [] = (λ _. tt, λ _. refl)
bytes_ok_iff (c ∷ cs) = (
  λ h. ((byte_ok_iff c).0 (ground arith), (bytes_ok_iff cs).0 (ground arith)),
  λ (h, hs). ground (arith, (byte_ok_iff c).1 h, (bytes_ok_iff cs).1 hs),
)

same_device_iff : (s d : Bytes) → (same_device s d ≡ true) ↔ (map upper s ≡ d)
unfolding same_device
same_device_iff [] [] = (λ _. refl, λ _. refl)
same_device_iff (c ∷ cs) (d ∷ ds) = ground (arith, same_device_iff cs ds)
same_device_iff [] (d ∷ ds) = ground arith
same_device_iff (c ∷ cs) [] = ground arith

any_device_iff :
    (ds : List Bytes) (s : Bytes) → (any_device ds s ≡ false) ↔ All (λ d. map upper s ≢ d) ds
unfolding any_device
any_device_iff [] s = (λ _. tt, λ _. refl)
any_device_iff (d ∷ ds) s = (
  λ h. (λ e. ground (arith, (same_device_iff s d).1 e), (any_device_iff ds s).0 (ground arith)),
  λ (h, hs). ground (arith, (same_device_iff s d).0, (any_device_iff ds s).1 hs),
)

component_ok-to_IsVetted : (comp : Bytes) → component_ok comp ≡ true → IsVetted comp
unfolding component_ok
component_ok-to_IsVetted comp h = record {
  nonempty = ground arith;
  short = ground arith;
  ne_dot = ground (arith, equal_iff comp (b'.' ∷ []));
  ne_dots = ground (arith, equal_iff comp (b'.' ∷ b'.' ∷ []));
  last_ne_dot = ground arith;
  last_ne_space = ground arith;
  name_bytes = (bytes_ok_iff comp).0 (ground arith);
  no_device = (any_device_iff device_names (stem comp)).0 (ground arith);
}

component_ok-of_IsVetted : (comp : Bytes) → IsVetted comp → component_ok comp ≡ true
unfolding component_ok
component_ok-of_IsVetted comp v =
    let bytes = (bytes_ok_iff comp).1 v.name_bytes in
    let device = (any_device_iff device_names (stem comp)).1 v.no_device in
    let a = v.nonempty in
    let b = v.short in
    let c = v.ne_dot in
    let d = v.ne_dots in
    let e = v.last_ne_dot in
    let f = v.last_ne_space in
    ground (arith, equal_iff comp (b'.' ∷ []), equal_iff comp (b'.' ∷ b'.' ∷ []))

-- A component is accepted exactly when it has 1 to 255 bytes, is neither `.` nor `..`, ends in
-- neither a dot nor a space, holds no control character and none of the reserved punctuation, and
-- its part before the first dot is, in upper case, no DOS device.
pub component_ok_iff : (comp : Bytes) → (component_ok comp ≡ true) ↔ IsVetted comp
component_ok_iff comp = (component_ok-to_IsVetted comp, component_ok-of_IsVetted comp)
