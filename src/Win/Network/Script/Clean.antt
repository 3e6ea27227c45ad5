-- ===== src/Win/Network/Script/Clean.antt =====
-- What of the settings gets into the script.
use shinogi.Base.{
  ◌<◌, ℕ, true, ◌||◌, List, [], ◌∷◌, some, ◌≡◌, refl, sym, subst, arith, Bytes, All, All-append,
  length, ◌==◌,
}
use shinogi.Base.Result.{ok}
use shinogi.Win.Network.{is_digit, network_ipv4}
use shinogi.Win.Network.Octet.{IsPart}
use shinogi.Win.Network.Address.{dotted, network_ipv4_iff}
use shinogi.Win.Network.Options.Value.{fitted-lt}
use shinogi.Win.Network.Script.{static_script, network_guest_script}
use shinogi.Win.Network.Valid.{NetworkSettings, network_config_valid}
use shinogi.Win.Network.Valid.Static.{network_config_valid-IsStaticNetwork}

-- Digits and dots only.
abbrev pub IsPlain : Bytes → Type 0
IsPlain = All (λ c. (is_digit c || c == b'.') ≡ true)

part-IsPlain : (ds : Bytes) → All (λ c. is_digit c ≡ true) ds → IsPlain ds
part-IsPlain [] h = tt
part-IsPlain (c ∷ ds) h = (ground (arith, h.0), part-IsPlain ds h.1)

dotted-IsPlain : (ps : List Bytes) → All IsPart ps → IsPlain (dotted ps)
dotted-IsPlain [] h = tt
dotted-IsPlain (p ∷ []) h = part-IsPlain p h.0.digits
dotted-IsPlain (p ∷ q ∷ ps) h =
    All-append _ p (b'.' ∷ dotted (q ∷ ps)) (part-IsPlain p h.0.digits)
      (refl, dotted-IsPlain (q ∷ ps) h.1)

network_ipv4-IsPlain : (text : Bytes) (v : ℕ) → network_ipv4 text ≡ some v → IsPlain text
network_ipv4-IsPlain text v h =
    let a = (network_ipv4_iff text v).0 h in
    subst IsPlain (sym a.is_text) (dotted-IsPlain a.parts a.each)

-- The script for a static LAN address that has passed `network_config_valid` is the fixed text round
-- the four values, and these hold digits and dots only, so that nothing else of the settings gets
-- into the guest's shell.
pub network_guest_script-IsPlain :
    (s : NetworkSettings) (size : ℕ) (out : Bytes)
    → network_config_valid s ≡ ok tt
    → s.lan ≡ 1
    → s.dhcp ≡ 0
    → network_guest_script s size ≡ some out
    → (out ≡ static_script s.address s.netmask s.gateway s.dns)
      × (length out < size)
      × IsPlain s.address
      × IsPlain s.netmask
      × IsPlain s.gateway
      × IsPlain s.dns
unfolding network_guest_script
network_guest_script-IsPlain s size out valid lan dhcp h =
    let n = network_config_valid-IsStaticNetwork s valid lan dhcp in
    let (same, lt) =
      fitted-lt size (static_script s.address s.netmask s.gateway s.dns) out (ground arith) in
    (
      same,
      lt,
      network_ipv4-IsPlain s.address _ n.address_is,
      network_ipv4-IsPlain s.netmask _ n.netmask_is,
      network_ipv4-IsPlain s.gateway _ n.gateway_is,
      network_ipv4-IsPlain s.dns _ n.dns_is,
    )
