-- ===== src/Win/Network/Valid/Static.antt =====
-- What a static network is that `network_config_valid` lets through.
use Prim.Native.Nat.{bit_and}
use shinogi.Base.{
  ℕ, zero, suc, ◌+◌, ◌-◌, ◌^◌, ◌≤◌, ◌<◌, Bool, true, false, some, ◌≡◌, ◌≢◌, inl, inr, sym, ap, ◌∙◌,
  arith, Bytes, leb, Bool-cases, Option-cases,
}
use shinogi.Base.Bits.{shift, shift-pos, shift-le, split_at, run_of_ones, bit_and-low, bit_and-mask}
use shinogi.Base.Result.{ok, Result-cases}
use shinogi.Win.Network.{network_ipv4}
use shinogi.Win.Network.Address.{network_ipv4-lt}
use shinogi.Win.Network.Valid.{
  NetworkSettings, Refusal, unicast, address_of, inverse_of, is_loose, is_edge, gateway_ok,
  static_valid, network_config_valid, bad_address, bad_mask, bad_gateway, bad_dns,
}

-- A mask of 32 bits with `bits` zeros behind ones only, as its number and its inverse.
record IsMask (mask : ℕ) : Type 0 where
  bits : ℕ
  bits_min : 2 ≤ bits
  bits_max : bits ≤ 31
  mask_is : mask ≡ shift 32 1 - shift bits 1
  inverse_is : inverse_of mask ≡ shift bits 1 - 1

two_bits : (k : ℕ) → 4 ≤ shift k 1 → 2 ≤ k
two_bits zero h = absurd (omega (arith, h))
two_bits (suc zero) h = absurd (omega (arith, h))
two_bits (suc (suc k)) h = omega arith

below_32 : (k : ℕ) → shift k 1 < 2 ^ 32 → k ≤ 31
below_32 k h = elim (Bool-cases (leb 32 k)) [
  | inr small ↦ ground arith
  | inl large ↦ absurd (omega (arith, shift-le 32 k (ground arith), h))
]

is_loose-IsMask : (mask : ℕ) → mask < 2 ^ 32 → is_loose mask ≡ false → IsMask mask
unfolding is_loose
is_loose-IsMask mask lt h =
    let inverse = inverse_of mask in
    let (k, e) = run_of_ones inverse (ground arith) in
    let pos = shift-pos k in
    let three : 3 ≤ inverse = ground arith in
    let nonzero : mask ≢ 0 = ground arith in
    record {
      bits = k;
      bits_min = two_bits k (omega (arith, three, e));
      bits_max = below_32 k (omega (arith, nonzero, e, lt));
      mask_is = omega (arith, e, lt, pos);
      inverse_is = omega (arith, e);
    }

-- An address in a network: its part above the host bits, and its part below, which is neither all
-- zeros nor all ones.
pub record IsHost (bits net ip : ℕ) : Type 0 where
  pub host : ℕ
  pub ip_is : ip ≡ shift bits net + host
  pub not_network : 0 < host
  pub not_broadcast : host + 1 < shift bits 1

is_edge-IsHost :
    (bits inverse net r ip : ℕ)
    → inverse ≡ shift bits 1 - 1
    → ip ≡ shift bits net + r
    → r < shift bits 1
    → is_edge inverse ip ≡ false
    → IsHost bits net ip
unfolding is_edge
is_edge-IsHost bits inverse net r ip i e h edge =
    let low : bit_and ip inverse ≡ r = ap (bit_and ip) i ∙ bit_and-low bits net r ip e h in
    record {
      host = r;
      ip_is = e;
      not_network = ground arith;
      not_broadcast = ground (arith, shift-pos bits);
    }

address_of-ok :
    (passes : ℕ → Bool) (e : Refusal) (text : Bytes) (v : ℕ)
    → address_of passes e text ≡ ok v
    → (network_ipv4 text ≡ some v) × (passes v ≡ true)
unfolding address_of
address_of-ok passes e text v h = elim (Option-cases (network_ipv4 text)) [
  | inl m ↦ absurd (ground arith)
  | inr (x, m) ↦ elim (Bool-cases (passes x)) [
    | inl passed ↦
        let same : x ≡ v = ground arith in (m ∙ ap some same, ap passes (sym same) ∙ passed)
    | inr refused ↦ absurd (ground arith)
  ]
]

-- A static network: `bits` host bits, between 2 and 31, behind a mask of ones; the Atari's and the
-- router's addresses are in the same network, they differ, and neither is the network's or the
-- broadcast address; these and the name server's are unicast.
pub record IsStaticNetwork (s : NetworkSettings) : Type 0 where
  pub bits : ℕ
  pub net : ℕ
  pub ip : ℕ
  pub router : ℕ
  pub server : ℕ
  pub bits_min : 2 ≤ bits
  pub bits_max : bits ≤ 31
  pub address_is : network_ipv4 s.address ≡ some ip
  pub netmask_is : network_ipv4 s.netmask ≡ some (shift 32 1 - shift bits 1)
  pub gateway_is : network_ipv4 s.gateway ≡ some router
  pub dns_is : network_ipv4 s.dns ≡ some server
  pub ip_host : IsHost bits net ip
  pub router_host : IsHost bits net router
  pub differ : router ≢ ip
  pub ip_unicast : unicast ip ≡ true
  pub router_unicast : unicast router ≡ true
  pub server_unicast : unicast server ≡ true

-- The router's address, where the mask and the Atari's address have passed.
gateway_ok-IsHost :
    (mask ip gateway net r : ℕ) (m : IsMask mask)
    → ip < 2 ^ 32
    → gateway < 2 ^ 32
    → ip ≡ shift m.bits net + r
    → r < shift m.bits 1
    → gateway_ok ip mask gateway ≡ true
    → IsHost m.bits net gateway × (gateway ≢ ip) × (unicast gateway ≡ true)
unfolding gateway_ok
gateway_ok-IsHost mask ip gateway net r m ip_lt lt e h passed =
    let (net', r', e', h') = split_at m.bits gateway in
    let le : m.bits ≤ 32 = omega (arith, m.bits_max) in
    let mine = ap (bit_and ip) m.mask_is ∙ bit_and-mask 32 m.bits net r ip le ip_lt e h in
    let its = ap (bit_and gateway) m.mask_is ∙ bit_and-mask 32 m.bits net' r' gateway le lt e' h' in
    let same : bit_and gateway mask ≡ bit_and ip mask = ground arith in
    let e'' : gateway ≡ shift m.bits net + r' = omega (arith, mine, its, same, e') in
    (
      is_edge-IsHost m.bits (inverse_of mask) net r' gateway m.inverse_is e'' h' (ground arith),
      ground arith,
      ground arith,
    )

static_valid-IsStaticNetwork : (s : NetworkSettings) → static_valid s ≡ ok tt → IsStaticNetwork s
unfolding static_valid
static_valid-IsStaticNetwork s h = elim (Result-cases (address_of unicast bad_address s.address)) [
  | inr (x, m) ↦ absurd (ground arith)
  | inl (ip, m1) ↦ elim (Result-cases (address_of (λ _. true) bad_mask s.netmask)) [
    | inr (x, m) ↦ absurd (ground arith)
    | inl (mask, m2) ↦ elim (Bool-cases (is_loose mask)) [
      | inl loose ↦ absurd (ground arith)
      | inr tight ↦ elim (Bool-cases (is_edge (inverse_of mask) ip)) [
        | inl edge ↦ absurd (ground arith)
        | inr inner ↦ elim (Result-cases (address_of (gateway_ok ip mask) bad_gateway s.gateway)) [
          | inr (x, m) ↦ absurd (ground arith)
          | inl (router, m3) ↦ elim (Result-cases (address_of unicast bad_dns s.dns)) [
            | inr (x, m) ↦ absurd (ground arith)
            | inl (server, m4) ↦ settled ip mask router server m1 m2 tight inner m3 m4
          ]
        ]
      ]
    ]
  ]
]
  where
    settled :
        (ip mask router server : ℕ)
        → address_of unicast bad_address s.address ≡ ok ip
        → address_of (λ _. true) bad_mask s.netmask ≡ ok mask
        → is_loose mask ≡ false
        → is_edge (inverse_of mask) ip ≡ false
        → address_of (gateway_ok ip mask) bad_gateway s.gateway ≡ ok router
        → address_of unicast bad_dns s.dns ≡ ok server
        → IsStaticNetwork s
    settled ip mask router server m1 m2 tight inner m3 m4 =
        let (a, u) = address_of-ok unicast bad_address s.address ip m1 in
        let (b, _) = address_of-ok (λ _. true) bad_mask s.netmask mask m2 in
        let (c, g) = address_of-ok (gateway_ok ip mask) bad_gateway s.gateway router m3 in
        let (d, v) = address_of-ok unicast bad_dns s.dns server m4 in
        let k = is_loose-IsMask mask (network_ipv4-lt s.netmask mask b) tight in
        let (net, r, e, lt) = split_at k.bits ip in
        let (gh, ne, gu) =
          gateway_ok-IsHost mask ip router net r k (network_ipv4-lt s.address ip a)
            (network_ipv4-lt s.gateway router c) e lt g in
        record {
          bits = k.bits;
          net = net;
          ip = ip;
          router = router;
          server = server;
          bits_min = k.bits_min;
          bits_max = k.bits_max;
          address_is = a;
          netmask_is = b ∙ ap some k.mask_is;
          gateway_is = c;
          dns_is = d;
          ip_host = is_edge-IsHost k.bits (inverse_of mask) net r ip k.inverse_is e lt inner;
          router_host = gh;
          differ = ne;
          ip_unicast = u;
          router_unicast = gu;
          server_unicast = v;
        }

-- Settings for a static LAN address that pass describe a static network.
pub network_config_valid-IsStaticNetwork :
    (s : NetworkSettings)
    → network_config_valid s ≡ ok tt
    → s.lan ≡ 1
    → s.dhcp ≡ 0
    → IsStaticNetwork s
unfolding network_config_valid
network_config_valid-IsStaticNetwork s h lan dhcp = static_valid-IsStaticNetwork s (ground arith)
