-- ===== src/Win/Network/Stored.antt =====
-- tools/win/network.c: `network_load` and `network_save`, on the settings file of Windows.
pub mod Loaded
use shinogi.Base.{
  ℕ, ◌+◌, ◌-◌, ◌/◌, ◌%◌, Bool, true, false, not, ◌&&◌, List, [], ◌∷◌, ◌++◌, Option, none, some,
  Bytes, codes, length, take, ltb, ◌==◌, if◌then◌else◌,
}
use shinogi.Win.Network.Valid.{NetworkSettings}
use shinogi.Win.Profile.{Profiles, put_all}

abbrev pub network_section : Bytes
network_section = codes "Network"

abbrev pub value_or : Bytes → Option Bytes → Bytes
value_or default none = default
value_or default (some value) = value

-- `%02x`
abbrev pub hex_digit : ℕ → ℕ
hex_digit n = if ltb n 10 then n + b'0' else n - 10 + b'a'

abbrev pub hex_byte : ℕ → Bytes
hex_byte n = hex_digit (n / 16) ∷ hex_digit (n % 16) ∷ []

-- A new hardware address of three random bytes.
unfoldable pub new_mac : ℕ → ℕ → ℕ → Bytes
new_mac a b c = codes "52:54:00:" ++ (hex_byte a ++ (b':' ∷ (hex_byte b ++ (b':' ∷ hex_byte c))))

module _ (p : Profiles) where
  -- `READ`, into a field of so many bytes.
  pub get_field : ℕ → Bytes → Bytes → p.File → Bytes
  get_field size key default f = take (size - 1) (value_or default (p.get network_section key f))

  -- 1 for the first word, 0 for the second, and 2, which stands for -1, for another.
  pub choice : Bytes → Bytes → Bytes → ℕ
  choice text one zero = if p.same_text text one then 1 else if p.same_text text zero then 0 else 2

  -- The settings of a file, with the hardware address that it has.
  unfoldable pub read_settings : p.File → NetworkSettings
  unfolding get_field choice
  read_settings f = record {
    lan = choice (get_field 32 (codes "Mode") (codes "nat") f) (codes "lan") (codes "nat");
    dhcp =
        choice (get_field 32 (codes "AddressMode") (codes "dhcp") f) (codes "dhcp")
          (codes "static");
    ethernet_guid = get_field 40 (codes "EthernetGuid") [] f;
    tap_guid = get_field 40 (codes "TapGuid") [] f;
    address = get_field 16 (codes "Address") [] f;
    netmask = get_field 16 (codes "Netmask") (codes "255.255.255.0") f;
    gateway = get_field 16 (codes "Gateway") [] f;
    dns = get_field 16 (codes "DNS") [] f;
    mac = get_field 18 (codes "MAC") [] f;
  }

  -- The settings and the file; `none` where a hardware address is wanted and cannot be made or
  -- stored. `random` is what the system gives.
  unfoldable pub network_load : Option (ℕ × ℕ × ℕ) → p.File → Option (NetworkSettings × p.File)
  network_load random f =
      let s = read_settings f in
      if not (length s.mac == 0) then some (s, f) else elim random [
        | none ↦ none
        | some (a, b, c) ↦ elim (p.put network_section (codes "MAC") (new_mac a b c) f) [
          | none ↦ none
          | some f' ↦ some (record s { mac = new_mac a b c }, f')
        ]
      ]

  -- The keys and values, in the order in which they are written.
  unfoldable pub settings_values : NetworkSettings → List (Bytes × Bytes)
  settings_values s =
      (codes "EthernetGuid", s.ethernet_guid)
      ∷ (codes "TapGuid", s.tap_guid)
      ∷ (codes "Address", s.address)
      ∷ (codes "Netmask", s.netmask)
      ∷ (codes "Gateway", s.gateway)
      ∷ (codes "DNS", s.dns)
      ∷ (codes "MAC", s.mac)
      ∷ (codes "AddressMode", if s.dhcp == 0 then codes "static" else codes "dhcp")
      ∷ (codes "Mode", if s.lan == 0 then codes "nat" else codes "lan")
      ∷ []

  unfoldable pub network_save : NetworkSettings → p.File → Option p.File
  network_save s f = put_all p network_section (settings_values s) f
