-- ===== src/Win/Network/Stored/Loaded.antt =====
-- tools/win/network.c: the settings that are saved are those that are loaded.
use shinogi.Base.{
  ℕ, zero, suc, ◌+◌, ◌-◌, ◌≤◌, ◌<◌, ◌≡◌, refl, ap, ◌∙◌, arith, false, List, [], ◌∷◌, Option, some,
  Bytes, codes, length, take, equal, ◌==◌, if◌then◌else◌,
}
use shinogi.Hostfsd.Names.{ascii_lower, name_eq_fold}
use shinogi.Win.Network.Valid.{NetworkSettings}
use shinogi.Win.Profile.{Profiles, IsPlain, AllPlain, last_value, get-put_all}
use shinogi.Win.Network.Stored.{
  network_section, value_or, get_field, choice, read_settings, network_load, settings_values,
  network_save,
}

-- A text that fits in its field and is read as it is written.
pub record IsField (size : ℕ) (text : Bytes) : Type 0 where
  pub fits : length text + 1 ≤ size
  pub plain : IsPlain text

pub record IsStorable (s : NetworkSettings) : Type 0 where
  pub lan : s.lan ≤ 1
  pub dhcp : s.dhcp ≤ 1
  pub ethernet_guid : IsField 40 s.ethernet_guid
  pub tap_guid : IsField 40 s.tap_guid
  pub address : IsField 16 s.address
  pub netmask : IsField 16 s.netmask
  pub gateway : IsField 16 s.gateway
  pub dns : IsField 16 s.dns
  pub mac : IsField 18 s.mac
  pub some_mac : 0 < length s.mac

take-le {ℓ} : {A : Type ℓ} (n : ℕ) (xs : List A) → length xs ≤ n → take n xs ≡ xs
take-le zero [] h = refl
take-le zero (x ∷ xs) h = absurd (omega (arith, h))
take-le (suc n) [] h = refl
take-le (suc n) (x ∷ xs) h = ap (◌∷◌ x) (take-le n xs (omega (arith, h)))

module _ (p : Profiles) where
  field_lem :
      (size : ℕ) (key default text : Bytes) (f : p.File)
      → IsField size text
      → p.get network_section key f ≡ some text
      → get_field p size key default f ≡ text
  unfolding get_field
  field_lem size key default text f h e =
      ap (λ v. take (size - 1) (value_or default v)) e
      ∙ take-le (size - 1) text (omega (arith, h.fits))

  mode_lem :
      (n : ℕ)
      → n ≤ 1
      → choice p (if n == 0 then codes "nat" else codes "lan") (codes "lan") (codes "nat") ≡ n
  unfolding choice equal
  mode_lem zero h =
      rw (p.same_text_lower (codes "nat") (codes "lan") refl refl)
        (rw (p.same_text_lower (codes "nat") (codes "nat") refl refl))
  mode_lem (suc zero) h = rw (p.same_text_lower (codes "lan") (codes "lan") refl refl)
  mode_lem (suc (suc n)) h = absurd (omega (arith, h))

  address_mode_lem :
      (n : ℕ)
      → n ≤ 1
      → choice p (if n == 0 then codes "static" else codes "dhcp") (codes "dhcp") (codes "static")
        ≡ n
  unfolding choice equal
  address_mode_lem zero h =
      rw (p.same_text_lower (codes "static") (codes "dhcp") refl refl)
        (rw (p.same_text_lower (codes "static") (codes "static") refl refl))
  address_mode_lem (suc zero) h = rw (p.same_text_lower (codes "dhcp") (codes "dhcp") refl refl)
  address_mode_lem (suc (suc n)) h = absurd (omega (arith, h))

  mode-IsField : (n : ℕ) → n ≤ 1 → IsField 32 (if n == 0 then codes "nat" else codes "lan")
  mode-IsField zero h = record { fits = omega arith; plain = refl }
  mode-IsField (suc zero) h = record { fits = omega arith; plain = refl }
  mode-IsField (suc (suc n)) h = absurd (omega (arith, h))

  address_mode-IsField :
      (n : ℕ) → n ≤ 1 → IsField 32 (if n == 0 then codes "static" else codes "dhcp")
  address_mode-IsField zero h = record { fits = omega arith; plain = refl }
  address_mode-IsField (suc zero) h = record { fits = omega arith; plain = refl }
  address_mode-IsField (suc (suc n)) h = absurd (omega (arith, h))

  settings_values-AllPlain : (s : NetworkSettings) → IsStorable s → AllPlain (settings_values p s)
  unfolding settings_values
  settings_values-AllPlain s h = (
    h.ethernet_guid.plain,
    (
      h.tap_guid.plain,
      (
        h.address.plain,
        (
          h.netmask.plain,
          (
            h.gateway.plain,
            (
              h.dns.plain,
              (
                h.mac.plain,
                (
                  (address_mode-IsField s.dhcp h.dhcp).plain,
                  ((mode-IsField s.lan h.lan).plain, tt),
                ),
              ),
            ),
          ),
        ),
      ),
    ),
  )

  module _ (s : NetworkSettings) (f f' : p.File) (h : IsStorable s)
      (saved : network_save p s f ≡ some f') where
    stored_value :
        (key : Bytes)
        → p.get network_section key f'
          ≡ last_value key (settings_values p s) (p.get network_section key f)
    unfolding network_save
    stored_value key =
        get-put_all p network_section (settings_values p s) f f' key (settings_values-AllPlain s h)
          saved

    read_settings_saved : read_settings p f' ≡ s
    unfolding read_settings last_value settings_values name_eq_fold ascii_lower
    read_settings_saved =
        let mode =
          field_lem 32 (codes "Mode") (codes "nat") _ f' (mode-IsField s.lan h.lan)
            (stored_value (codes "Mode")) in
        let address_mode =
          field_lem 32 (codes "AddressMode") (codes "dhcp") _ f'
            (address_mode-IsField s.dhcp h.dhcp) (stored_value (codes "AddressMode")) in
        let lan : choice p (get_field p 32 (codes "Mode") (codes "nat") f') (codes "lan")
              (codes "nat")
            ≡ s.lan =
          ap (λ t. choice p t (codes "lan") (codes "nat")) mode ∙ mode_lem s.lan h.lan in
        let dhcp : choice p (get_field p 32 (codes "AddressMode") (codes "dhcp") f') (codes "dhcp")
              (codes "static")
            ≡ s.dhcp =
          ap (λ t. choice p t (codes "dhcp") (codes "static")) address_mode
          ∙ address_mode_lem s.dhcp h.dhcp in
        let ethernet =
          field_lem 40 (codes "EthernetGuid") [] s.ethernet_guid f' h.ethernet_guid
            (stored_value (codes "EthernetGuid")) in
        let tap =
          field_lem 40 (codes "TapGuid") [] s.tap_guid f' h.tap_guid
            (stored_value (codes "TapGuid")) in
        let address =
          field_lem 16 (codes "Address") [] s.address f' h.address
            (stored_value (codes "Address")) in
        let netmask =
          field_lem 16 (codes "Netmask") (codes "255.255.255.0") s.netmask f' h.netmask
            (stored_value (codes "Netmask")) in
        let gateway =
          field_lem 16 (codes "Gateway") [] s.gateway f' h.gateway
            (stored_value (codes "Gateway")) in
        let dns = field_lem 16 (codes "DNS") [] s.dns f' h.dns (stored_value (codes "DNS")) in
        let mac = field_lem 18 (codes "MAC") [] s.mac f' h.mac (stored_value (codes "MAC")) in
        λ i. record {
          lan = lan i;
          dhcp = dhcp i;
          ethernet_guid = ethernet i;
          tap_guid = tap i;
          address = address i;
          netmask = netmask i;
          gateway = gateway i;
          dns = dns i;
          mac = mac i;
        }

  -- Where Windows keeps what is written to a settings file: settings whose fields fit and carry
  -- nothing that Windows would take off, once they are saved, are loaded as they are, whatever the
  -- file held before and whatever random bytes the system would give, and loading leaves the file
  -- alone.
  pub network_load-network_save :
      (s : NetworkSettings) (f f' : p.File) (random : Option (ℕ × ℕ × ℕ))
      → IsStorable s
      → network_save p s f ≡ some f'
      → network_load p random f' ≡ some (s, f')
  unfolding network_load
  network_load-network_save s f f' random h saved =
      let same = read_settings_saved s f f' h saved in
      let has_mac : (length s.mac == 0) ≡ false = ground (arith, h.some_mac) in
      rw (same, network_load) (rw has_mac)
