-- ===== src/Tests/Profiles.antt =====
-- tools/win/network.c: saving and loading on a settings file that is a list.
use mathlib.Core.Option.{some-injective}
use shinogi.Base.{
  ◌≡◌, refl, ap, sym, arith, ◌&&◌, List, [], ◌∷◌, Option, some, none, Bytes, codes, if◌then◌else◌,
}
use shinogi.Base.CString.{equal}
use shinogi.Hostfsd.Names.{name_eq_fold}
use shinogi.Win.Network.Valid.{NetworkSettings}
use shinogi.Win.Profile.{Profiles, put_all}
use shinogi.Win.Network.Stored.{new_mac, settings_values, network_load, network_save}
use shinogi.Win.Network.Stored.Loaded.{IsStorable, network_load-network_save}

abbrev Lines : Type 0
Lines = List (Bytes × Bytes × Bytes)

find : Bytes → Bytes → Lines → Option Bytes
find section key [] = none
find section key ((s, k, v) ∷ rest) =
    if name_eq_fold section s && name_eq_fold key k then some v else find section key rest

find-put :
    (section key value : Bytes) (f f' : Lines) (section' key' : Bytes)
    → some ((section, key, value) ∷ f) ≡ some f'
    → find section' key' f' ≡ (
        if name_eq_fold section' section && name_eq_fold key' key
        then some value
        else find section' key' f)
unfolding find
find-put section key value f f' section' key' e =
    ap (find section' key') (sym (some-injective ((section, key, value) ∷ f) f' e))

abbrev listed : Profiles
listed = record {
  File = Lines;
  get = find;
  put = λ section key value f. some ((section, key, value) ∷ f);
  same_text = equal;
  get-put =
      λ section key value f f' section' key' _ e. find-put section key value f f' section' key' e;
  same_text_lower = λ a b _ _. refl;
}

abbrev lan : NetworkSettings
lan = record {
  lan = 1;
  dhcp = 0;
  ethernet_guid = codes "{eth}";
  tap_guid = codes "{tap}";
  address = codes "10.0.0.2";
  netmask = codes "255.0.0.0";
  gateway = codes "10.0.0.1";
  dns = [];
  mac = codes "52:54:00:01:02:03";
}

storable : IsStorable lan
storable = record {
  lan = omega arith;
  dhcp = omega arith;
  ethernet_guid = record { fits = omega arith; plain = refl };
  tap_guid = record { fits = omega arith; plain = refl };
  address = record { fits = omega arith; plain = refl };
  netmask = record { fits = omega arith; plain = refl };
  gateway = record { fits = omega arith; plain = refl };
  dns = record { fits = omega arith; plain = refl };
  mac = record { fits = omega arith; plain = refl };
  some_mac = omega arith;
}

made_mac : new_mac 1 171 255 ≡ codes "52:54:00:01:ab:ff"
unfolding new_mac
made_mac = refl

file : Lines
unfolding network_save put_all settings_values
file = elim (network_save listed lan []) [ none ↦ [] | some f ↦ f ]

network_load-network_save_example : network_load listed none file ≡ some (lan, file)
unfolding network_save put_all settings_values file
network_load-network_save_example = network_load-network_save listed lan [] file none storable refl
