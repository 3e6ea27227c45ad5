-- ===== src/Tests/Guests.antt =====
-- tools/win/network.c: runs of `prepare_guest` on a small folder.
use shinogi.Base.{some, ◌≡◌, refl, true, false, [], ◌∷◌, ◌++◌, Bytes, codes}
use shinogi.Base.CString.{equal, starts_with}
use shinogi.Base.Result.{ok, err}
use shinogi.Win.Network.Valid.{
  NetworkSettings, network_guid_valid, guid_loop, guid_char, network_config_valid, mac_loop,
  mac_char, strtoul16, xdigit_value,
}
use shinogi.Win.Network.Hook.{
  network_hook, ifconfig_line, route_line, line_contains, network_boot_hook, lines_of, edit_lines,
  edit_line, is_complete, line_equal, without_cr, ends_cr, is_custom, is_active,
}
use shinogi.Win.Network.Script.{network_guest_script, static_script}
use shinogi.Win.Network.Options.{fitted, escape, network_qemu_options}
use shinogi.Win.Guest.{
  absent, file, Folder, Saving, Calls, not_saved, read_file, write_atomic, is_absent, path_fits,
  paths_fit, roll_back, save_config, same_script, save_script, save_backup, check_script,
  with_config, prepare_guest,
}
use shinogi.Win.Prepare.{
  Windows, before_backslash, setup_parameters, setup_command, tap_name, lan_name, with_options,
  network_prepare,
}

abbrev pub lan : NetworkSettings
lan = record {
  lan = 1;
  dhcp = 0;
  ethernet_guid = [];
  tap_guid = [];
  address = codes "10.0.0.2";
  netmask = codes "255.0.0.0";
  gateway = codes "10.0.0.1";
  dns = codes "10.0.0.1";
  mac = [];
}

abbrev pub well : Saving
well = record { named = true; opened = true; filled = true; moved = true; deleted = true }

-- Every call succeeds but those of the argument, which replaces MINT.CNF.
abbrev pub calls : Saving → Calls
calls saves_config = record {
  dhcp_client = true;
  dhcp_callback = true;
  reads_config = true;
  reads_script = true;
  reads_backup = true;
  memory = true;
  copies = true;
  saves_script = well;
  saves_config = saves_config;
  restores = well;
  removes = true;
}

abbrev plain_config : Bytes
plain_config = ifconfig_line ++ 10 ∷ route_line ++ 10 ∷ []

abbrev folder : Folder
folder = record { config = file plain_config; backup = absent; script = absent; temps = 0 }

abbrev lan_script : Bytes
lan_script =
    static_script (codes "10.0.0.2") (codes "255.0.0.0") (codes "10.0.0.1") (codes "10.0.0.1")

-- The script, the hook and a backup.
all_well : prepare_guest lan (calls well) (codes "C") folder ≡ (
  ok tt,
  record {
    config = file (network_hook ++ 10 ∷ []);
    backup = file plain_config;
    script = file lan_script;
    temps = 0;
  },
)
unfolding prepare_guest paths_fit path_fits read_file with_config line_contains starts_with
    network_boot_hook lines_of edit_lines edit_line is_complete line_equal without_cr ends_cr
    is_custom is_active equal check_script is_absent save_backup save_script network_guest_script
    fitted static_script write_atomic same_script save_config
all_well = refl

-- Back to no script where MINT.CNF cannot be replaced.
abbrev stuck : Saving
stuck = record { named = true; opened = true; filled = true; moved = false; deleted = true }

rolled_back : prepare_guest lan (calls stuck) (codes "C") folder ≡ (
  err not_saved,
  record { config = file plain_config; backup = file plain_config; script = absent; temps = 0 },
)
unfolding prepare_guest paths_fit path_fits read_file with_config line_contains starts_with
    network_boot_hook lines_of edit_lines edit_line is_complete line_equal without_cr ends_cr
    is_custom is_active equal check_script is_absent save_backup save_script network_guest_script
    fitted static_script write_atomic same_script save_config roll_back
rolled_back = refl

abbrev pub nat : NetworkSettings
nat = record lan { lan = 0; mac = codes "52:54:00:01:02:03" }

abbrev pub windows : Windows
windows = record {
  managed = [];
  ethernet = [];
  program = some (codes "C:\\S\\shinogi.exe");
  system = some (codes "C:\\W");
  starts = λ _ _. true;
  exit_code = some 0;
  adapters = [];
  same_text = equal;
}

checked :
    setup_command windows 324 1024
      (codes "{4D36E972-E325-11CE-BFC1-08002BE10318}")
      (codes "{4D36E972-E325-11CE-BFC1-08002BE10318}")
      true
      false
    ≡ some (
      codes "C:\\W\\WindowsPowerShell\\v1.0\\powershell.exe",
      codes
          "-NoProfile -NonInteractive -ExecutionPolicy Bypass -File \"C:\\S\\network\\lan-setup.ps1\" -EthernetGuid {4D36E972-E325-11CE-BFC1-08002BE10318} -CheckOnly -TapGuid {4D36E972-E325-11CE-BFC1-08002BE10318}",
    )
unfolding setup_command setup_parameters before_backslash network_guid_valid guid_loop guid_char
    fitted
checked = refl

nat_prepared :
    network_prepare windows nat (calls well) (codes "C") 1024 (record folder { config = absent })
    ≡ (
      ok (
          codes
            " -netdev user,id=net0,ipv6=off -device virtio-net-device,netdev=net0,mac=52:54:00:01:02:03"),
      record folder { config = absent },
    )
unfolding network_prepare network_config_valid mac_loop mac_char strtoul16 xdigit_value lan_name
    tap_name network_qemu_options fitted with_options prepare_guest paths_fit path_fits read_file
    is_absent escape
nat_prepared = refl
