-- ===== src/Tests/Networks.antt =====
-- Runs of the network settings.
use shinogi.Base.{
  Bytes, ◌∷◌, arith, ◌++◌, ◌<◌, length, equal, true, refl, [], some, ◌≡◌, ◌↔◌, codes,
}
use shinogi.Base.Result.{ok}
use shinogi.Win.Network.{network_ipv4, part_loop, octet_loop, after_part}
use shinogi.Win.Network.Hook.{
  network_boot_hook, lines_of, edit_lines, edit_line, line_equal, without_cr, ends_cr, is_custom,
  is_active, is_complete,
}
use shinogi.Win.Network.Hook.Stable.{IsHookedOnce, network_boot_hook-IsHookedOnce}
use shinogi.Win.Network.Options.{network_qemu_options, escape, fitted}
use shinogi.Win.Network.Options.Value.{IsQuoted, network_qemu_options-IsQuoted}
use shinogi.Win.Network.Script.{static_script, network_guest_script}
use shinogi.Win.Network.Script.Clean.{IsPlain, network_guest_script-IsPlain}
use shinogi.Win.Network.Valid.{
  NetworkSettings, network_config_valid, static_valid, address_of, unicast, is_loose, is_edge,
  gateway_ok, network_guid_valid, guid_loop, guid_char, mac_loop, mac_char, strtoul16, xdigit_value,
}
use shinogi.Win.Network.Valid.Static.{IsStaticNetwork, network_config_valid-IsStaticNetwork}
use shinogi.Win.Network.Address.{IsAddress, network_ipv4_iff}

network_ipv4_iff_example :
    (network_ipv4 (codes "192.168.1.20") ≡ some 0xc0a80114)
    ↔ IsAddress (codes "192.168.1.20") 0xc0a80114
network_ipv4_iff_example = network_ipv4_iff (codes "192.168.1.20") 0xc0a80114

-- A static address at home.
abbrev home : NetworkSettings
home = record {
  lan = 1;
  dhcp = 0;
  ethernet_guid = codes "{01234567-89ab-cdef-0123-456789ABCDEF}";
  tap_guid = [];
  address = codes "192.168.1.20";
  netmask = codes "255.255.255.0";
  gateway = codes "192.168.1.1";
  dns = codes "8.8.8.8";
  mac = codes "52:54:00:12:34:56";
}

home_run : network_config_valid home ≡ ok tt
unfolding network_config_valid static_valid address_of unicast is_loose is_edge gateway_ok
    network_guid_valid guid_loop guid_char mac_loop mac_char strtoul16 xdigit_value network_ipv4
    part_loop octet_loop after_part
home_run = refl

network_config_valid-IsStaticNetwork_example : IsStaticNetwork home
network_config_valid-IsStaticNetwork_example =
    network_config_valid-IsStaticNetwork home home_run refl refl

abbrev adapter : Bytes
adapter = codes "Atari, TAP"

abbrev adapter_options : Bytes
adapter_options =
    codes
      " -netdev \"tap,id=net0,ifname=Atari,, TAP\" -device virtio-net-device,netdev=net0,mac=52:54:00:12:34:56"

options_run : network_qemu_options home adapter 512 ≡ some adapter_options
unfolding network_qemu_options escape fitted
options_run = refl

network_qemu_options-IsQuoted_example :
    (escaped : Bytes) × IsQuoted adapter escaped
    × (adapter_options
        ≡ codes " -netdev \"tap,id=net0,ifname="
          ++ (escaped ++ (codes "\" -device virtio-net-device,netdev=net0,mac=" ++ home.mac)))
    × (length escaped < 512)
    × (length adapter_options < 512)
network_qemu_options-IsQuoted_example =
    network_qemu_options-IsQuoted home adapter 512 adapter_options (λ e. absurd (omega (arith, e)))
      options_run

abbrev home_script : Bytes
home_script = static_script home.address home.netmask home.gateway home.dns

script_run : network_guest_script home 1024 ≡ some home_script
unfolding network_guest_script fitted static_script
script_run = refl

network_guest_script-IsPlain_example :
    (home_script ≡ static_script home.address home.netmask home.gateway home.dns)
    × (length home_script < 1024)
    × IsPlain home.address
    × IsPlain home.netmask
    × IsPlain home.gateway
    × IsPlain home.dns
network_guest_script-IsPlain_example =
    network_guest_script-IsPlain home 1024 home_script home_run refl refl script_run

-- A MINT.CNF with the two commands as they were delivered, and a comment.
abbrev old_config : Bytes
old_config =
    codes "# net"
    ++ (b'\r' ∷ b'\n' ∷ [])
    ++ codes "exec u:/bin/ifconfig eth0 addr 10.0.2.15 netmask 255.255.255.0 up"
    ++ (b'\r' ∷ b'\n' ∷ [])
    ++ codes "exec u:/bin/route add default eth0 gw 10.0.2.2"

abbrev new_config : Bytes
new_config =
    codes "# net"
    ++ (b'\r' ∷ b'\n' ∷ [])
    ++ codes "exec u:/bin/bash u:/c/mint/1-19-cur/shnnet.sh"
    ++ (b'\r' ∷ b'\n' ∷ [])

hook_run : network_boot_hook true old_config ≡ ok new_config
unfolding network_boot_hook lines_of edit_lines edit_line line_equal without_cr ends_cr is_custom
    is_active is_complete equal
hook_run = refl

network_boot_hook-IsHookedOnce_example : IsHookedOnce old_config new_config
network_boot_hook-IsHookedOnce_example =
    network_boot_hook-IsHookedOnce old_config new_config hook_run
