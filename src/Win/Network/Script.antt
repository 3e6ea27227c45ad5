-- ===== src/Win/Network/Script.antt =====
-- tools/win/network-config.c: `network_guest_script`, which the guest's shell runs.
pub mod Clean
use shinogi.Base.{
  ℕ, Bool, true, false, not, ◌&&◌, [], ◌∷◌, ◌++◌, Option, none, some, Bytes, codes, ◌==◌,
  if◌then◌else◌,
}
use shinogi.Win.Network.Options.{fitted}
use shinogi.Win.Network.Valid.{NetworkSettings}

abbrev script_header : Bytes
script_header = codes "# Shinogi network settings v1; written before the next boot." ++ b'\n' ∷ []

abbrev dhcp_script : Bytes
dhcp_script =
    script_header
    ++ (codes ": > /ram/etc/resolv.conf" ++ b'\n' ∷ [])
    ++ (codes
          "echo 'timeout 12; retry 5; select-timeout 1; initial-interval 1;' > /ram/etc/shndhcp.cnf"
        ++ b'\n' ∷ [])
    ++ codes "/bin/dhclient -1 -cf /ram/etc/shndhcp.cnf -sf /c/mint/1-19-cur/shndhcp.sh"
    ++ codes " -lf /ram/shndhcp.lea -pf /ram/shndhcp.pid eth0"
    ++ b'\n' ∷ []

-- The four values, and the text round them.
unfoldable pub static_script : Bytes → Bytes → Bytes → Bytes → Bytes
static_script address netmask gateway dns =
    script_header
    ++ codes "/bin/ifconfig eth0 addr "
    ++ address
    ++ codes " netmask "
    ++ netmask
    ++ codes " up || exit 1"
    ++ (b'\n' ∷ codes "/bin/route add default eth0 gw ")
    ++ gateway
    ++ codes " || exit 1"
    ++ (b'\n' ∷ codes "echo 'nameserver ")
    ++ dns
    ++ codes "' > /ram/etc/resolv.conf"
    ++ b'\n' ∷ []

unfoldable pub network_guest_script : NetworkSettings → ℕ → Option Bytes
network_guest_script s size =
    if not (s.lan == 0) && not (s.dhcp == 0)
    then fitted size dhcp_script
    else if not (s.lan == 0)
    then fitted size (static_script s.address s.netmask s.gateway s.dns)
    else fitted size (
        static_script (codes "10.0.2.15") (codes "255.255.255.0") (codes "10.0.2.2")
          (codes "10.0.2.3"))
