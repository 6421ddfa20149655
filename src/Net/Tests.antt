-- ===== src/Net/Tests.antt =====
-- Addresses read and written.
use mesh_manager.Common.{◌≡◌, refl, Option, none, Bytes, codes, itoa}
use mesh_manager.Net.{Ip4, ip4_string, parse_ip}

abbrev no_v6 : Bytes → Option Bytes
no_v6 s = none

abbrev node : Ip4
node = record { o0 = 10; o1 = 54; o2 = 0; o3 = 255 }

node_string : ip4_string node ≡ codes "10.54.0.255"
unfolding ip4_string itoa
node_string = refl

bad_octet : parse_ip no_v6 (codes "10.54.0.256") ≡ none
unfolding parse_ip
bad_octet = refl

leading_zero : parse_ip no_v6 (codes "10.054.0.1") ≡ none
unfolding parse_ip
leading_zero = refl
