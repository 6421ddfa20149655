-- ===== src/Olsr/Generator.antt =====
-- internal/services/olsr/generator.go and `ShellReplace` of internal/utils/strings.go: the
-- configuration of the OLSR daemon. The code ranges over the map of variables in any order; the
-- model takes that of the list.
pub mod Interfaces
use mesh_manager.Common.{
  ℕ, zero, suc, ◌-◌, Bool, true, false, List, [], ◌∷◌, ◌++◌, Option, none, some, ◌==◌,
  if◌then◌else◌, Bytes, codes, length, has_prefix, Result, ok, panic,
}
use mesh_manager.Config.{Config}
use mesh_manager.Models.{Tunnel, TunnelStore, interface_name, list_wireguard_tunnels}

-- Lines of text with newlines between them.
abbrev pub joined : List Bytes → Bytes
joined [] = []
joined (l ∷ []) = l
joined (l ∷ m ∷ ls) = l ++ (10 ∷ joined (m ∷ ls))

-- `strings.ReplaceAll` for a text that is not empty; the number counts the bytes of an occurrence
-- that are still to be passed.
unfoldable pub replace_from : Bytes → Bytes → ℕ → Bytes → Bytes
replace_from old new skip [] = []
replace_from old new (suc skip) (c ∷ cs) = replace_from old new skip cs
replace_from old new zero (c ∷ cs) =
    let within = replace_from old new (length old - 1) cs in
    let after = replace_from old new 0 cs in
    if has_prefix (c ∷ cs) old then new ++ within else c ∷ after

abbrev pub variable : Bytes → Bytes
variable key = codes "${" ++ (key ++ codes "}")

unfoldable pub shell_replace : List (Bytes × Bytes) → Bytes → Bytes
shell_replace [] src = src
shell_replace ((key, value) ∷ variables) src =
    shell_replace variables (replace_from (variable key) value 0 src)

abbrev plugins : List Bytes
plugins =
    []
    ∷ codes "LoadPlugin \"olsrd_arprefresh.so.0.1\""
    ∷ codes "{"
    ∷ codes "}"
    ∷ []
    ∷ codes "LoadPlugin \"olsrd_txtinfo.so.1.1\""
    ∷ codes "{"
    ∷ codes "    PlParam \"accept\" \"0.0.0.0\""
    ∷ codes "}"
    ∷ []
    ∷ codes "LoadPlugin \"olsrd_jsoninfo.so.1.1\""
    ∷ codes "{"
    ∷ codes "    PlParam \"accept\" \"0.0.0.0\""
    ∷ codes "}"
    ∷ []
    ∷ codes "LoadPlugin \"olsrd_dot_draw.so.0.3\""
    ∷ codes "{"
    ∷ codes "    PlParam \"accept\" \"0.0.0.0\""
    ∷ codes "    PlParam \"port\" \"2004\""
    ∷ codes "}"
    ∷ []
    ∷ codes "LoadPlugin \"olsrd_watchdog.so.0.1\""
    ∷ codes "{"
    ∷ codes "    PlParam \"file\" \"/tmp/olsrd.watchdog\""
    ∷ codes "    PlParam \"interval\" \"5\""
    ∷ codes "}"
    ∷ []

-- The two snippets differ in their rate of polling.
abbrev conf_with : Bytes → Bytes
conf_with pollrate = joined (
    codes "# This file is generated by the Mesh Manager"
    ∷ codes "# Do not edit this file directly"
    ∷ codes "DebugLevel 0"
    ∷ pollrate
    ∷ codes "AllowNoInt yes"
    ∷ codes "RtTable '30'"
    ∷ codes "RtTableDefault '31'"
    ∷ codes "IpVersion 4"
    ∷ codes "LinkQualityAlgorithm \"etx_ffeth\""
    ∷ codes "Willingness 7"
    ∷ codes "MainIp ${MAIN_IP}"
    ∷ plugins)

abbrev snippet_olsrd_conf : Bytes
snippet_olsrd_conf = conf_with (codes "Pollrate 0.05")

abbrev snippet_olsrd_supernode_conf : Bytes
snippet_olsrd_supernode_conf = conf_with (codes "Pollrate 0.01")

abbrev snippet_interface_supernode : Bytes
snippet_interface_supernode = joined (
    codes "Interface \"${IFACE}\""
    ∷ codes "{"
    ∷ codes "    Mode \"isolated\""
    ∷ codes "    HnaInterval 1.0"
    ∷ codes "    HnaValidityTime 600.0"
    ∷ codes "}"
    ∷ [])

abbrev snippet_interface_standard : Bytes
snippet_interface_standard =
    joined
      (codes "Interface \"${IFACE}\"" ∷ codes "{" ∷ codes "    Mode \"ether\"" ∷ codes "}" ∷ [])

abbrev snippet_nameservice : Bytes
snippet_nameservice = joined (
    codes "LoadPlugin \"olsrd_nameservice.so.0.4\""
    ∷ codes "{"
    ∷ codes "    PlParam \"interval\" \"30\""
    ∷ codes "    PlParam \"timeout\" \"300\""
    ∷ codes "    PlParam \"name-change-script\" \"mesh-manager notify\""
    ∷ codes "    PlParam \"name\" \"${SERVER_NAME}\""
    ∷ codes "    ${SERVICES}"
    ∷ codes "}"
    ∷ [])

abbrev snippet_supernode : Bytes
snippet_supernode =
    joined (codes "Hna4" ∷ codes "{" ∷ codes "    10.0.0.0   255.0.0.0" ∷ codes "}" ∷ [])

abbrev snippet_tunnel : Bytes
snippet_tunnel = joined (
    codes "Interface ${IFACES}"
    ∷ codes "{"
    ∷ codes "    Ip4Broadcast 255.255.255.255"
    ∷ codes "    Mode \"ether\""
    ∷ codes "}"
    ∷ [])

abbrev blank_line : Bytes
blank_line = 10 ∷ 10 ∷ []

abbrev pub quoted : Tunnel → Bytes
quoted t = b'"' ∷ (interface_name t ++ (b'"' ∷ []))

-- The loop over the tunnels, of which `last` is the last one; rows are one row if they have one id.
unfoldable pub tunnel_string : Tunnel → List Tunnel → Bytes
tunnel_string last [] = []
tunnel_string last (t ∷ ts) =
    let rest = tunnel_string last ts in
    if t.enabled then quoted t ++ ((if t.id == last.id then [] else 32 ∷ []) ++ rest) else rest

abbrev pub last_of : Tunnel → List Tunnel → Tunnel
last_of t [] = t
last_of t (u ∷ ts) = last_of u ts

unfoldable pub tunnel_names : List Tunnel → Bytes
tunnel_names [] = []
tunnel_names (t ∷ ts) = tunnel_string (last_of t ts) (t ∷ ts)

abbrev tunnel_part : List Tunnel → Bytes
tunnel_part [] = []
tunnel_part (t ∷ ts) =
    blank_line ++ shell_replace ((codes "IFACES", tunnel_names (t ∷ ts)) ∷ []) snippet_tunnel

abbrev services_text : Config → Bytes
services_text c =
    shell_replace ((codes "SERVER_NAME", c.server_name) ∷ [])
      (codes "PlParam \"service\" \"http://${SERVER_NAME}/|tcp|${SERVER_NAME}-console\"")

abbrev nameservice_part : Config → Bytes
nameservice_part c =
    shell_replace ((codes "SERVER_NAME", c.server_name) ∷ (codes "SERVICES", services_text c) ∷ [])
      snippet_nameservice

abbrev supernode_part : Bool → Bytes
supernode_part supernode = if supernode then blank_line ++ snippet_supernode else []

abbrev generated : Config → List Tunnel → Bytes
generated c ts =
    shell_replace ((codes "MAIN_IP", c.node_ip) ∷ [])
      (if c.supernode then snippet_olsrd_supernode_conf else snippet_olsrd_conf)
    ++ (blank_line
        ++ (shell_replace ((codes "IFACE", codes "br-dtdlink") ∷ [])
              (if c.supernode then snippet_interface_supernode else snippet_interface_standard)
            ++ (blank_line
                ++ (nameservice_part c ++ (supernode_part c.supernode ++ tunnel_part ts)))))

abbrev generated_for : Config → Option (List Tunnel) → Result (Unit {0}) Bytes
generated_for c none = panic
generated_for c (some ts) = ok (generated c ts)

-- A query that fails panics.
pub generate : Config → (s : TunnelStore) → s.Db → Result (Unit {0}) Bytes
generate c s d = generated_for c (list_wireguard_tunnels s d)
