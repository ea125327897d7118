-- ===== src/Access.antt =====
-- pkg/common/access.go: access types and the tunnel protocols.
pub mod Laws
use orion_belt.Prelude.{ℕ, String, Bool, true, ◌&&◌, ◌||◌, ◌==◌, eqb, if◌then◌else◌}

abbrev pub access_type_ssh : String
access_type_ssh = "ssh"

abbrev pub access_type_scp : String
access_type_scp = "scp"

abbrev pub access_type_both : String
access_type_both = "both"

abbrev pub access_type_rdp : String
access_type_rdp = "rdp"

abbrev pub access_type_vnc : String
access_type_vnc = "vnc"

abbrev pub access_type_k8s : String
access_type_k8s = "k8s"

unfoldable pub access_type_covers : String → String → Bool
access_type_covers granted wanted =
    if granted == wanted
    then true
    else granted == access_type_both && (wanted == access_type_ssh || wanted == access_type_scp)

unfoldable pub is_tunnel_access_type : String → Bool
is_tunnel_access_type t = t == access_type_rdp || t == access_type_vnc

-- `tunnelPorts[port]`: a missing key reads as "".
unfoldable pub tunnel_protocol_for_port : ℕ → String
tunnel_protocol_for_port port =
    if eqb port 3389 then access_type_rdp else if eqb port 5900 then access_type_vnc else ""

unfoldable pub tunnel_port : String → ℕ
tunnel_port protocol =
    if protocol == access_type_rdp then 3389 else if protocol == access_type_vnc then 5900 else 0
