-- ===== src/HostNet/Tests.antt =====
-- Names of backend/app/services/host_net.py for a lab on a host with an instance id.
use nova_ve.Prelude.{ℕ, ◌≡◌, refl, inl, some, Text, codes, arith, strip, lstrip, rstrip, text_eq}
use nova_ve.Prelude.Decimal.{str, digits}
use nova_ve.NetHelper.Checks.{validate_bridge_name, validate_tap_name, validate_veth_name}
use nova_ve.HostNet.{
  IdFile, content, named, assertion_error, get_instance_id, lab_hash, bridge_name, tap_name,
  veth_host_name, veth_peer_name, hex4,
}
use nova_ve.HostNet.Accepted.{IsAccepted, bridge_tap-IsAccepted, veth-IsAccepted}
use nova_ve.HostNet.Distinct.{tap_name-injective}

abbrev digest : Text → ℕ
digest s = 6699

abbrev id_file : IdFile
id_file = content (codes "host-1")

id_read : get_instance_id id_file ≡ some (codes "host-1")
unfolding get_instance_id strip lstrip rstrip text_eq
id_read = refl

abbrev lab : Text
lab = codes "a.json"

bridge_tap-IsAccepted_example :
    IsAccepted validate_bridge_name (bridge_name digest id_file lab 12)
    × IsAccepted validate_tap_name (tap_name digest id_file lab 999 99)
bridge_tap-IsAccepted_example =
    bridge_tap-IsAccepted digest id_file (codes "host-1") lab 12 999 99 id_read
      (unfold lab_hash in omega arith) (omega arith) (omega arith) (omega arith)

veth-IsAccepted_example :
    IsAccepted (validate_veth_name (codes "hostend")) (veth_host_name digest id_file lab 99 99)
    × IsAccepted (validate_veth_name (codes "hostend")) (veth_peer_name digest id_file lab 99 99)
veth-IsAccepted_example =
    veth-IsAccepted digest id_file (codes "host-1") lab (codes "hostend") 99 99 id_read
      (unfold lab_hash in omega arith) (omega arith) (omega arith) (inl (omega arith))

tap_is : tap_name digest id_file lab 3 0 ≡ named (codes "nve1a2bd3i0")
unfolding tap_name get_instance_id strip lstrip rstrip text_eq hex4 lab_hash str digits
tap_is = refl

abbrev node_id : ℕ
node_id = 3

abbrev iface : ℕ
iface = 0

tap_name-injective_example : (node_id ≡ node_id) × (iface ≡ iface)
tap_name-injective_example =
    tap_name-injective digest id_file lab (codes "nve1a2bd3i0") node_id iface node_id iface tap_is
      tap_is

-- The veth of a node above 99 and an interface above 9 is one character too long for the `assert`.
long_veth : veth_host_name digest id_file lab 100 10 ≡ assertion_error
unfolding veth_host_name get_instance_id strip lstrip rstrip text_eq hex4 lab_hash str digits
long_veth = refl
