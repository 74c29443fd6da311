-- ===== src/NetHelper/Links.antt =====
-- The verbs of deploy/nova-ve-net.py that make, remove and change interfaces, on the host and in the
-- network namespace of a process.
use nova_ve.Prelude.{ℕ, List, [], ◌∷◌, ◌++◌, Text, codes, text_eq}
use nova_ve.Prelude.Decimal.{str}
use nova_ve.NetHelper.Checks.{
  Host, Helper, ◌>>=◌, ◌>>◌, raise_if, run, validate_bridge_name, validate_host_bridge_name,
  validate_tap_name, validate_veth_name, validate_iface_name, validate_netns_iface, validate_cidr,
}
use nova_ve.NetHelper.Pids.{authorize_pid}

module _ (h : Host) where
  -- `_ip`, `_nsenter_ip_netns` and `_nsenter_cat_address`
  abbrev pub run_ip : List Text → Helper ℕ
  run_ip args = run h (codes "ip" ∷ args)

  abbrev nsenter_ip_netns : ℕ → List Text → Helper ℕ
  nsenter_ip_netns p args =
      run h (codes "nsenter" ∷ codes "-t" ∷ str p ∷ codes "-n" ∷ codes "ip" ∷ args)

  abbrev nsenter_cat_address : ℕ → Text → Helper ℕ
  nsenter_cat_address p iface = run h (
      codes "nsenter"
      ∷ codes "-t"
      ∷ str p
      ∷ codes "-n"
      ∷ codes "cat"
      ∷ (codes "/sys/class/net/" ++ (iface ++ codes "/address"))
      ∷ [])

  unfoldable pub cmd_bridge_add : Text → Helper ℕ
  cmd_bridge_add name = do
    bridge ← validate_bridge_name name
    run_ip (codes "link" ∷ codes "add" ∷ bridge ∷ codes "type" ∷ codes "bridge" ∷ [])

  unfoldable pub cmd_bridge_del : Text → Helper ℕ
  cmd_bridge_del name = do
    bridge ← validate_bridge_name name
    run_ip (codes "link" ∷ codes "del" ∷ bridge ∷ [])

  unfoldable pub cmd_tap_add : Text → Helper ℕ
  cmd_tap_add name = do
    tap ← validate_tap_name name
    run_ip (codes "tuntap" ∷ codes "add" ∷ codes "dev" ∷ tap ∷ codes "mode" ∷ codes "tap" ∷ [])

  unfoldable pub cmd_tap_del : Text → Helper ℕ
  cmd_tap_del name = do tap ← validate_tap_name name; run_ip (codes "link" ∷ codes "del" ∷ tap ∷ [])

  unfoldable pub cmd_link_del : Text → Helper ℕ
  cmd_link_del name = do
    iface ← validate_iface_name (codes "iface_name") name
    run_ip (codes "link" ∷ codes "del" ∷ iface ∷ [])

  unfoldable pub cmd_veth_pair_add : Text → Text → Helper ℕ
  cmd_veth_pair_add hostend peerend = do
    host ← validate_veth_name (codes "hostend") hostend
    peer ← validate_veth_name (codes "peerend") peerend
    raise_if (text_eq host peer) (codes "hostend==peerend")
    run_ip (
        codes "link"
        ∷ codes "add"
        ∷ host
        ∷ codes "type"
        ∷ codes "veth"
        ∷ codes "peer"
        ∷ codes "name"
        ∷ peer
        ∷ [])

  unfoldable pub cmd_link_master : Text → Text → Helper ℕ
  cmd_link_master iface bridge = do
    i ← validate_iface_name (codes "iface_name") iface
    b ← validate_bridge_name bridge
    run_ip (codes "link" ∷ codes "set" ∷ i ∷ codes "master" ∷ b ∷ [])

  unfoldable pub cmd_link_master_host : Text → Text → Helper ℕ
  cmd_link_master_host iface bridge = do
    i ← validate_iface_name (codes "iface_name") iface
    b ← validate_host_bridge_name bridge
    run_ip (codes "link" ∷ codes "set" ∷ i ∷ codes "master" ∷ b ∷ [])

  unfoldable pub cmd_link_set_nomaster : Text → Helper ℕ
  cmd_link_set_nomaster iface = do
    i ← validate_iface_name (codes "iface_name") iface
    run_ip (codes "link" ∷ codes "set" ∷ i ∷ codes "nomaster" ∷ [])

  unfoldable pub cmd_link_netns : Text → Text → Helper ℕ
  cmd_link_netns iface pid = do
    i ← validate_iface_name (codes "iface_name") iface
    p ← authorize_pid h pid
    run_ip (codes "link" ∷ codes "set" ∷ i ∷ codes "netns" ∷ str p ∷ [])

  unfoldable pub cmd_link_up : Text → Helper ℕ
  cmd_link_up iface = do
    i ← validate_iface_name (codes "iface_name") iface
    run_ip (codes "link" ∷ codes "set" ∷ i ∷ codes "up" ∷ [])

  unfoldable pub cmd_bridge_addr_add : Text → Text → Helper ℕ
  cmd_bridge_addr_add bridge cidr = do
    b ← validate_bridge_name bridge
    c ← validate_cidr h cidr
    run_ip (codes "addr" ∷ codes "replace" ∷ c ∷ codes "dev" ∷ b ∷ [])

  unfoldable pub cmd_link_set_name_in_netns : Text → Text → Text → Helper ℕ
  cmd_link_set_name_in_netns pid oldname newname = do
    p ← authorize_pid h pid
    old ← validate_iface_name (codes "oldname") oldname
    new ← validate_netns_iface newname
    nsenter_ip_netns p (codes "link" ∷ codes "set" ∷ old ∷ codes "name" ∷ new ∷ [])

  unfoldable pub cmd_addr_add_in_netns : Text → Text → Text → Helper ℕ
  cmd_addr_add_in_netns pid iface cidr = do
    p ← authorize_pid h pid
    i ← validate_netns_iface iface
    c ← validate_cidr h cidr
    nsenter_ip_netns p (codes "addr" ∷ codes "add" ∷ c ∷ codes "dev" ∷ i ∷ [])

  unfoldable pub cmd_addr_up_in_netns : Text → Text → Helper ℕ
  cmd_addr_up_in_netns pid iface = do
    p ← authorize_pid h pid
    i ← validate_netns_iface iface
    nsenter_ip_netns p (codes "link" ∷ codes "set" ∷ i ∷ codes "up" ∷ [])

  unfoldable pub cmd_read_iface_mac : Text → Text → Helper ℕ
  cmd_read_iface_mac pid iface = do
    p ← authorize_pid h pid
    i ← validate_netns_iface iface
    nsenter_cat_address p i
