-- ===== src/NetHelper/Confined/LinkVerbs.antt =====
-- The verbs on interfaces keep to the policy of the helper.
use nova_ve.Prelude.{◌≡◌, refl, true, List, Text, arith}
use nova_ve.NetHelper.Patterns.{matches, bridge_pattern}
use nova_ve.NetHelper.Checks.{Host, run}
use nova_ve.NetHelper.Links.{
  cmd_bridge_add, cmd_bridge_del, cmd_tap_add, cmd_tap_del, cmd_link_del, cmd_veth_pair_add,
  cmd_link_master, cmd_link_master_host, cmd_link_set_nomaster, cmd_link_netns, cmd_link_up,
  cmd_bridge_addr_add, cmd_link_set_name_in_netns, cmd_addr_add_in_netns, cmd_addr_up_in_netns,
  cmd_read_iface_mac,
}
use nova_ve.NetHelper.Verbs.{Verb, link_master_host}
use nova_ve.NetHelper.Hoare.{
  IsGuarded, bind-IsGuarded, IsAction-IsGuarded, run-IsAction, raise_if-IsCheck,
}
use nova_ve.NetHelper.Policy.{
  IsBridge, IsOwned, IsAllowed, AllowedArgv, in_netns, add_bridge, add_tap, add_veth, delete_link,
  set_master, set_host_master, set_no_master, set_up, set_netns, set_address,
}
use nova_ve.NetHelper.Validators.{
  IsBridge-IsCheck, IsHostBridge-IsCheck, tap-IsCheck, veth-IsCheck, iface-IsCheck, netns-IsCheck,
  cidr-IsCheck, authorize_pid-IsCheck,
}

bridge-IsOwned : (b : Text) → IsBridge b → IsOwned b
bridge-IsOwned b p = let e : matches bridge_pattern b ≡ true = p in ground arith

-- The last step of a verb is one allowed run.
module _ (h : Host) (v : Verb) where
  run-IsAllowed : {argv : List Text} → AllowedArgv h v argv → IsGuarded (IsAllowed h v) (run h argv)
  run-IsAllowed a = IsAction-IsGuarded (run-IsAction h _ a)

  pub cmd_bridge_add-IsGuarded : (name : Text) → IsGuarded (IsAllowed h v) (cmd_bridge_add h name)
  unfolding cmd_bridge_add
  cmd_bridge_add-IsGuarded name =
      bind-IsGuarded _ (IsBridge-IsCheck name) λ b p. run-IsAllowed (add_bridge b p)

  pub cmd_bridge_del-IsGuarded : (name : Text) → IsGuarded (IsAllowed h v) (cmd_bridge_del h name)
  unfolding cmd_bridge_del
  cmd_bridge_del-IsGuarded name =
      bind-IsGuarded _ (IsBridge-IsCheck name)
        λ b p. run-IsAllowed (delete_link b (bridge-IsOwned b p))

  pub cmd_tap_add-IsGuarded : (name : Text) → IsGuarded (IsAllowed h v) (cmd_tap_add h name)
  unfolding cmd_tap_add
  cmd_tap_add-IsGuarded name =
      bind-IsGuarded _ (tap-IsCheck name) λ i p. run-IsAllowed (add_tap i p)

  pub cmd_tap_del-IsGuarded : (name : Text) → IsGuarded (IsAllowed h v) (cmd_tap_del h name)
  unfolding cmd_tap_del
  cmd_tap_del-IsGuarded name =
      bind-IsGuarded _ (tap-IsCheck name) λ i p. run-IsAllowed (delete_link i p)

  pub cmd_link_del-IsGuarded : (name : Text) → IsGuarded (IsAllowed h v) (cmd_link_del h name)
  unfolding cmd_link_del
  cmd_link_del-IsGuarded name =
      bind-IsGuarded _ (iface-IsCheck _ name) λ i p. run-IsAllowed (delete_link i p)

  pub cmd_veth_pair_add-IsGuarded :
      (hostend peerend : Text) → IsGuarded (IsAllowed h v) (cmd_veth_pair_add h hostend peerend)
  unfolding cmd_veth_pair_add
  cmd_veth_pair_add-IsGuarded hostend peerend = bind-IsGuarded _ (veth-IsCheck _ hostend) λ i p.
      bind-IsGuarded _ (veth-IsCheck _ peerend)
        λ j q. bind-IsGuarded _ (raise_if-IsCheck _ _) λ u d. run-IsAllowed (add_veth i j p q d)

  pub cmd_link_master-IsGuarded :
      (iface bridge : Text) → IsGuarded (IsAllowed h v) (cmd_link_master h iface bridge)
  unfolding cmd_link_master
  cmd_link_master-IsGuarded iface bridge =
      bind-IsGuarded _ (iface-IsCheck _ iface)
        λ i p. bind-IsGuarded _ (IsBridge-IsCheck bridge) λ b q. run-IsAllowed (set_master i b p q)

  pub cmd_link_set_nomaster-IsGuarded :
      (iface : Text) → IsGuarded (IsAllowed h v) (cmd_link_set_nomaster h iface)
  unfolding cmd_link_set_nomaster
  cmd_link_set_nomaster-IsGuarded iface =
      bind-IsGuarded _ (iface-IsCheck _ iface) λ i p. run-IsAllowed (set_no_master i p)

  pub cmd_link_netns-IsGuarded :
      (iface pid : Text) → IsGuarded (IsAllowed h v) (cmd_link_netns h iface pid)
  unfolding cmd_link_netns
  cmd_link_netns-IsGuarded iface pid =
      bind-IsGuarded _ (iface-IsCheck _ iface) λ i p.
        bind-IsGuarded _ (authorize_pid-IsCheck h pid) λ n a. run-IsAllowed (set_netns i n p a)

  pub cmd_link_up-IsGuarded : (iface : Text) → IsGuarded (IsAllowed h v) (cmd_link_up h iface)
  unfolding cmd_link_up
  cmd_link_up-IsGuarded iface =
      bind-IsGuarded _ (iface-IsCheck _ iface) λ i p. run-IsAllowed (set_up i p)

  pub cmd_bridge_addr_add-IsGuarded :
      (bridge cidr : Text) → IsGuarded (IsAllowed h v) (cmd_bridge_addr_add h bridge cidr)
  unfolding cmd_bridge_addr_add
  cmd_bridge_addr_add-IsGuarded bridge cidr =
      bind-IsGuarded _ (IsBridge-IsCheck bridge)
        λ b p. bind-IsGuarded _ (cidr-IsCheck h cidr) λ c u. run-IsAllowed (set_address b c p)

  pub cmd_link_set_name_in_netns-IsGuarded :
      (pid old new : Text) → IsGuarded (IsAllowed h v) (cmd_link_set_name_in_netns h pid old new)
  unfolding cmd_link_set_name_in_netns
  cmd_link_set_name_in_netns-IsGuarded pid old new =
      bind-IsGuarded _ (authorize_pid-IsCheck h pid) λ n a.
        bind-IsGuarded _ (iface-IsCheck _ old)
          λ i p. bind-IsGuarded _ (netns-IsCheck new) λ j u. run-IsAllowed (in_netns n _ a)

  pub cmd_addr_add_in_netns-IsGuarded :
      (pid iface cidr : Text) → IsGuarded (IsAllowed h v) (cmd_addr_add_in_netns h pid iface cidr)
  unfolding cmd_addr_add_in_netns
  cmd_addr_add_in_netns-IsGuarded pid iface cidr =
      bind-IsGuarded _ (authorize_pid-IsCheck h pid) λ n a.
        bind-IsGuarded _ (netns-IsCheck iface)
          λ i u. bind-IsGuarded _ (cidr-IsCheck h cidr) λ c w. run-IsAllowed (in_netns n _ a)

  pub cmd_addr_up_in_netns-IsGuarded :
      (pid iface : Text) → IsGuarded (IsAllowed h v) (cmd_addr_up_in_netns h pid iface)
  unfolding cmd_addr_up_in_netns
  cmd_addr_up_in_netns-IsGuarded pid iface =
      bind-IsGuarded _ (authorize_pid-IsCheck h pid)
        λ n a. bind-IsGuarded _ (netns-IsCheck iface) λ i u. run-IsAllowed (in_netns n _ a)

  pub cmd_read_iface_mac-IsGuarded :
      (pid iface : Text) → IsGuarded (IsAllowed h v) (cmd_read_iface_mac h pid iface)
  unfolding cmd_read_iface_mac
  cmd_read_iface_mac-IsGuarded pid iface =
      bind-IsGuarded _ (authorize_pid-IsCheck h pid)
        λ n a. bind-IsGuarded _ (netns-IsCheck iface) λ i u. run-IsAllowed (in_netns n _ a)

pub cmd_link_master_host-IsGuarded :
    (h : Host) (iface bridge : Text)
    → IsGuarded (IsAllowed h (link_master_host iface bridge)) (cmd_link_master_host h iface bridge)
unfolding cmd_link_master_host
cmd_link_master_host-IsGuarded h iface bridge = bind-IsGuarded _ (iface-IsCheck _ iface) λ i p.
    bind-IsGuarded _ (IsHostBridge-IsCheck bridge)
      λ b q. run-IsAllowed h _ (set_host_master i b p q refl)
