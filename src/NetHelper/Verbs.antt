-- ===== src/NetHelper/Verbs.antt =====
-- `VERB_TABLE` and `main` of deploy/nova-ve-net.py. `argparse` and its messages are not modelled:
-- `Verb` is what it parses.
use nova_ve.Prelude.{ℕ, Option, List, [], Text}
use nova_ve.NetHelper.Checks.{Host, Helper, Effect, Outcome, finished, invalid, crashed}
use nova_ve.NetHelper.Links.{
  cmd_bridge_add, cmd_bridge_del, cmd_tap_add, cmd_tap_del, cmd_link_del, cmd_veth_pair_add,
  cmd_link_master, cmd_link_master_host, cmd_link_set_nomaster, cmd_link_netns, cmd_link_up,
  cmd_bridge_addr_add, cmd_link_set_name_in_netns, cmd_addr_add_in_netns, cmd_addr_up_in_netns,
  cmd_read_iface_mac,
}
use nova_ve.NetHelper.Nat.{
  cmd_default_egress, cmd_ipv4_forward_enable, cmd_nat_apply, cmd_nat_remove, cmd_forward_apply,
  cmd_forward_remove,
}
use nova_ve.NetHelper.Processes.{
  cmd_dnsmasq_start, cmd_dnsmasq_stop, cmd_console_proxy_start, cmd_console_proxy_stop,
  cmd_qemu_process_signal,
}

-- The verbs with the arguments of their parsers
pub data Verb : Type 0 where
  bridge_add bridge_del tap_add tap_del link_del : Text → Verb
  veth_pair_add link_master link_master_host : Text → Text → Verb
  link_set_nomaster link_up : Text → Verb
  link_netns bridge_addr_add : Text → Text → Verb
  default_egress ipv4_forward_enable : Verb
  nat_apply forward_apply : Text → Text → Text → Verb
  nat_remove : Text → Verb
  forward_remove : Text → Option Text → Option Text → Verb
  dnsmasq_start : Text → Text → Text → Text → Verb
  dnsmasq_stop : Text → Verb
  link_set_name_in_netns addr_add_in_netns : Text → Text → Text → Verb
  addr_up_in_netns read_iface_mac : Text → Text → Verb
  console_proxy_start : Text → Text → Text → Verb
  console_proxy_stop : Text → Verb
  qemu_process_signal : Text → Text → Verb

module _ (h : Host) where
  -- `VERB_TABLE[args.verb](args)`
  unfoldable pub handler : Verb → Helper ℕ
  handler (bridge_add name) = cmd_bridge_add h name
  handler (bridge_del name) = cmd_bridge_del h name
  handler (tap_add name) = cmd_tap_add h name
  handler (tap_del name) = cmd_tap_del h name
  handler (link_del name) = cmd_link_del h name
  handler (veth_pair_add hostend peerend) = cmd_veth_pair_add h hostend peerend
  handler (link_master iface bridge) = cmd_link_master h iface bridge
  handler (link_master_host iface bridge) = cmd_link_master_host h iface bridge
  handler (link_set_nomaster iface) = cmd_link_set_nomaster h iface
  handler (link_up iface) = cmd_link_up h iface
  handler (link_netns iface pid) = cmd_link_netns h iface pid
  handler (bridge_addr_add bridge cidr) = cmd_bridge_addr_add h bridge cidr
  handler default_egress = cmd_default_egress h
  handler ipv4_forward_enable = cmd_ipv4_forward_enable h
  handler (nat_apply bridge cidr egress) = cmd_nat_apply h bridge cidr egress
  handler (forward_apply bridge cidr egress) = cmd_forward_apply h bridge cidr egress
  handler (nat_remove bridge) = cmd_nat_remove h bridge
  handler (forward_remove bridge cidr egress) = cmd_forward_remove h bridge cidr egress
  handler (dnsmasq_start bridge g s e) = cmd_dnsmasq_start h bridge g s e
  handler (dnsmasq_stop bridge) = cmd_dnsmasq_stop h bridge
  handler (link_set_name_in_netns pid old new) = cmd_link_set_name_in_netns h pid old new
  handler (addr_add_in_netns pid iface cidr) = cmd_addr_add_in_netns h pid iface cidr
  handler (addr_up_in_netns pid iface) = cmd_addr_up_in_netns h pid iface
  handler (read_iface_mac pid iface) = cmd_read_iface_mac h pid iface
  handler (console_proxy_start pid listen target) = cmd_console_proxy_start h pid listen target
  handler (console_proxy_stop pid) = cmd_console_proxy_stop h pid
  handler (qemu_process_signal pid signal) = cmd_qemu_process_signal h pid signal

  -- The exit code of the program for a parsed command line, 1 after a traceback, and the effects
  abbrev pub exit_of : Outcome ℕ → ℕ × List Effect
  exit_of (finished rc t) = (rc, t)
  exit_of (invalid label t) = (2, t)
  exit_of (crashed t) = (1, t)

  unfoldable pub main : Verb → ℕ × List Effect
  main v = exit_of (handler v [])
