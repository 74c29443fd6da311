-- ===== src/NetHelper/Tests.antt =====
-- Runs of the verbs of deploy/nova-ve-net.py on a host with one registered QEMU process.
use nova_ve.Prelude.{
  ◌≡◌, refl, true, false, none, some, [], ◌∷◌, strip, lstrip, rstrip, ◌++◌, Text, codes, length,
  ◌≤◌, All,
}
use nova_ve.RuntimePids.{json_list}
use nova_ve.NetHelper.Patterns.{matches, host_bridge_pattern, bridge_pattern, steps_then, at_end}
use nova_ve.NetHelper.Checks.{
  Host, ran, invalid, finished, gone, validate_iface_name, validate_bridge_name, ◌>>=◌, check_regex,
  run, signalled, removed_file, read_text, call, pure,
}
use nova_ve.NetHelper.Bounds.{chomp, validate_iface_name-bounds}
use nova_ve.NetHelper.Links.{cmd_bridge_add, cmd_link_up}
use nova_ve.NetHelper.Verbs.{Verb, bridge_add, link_up, dnsmasq_stop, handler, main}
use nova_ve.NetHelper.Processes.{cmd_dnsmasq_stop, dnsmasq_stop_bridge, dnsmasq_pidfile}
use nova_ve.Prelude.Integers.{negsuc, int_text}
use nova_ve.NetHelper.Policy.{IsAllowed}
use nova_ve.NetHelper.Confined.Main.{main-IsAllowed, handler-refused, refused_effects}

abbrev host : Host
host = record {
  registry = json_list [];
  proc_text = λ p name. [];
  proc_cmdline = λ p. gone;
  proxy_is_executable = true;
  exit_code = λ t argv. 0;
  output = λ t argv. [];
  file_text = λ t path. none;
  call_succeeds = λ t e. true;
  ipv4_interface = λ s. none;
  ipv4_network = λ s. none;
  ipv4_address = λ s. none;
}

abbrev tap : Text
tap = codes "nve1a2bd3i0"

up_runs :
    main host (link_up tap)
    ≡ (0, ran (codes "ip" ∷ codes "link" ∷ codes "set" ∷ tap ∷ codes "up" ∷ []) ∷ [])
unfolding main handler cmd_link_up ◌>>=◌ validate_iface_name run matches steps_then at_end
up_runs = refl

-- A host on which the pid file of the bridge holds a negative number
abbrev bad_pid : Host
bad_pid = record host { file_text = λ t path. some (codes "-7") }

abbrev stop : Verb
stop = dnsmasq_stop (codes "nove1a2bn1")

-- The process group 7 is signalled.
stop_signals_group :
    main bad_pid stop
    ≡ (0, signalled (negsuc 6) 15 ∷ removed_file (dnsmasq_pidfile (codes "nove1a2bn1")) ∷ [])
unfolding main handler cmd_dnsmasq_stop dnsmasq_stop_bridge ◌>>=◌ validate_bridge_name check_regex
    read_text int_text strip lstrip rstrip call pure matches steps_then at_end
stop_signals_group = refl

main-IsAllowed_example : All (IsAllowed bad_pid stop) (main bad_pid stop).1
main-IsAllowed_example = main-IsAllowed bad_pid stop

host_bridge_refused :
    handler host (bridge_add (codes "br-eth0")) [] ≡ invalid (codes "bridge_name") []
unfolding handler cmd_bridge_add ◌>>=◌ validate_bridge_name check_regex matches steps_then at_end
host_bridge_refused = refl

handler-refused_example : [] ≡ refused_effects (bridge_add (codes "br-eth0"))
handler-refused_example =
    handler-refused host (bridge_add (codes "br-eth0")) (codes "bridge_name") [] host_bridge_refused

tap_passes : validate_iface_name (codes "iface_name") tap [] ≡ finished tap []
unfolding validate_iface_name matches steps_then at_end
tap_passes = refl

validate_iface_name-bounds_example :
    (tap ≡ tap) × (length (chomp tap) ≤ 15) × (matches host_bridge_pattern tap ≡ false)
validate_iface_name-bounds_example =
    validate_iface_name-bounds (codes "iface_name") tap tap [] [] tap_passes

newline_passes : matches bridge_pattern (codes "nove1a2bn1" ++ (10 ∷ [])) ≡ true
unfolding matches steps_then at_end
newline_passes = refl
