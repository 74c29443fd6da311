-- ===== src/RuntimePids/Tests.antt =====
-- A pid registered by backend/app/services/runtime_pids.py, as deploy/nova-ve-net.py reads it.
use nova_ve.Prelude.{
  ℕ, ◌≡◌, ◌≢◌, refl, true, none, [], ◌∷◌, Text, codes, text_eq, arith, if◌then◌else◌, strip, lstrip,
  rstrip,
}
use nova_ve.Prelude.Decimal.{str}
use nova_ve.RuntimePids.{
  RegistryFile, missing, written, register, unregister, atomic_write, without_pid, read_registry,
  entries_of,
}
use nova_ve.RuntimePids.Lookup.{new_entry}
use nova_ve.RuntimePids.Authorized.{authorize_pid-register, authorize_pid-unregister}
use nova_ve.NetHelper.Patterns.{matches, steps_then, at_end, search_for}
use nova_ve.NetHelper.Checks.{Host, gone, finished}
use nova_ve.NetHelper.Pids.{cgroup_or_comm_matches, authorize_pid}

abbrev proc : ℕ → Text → Text
proc p name = if text_eq name (codes "comm") then codes "qemu-system-x86" else []

abbrev host_with : RegistryFile → Host
host_with file = record {
  registry = file;
  proc_text = proc;
  proc_cmdline = λ p. gone;
  proxy_is_executable = true;
  exit_code = λ t argv. 0;
  output = λ t argv. [];
  file_text = λ t path. none;
  call_succeeds = λ t e. true;
  ipv4_interface = λ s. none;
  ipv4_network = λ s. none;
  ipv4_address = λ s. none;
}

abbrev registered : RegistryFile
registered = atomic_write (new_entry 5 4242 (codes "qemu") (codes "a.json") 1 0 ∷ [])

registers : register true 5 4242 (codes "qemu") (codes "a.json") 1 0 missing ≡ written registered
unfolding register text_eq without_pid read_registry
registers = refl

live : cgroup_or_comm_matches (host_with registered) 4242 ≡ true
unfolding cgroup_or_comm_matches text_eq strip lstrip rstrip search_for matches steps_then at_end
live = refl

authorize_pid-register_example :
    authorize_pid (host_with registered) (str 4242) [] ≡ finished 4242 []
authorize_pid-register_example =
    authorize_pid-register (host_with registered) true 5 4242 (codes "qemu") (codes "a.json") 1 0
      missing [] registers (omega arith) (omega arith) live

abbrev dropped : RegistryFile
dropped = atomic_write []

unregisters : unregister true 4242 registered ≡ written dropped
unfolding unregister atomic_write read_registry entries_of without_pid
unregisters = refl

authorize_pid-unregister_example :
    authorize_pid (host_with dropped) (codes "4242") [] ≢ finished 4242 []
authorize_pid-unregister_example =
    authorize_pid-unregister (host_with dropped) true 4242 registered (codes "4242") [] []
      unregisters
