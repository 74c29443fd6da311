-- ===== src/NetHelper/Processes.antt =====
-- The verbs of deploy/nova-ve-net.py that start, stop and signal processes: dnsmasq, the console
-- proxy and QEMU.
use nova_ve.Prelude.{
  ℕ, zero, suc, Bool, false, ◌||◌, not, Option, none, some, List, [], ◌∷◌, ◌++◌, Text, codes, ◌^◌,
  text_eq, ltb, if◌then◌else◌, strip, join_with, any_of,
}
use nova_ve.Prelude.Decimal.{str, value_from}
use nova_ve.Prelude.Integers.{ℤ, pos, negsuc, int_text}
use nova_ve.NetHelper.Patterns.{matches_all, pid_pattern, port_pattern}
use nova_ve.NetHelper.Pids.{authorize_pid, authorize_pid_entry, qemu_cmdline_matches}
use nova_ve.NetHelper.Nat.{contains}
use nova_ve.NetHelper.Checks.{
  Host, Helper, wrote_file, removed_file, signalled, signalled_group, spawned_proxy, Cmdline, gone,
  denied, pieces, pure, ◌>>=◌, ◌>>◌, raise, raise_if, run, call, call_or_crash, crash, read_text,
  validate_bridge_name, validate_ipv4,
}

-- `RUNTIME_ROOT / "nat-cloud" / bridge`, and the three paths of `_dnsmasq_paths`
abbrev dnsmasq_root : Text → Text
dnsmasq_root bridge = codes "/var/lib/nova-ve/nat-cloud/" ++ bridge

abbrev pub dnsmasq_conf : Text → Text
dnsmasq_conf bridge = dnsmasq_root bridge ++ codes "/dnsmasq.conf"

abbrev pub dnsmasq_pidfile : Text → Text
dnsmasq_pidfile bridge = dnsmasq_root bridge ++ codes "/dnsmasq.pid"

abbrev dnsmasq_leases : Text → Text
dnsmasq_leases bridge = dnsmasq_root bridge ++ codes "/leases"

-- `int(raw)` of the stripped text of a pid file; where it raises, the function returns.
abbrev pub pid_in : Option Text → Option ℤ
pid_in none = none
pid_in (some raw) = int_text (strip raw)

-- `cmdline and not any(name in arg for arg in cmdline)`, with no command line where /proc has none
abbrev pub is_other_program : Text → Cmdline → Bool
is_other_program name gone = false
is_other_program name denied = false
is_other_program name (pieces ps) = not (any_of (contains name) ps)

-- The command line of the number in a pid file: /proc has no directory of a negative one.
abbrev pub cmdline_at : Host → ℤ → Cmdline
cmdline_at h (pos p) = h.proc_cmdline p
cmdline_at h (negsuc m) = gone

-- Whether `os.kill` takes the number, a C int; else it raises `OverflowError`.
abbrev is_c_int : ℤ → Bool
is_c_int (pos p) = ltb p (2 ^ 31)
is_c_int (negsuc m) = ltb m (2 ^ 31)

-- The lines of the configuration of dnsmasq
abbrev dnsmasq_lines : Text → Text → Text → Text → List Text
dnsmasq_lines b gateway dhcp_start dhcp_end =
    codes "bind-interfaces"
    ∷ (codes "interface=" ++ b)
    ∷ (codes "listen-address=" ++ gateway)
    ∷ codes "port=0"
    ∷ codes "dhcp-authoritative"
    ∷ (codes "dhcp-range=" ++ (dhcp_start ++ (b',' ∷ (dhcp_end ++ codes ",12h"))))
    ∷ (codes "dhcp-option=option:router," ++ gateway)
    ∷ (codes "dhcp-leasefile=" ++ dnsmasq_leases b)
    ∷ (codes "pid-file=" ++ dnsmasq_pidfile b)
    ∷ []
    ∷ []

-- `_validate_port`
unfoldable pub validate_port : Text → Text → Helper ℕ
validate_port label value = do
  raise_if (not (matches_all port_pattern value)) (label ++ codes " must match ^[0-9]{1,5}$")
  let port = value_from 0 value
  raise_if (ltb port 1 || ltb 65535 port) (label ++ (codes " out of range: " ++ str port))
  pure port

module _ (h : Host) where
  -- `os.kill(pid, signal.SIGTERM)`, whose `ProcessLookupError` is passed over, and the unlink
  abbrev pub kill_pid : Text → ℤ → Helper (Unit {0})
  kill_pid bridge p =
      call h (signalled p 15) >>= λ sent. call_or_crash h (removed_file (dnsmasq_pidfile bridge))

  -- The end of `_dnsmasq_stop_bridge`, for the number in the file
  abbrev pub stop_pid : Text → Option ℤ → Helper (Unit {0})
  stop_pid bridge none = pure tt
  stop_pid bridge (some p) =
      if is_other_program (codes "dnsmasq") (cmdline_at h p)
      then pure tt
      else if is_c_int p
      then kill_pid bridge p
      else crash

  unfoldable pub dnsmasq_stop_bridge : Text → Helper (Unit {0})
  dnsmasq_stop_bridge bridge = do
    raw ← read_text h (dnsmasq_pidfile bridge)
    stop_pid bridge (pid_in raw)

  -- The write includes the `mkdir` of the directory; the print of the pid at the end is left out.
  unfoldable pub cmd_dnsmasq_start : Text → Text → Text → Text → Helper ℕ
  cmd_dnsmasq_start bridge gateway dhcp_start dhcp_end = do
    b ← validate_bridge_name bridge
    (g, gn) ← validate_ipv4 h (codes "gateway") gateway
    (s, sn) ← validate_ipv4 h (codes "dhcp_start") dhcp_start
    (e, en) ← validate_ipv4 h (codes "dhcp_end") dhcp_end
    raise_if (ltb en sn) (codes "dhcp_start>dhcp_end")
    dnsmasq_stop_bridge b
    call_or_crash h (wrote_file (dnsmasq_conf b) (join_with 10 (dnsmasq_lines b g s e)))
    run h (codes "dnsmasq" ∷ (codes "--conf-file=" ++ dnsmasq_conf b) ∷ [])

  unfoldable pub cmd_dnsmasq_stop : Text → Helper ℕ
  cmd_dnsmasq_stop bridge = do b ← validate_bridge_name bridge; dnsmasq_stop_bridge b; pure 0

  abbrev pub proxy_target : Text → Helper ℕ
  proxy_target pid = if text_eq (strip pid) (codes "0") then pure 0 else authorize_pid h pid

  -- The forks, the `execv` in the grandchild and the pipe are one effect, which succeeds or not.
  unfoldable pub cmd_console_proxy_start : Text → Text → Text → Helper ℕ
  cmd_console_proxy_start pid listen_port target_port = do
    target_pid ← proxy_target pid
    l ← validate_port (codes "listen_port") listen_port
    t ← validate_port (codes "target_port") target_port
    raise_if (ltb l 1024) (codes "listen_port must be a non-privileged port (>=1024)")
    if h.proxy_is_executable
        then (call h (spawned_proxy target_pid l t) >>= λ done. pure (if done then 0 else 1))
        else pure 1

  -- The rounds of `os.kill(pid, 0)`, then `os.kill(pid, 9)`
  unfoldable pub wait_for_exit : ℕ → ℕ → Helper ℕ
  wait_for_exit zero p = do killed ← call h (signalled (pos p) 9); pure 0
  wait_for_exit (suc rounds) p = do
    alive ← call h (signalled (pos p) 0)
    if alive then wait_for_exit rounds p else pure 0

  abbrev pub is_proxy : Cmdline → Bool
  is_proxy gone = false
  is_proxy denied = false
  is_proxy (pieces ps) = any_of (contains (codes "nova-ve-console-proxy")) ps

  abbrev pub stop_proxy : Cmdline → ℕ → Helper ℕ
  stop_proxy gone p = pure 0
  stop_proxy c p =
      if is_proxy c
      then (call h (signalled (pos p) 15) >>= λ sent. if sent then wait_for_exit 20 p else pure 0)
      else pure 1

  unfoldable pub cmd_console_proxy_stop : Text → Helper ℕ
  cmd_console_proxy_stop pid = do
    raise_if (not (matches_all pid_pattern pid)) (codes "pid argument failed validation")
    let p = value_from 0 pid
    raise_if (ltb p 2) (codes "pid out of range")
    stop_proxy (h.proc_cmdline p) p

  abbrev pub signal_number : Text → Option ℕ
  signal_number s =
      if text_eq s (codes "term")
      then some 15
      else if text_eq s (codes "kill")
      then some 9
      else none

  abbrev pub signal_group : ℕ → Option ℕ → Helper ℕ
  signal_group p none = raise (codes "signal")
  signal_group p (some n) = do sent ← call h (signalled_group p n); pure 0

  unfoldable pub cmd_qemu_process_signal : Text → Text → Helper ℕ
  cmd_qemu_process_signal pid signal = do
    (p, e) ← authorize_pid_entry h pid
    raise_if (not (text_eq e.kind (codes "qemu"))) (codes "pid_not_qemu")
    raise_if (not (qemu_cmdline_matches h p e)) (codes "qemu_cmdline_mismatch")
    signal_group p (signal_number signal)
