-- ===== src/NetHelper/Policy.antt =====
-- What the privileged helper deploy/nova-ve-net.py may do, stated without its code: which programs
-- with which arguments, which files and which processes.
use nova_ve.Prelude.{
  ℕ, ◌≡◌, ◌⊎◌, ◌≤◌, Bool, true, false, some, List, [], ◌∷◌, ◌++◌, Text, codes, text_eq,
}
use nova_ve.Prelude.Decimal.{str}
use nova_ve.RuntimePids.{PidEntry}
use nova_ve.NetHelper.Patterns.{matches, bridge_pattern, host_bridge_pattern}
use nova_ve.NetHelper.Checks.{
  Host, Effect, ran, captured, wrote_file, removed_file, signalled, signalled_group, spawned_proxy,
  is_owned_name,
}
use nova_ve.NetHelper.Pids.{registry_lookup, cgroup_or_comm_matches, qemu_cmdline_matches}
use nova_ve.NetHelper.Processes.{dnsmasq_conf, dnsmasq_pidfile, pid_in, is_other_program, is_proxy}
use nova_ve.Prelude.Integers.{ℤ, pos, negsuc}
use nova_ve.NetHelper.Verbs.{Verb, link_master_host}

-- The pid is above the reserved ones, the registry has the entry, and /proc shows a container or
-- QEMU.
abbrev pub IsAuthorizedAs : Host → ℕ → PidEntry → Type 0
IsAuthorizedAs h p e =
    (10 ≤ p) × (registry_lookup h p ≡ some e) × (cgroup_or_comm_matches h p ≡ true)

abbrev pub IsAuthorized : Host → ℕ → Type 0
IsAuthorized h p = (e : PidEntry) × IsAuthorizedAs h p e

abbrev pub IsBridge : Text → Type 0
IsBridge b = matches bridge_pattern b ≡ true

abbrev pub IsOwned : Text → Type 0
IsOwned i = is_owned_name i ≡ true

abbrev pub IsHostBridge : Text → Type 0
IsHostBridge b = matches host_bridge_pattern b ≡ true

abbrev pub IsPort : ℕ → ℕ → Type 0
IsPort lowest p = (lowest ≤ p) × (p ≤ 65535)

abbrev pub masters_host : Verb → Bool
masters_host (link_master_host iface bridge) = true
masters_host _ = false

-- The command lines that a verb may run
pub data AllowedArgv (h : Host) (v : Verb) : List Text → Type 0 where
  in_netns :
      (p : ℕ) (argv : List Text)
      → IsAuthorized h p
      → AllowedArgv h v (codes "nsenter" ∷ codes "-t" ∷ str p ∷ codes "-n" ∷ argv)
  add_bridge :
      (b : Text)
      → IsBridge b
      → AllowedArgv h v
          (codes "ip" ∷ codes "link" ∷ codes "add" ∷ b ∷ codes "type" ∷ codes "bridge" ∷ [])
  add_tap :
      (i : Text)
      → IsOwned i
      → AllowedArgv h v (
          codes "ip"
          ∷ codes "tuntap"
          ∷ codes "add"
          ∷ codes "dev"
          ∷ i
          ∷ codes "mode"
          ∷ codes "tap"
          ∷ [])
  add_veth :
      (i j : Text)
      → IsOwned i
      → IsOwned j
      → text_eq i j ≡ false
      → AllowedArgv h v (
          codes "ip"
          ∷ codes "link"
          ∷ codes "add"
          ∷ i
          ∷ codes "type"
          ∷ codes "veth"
          ∷ codes "peer"
          ∷ codes "name"
          ∷ j
          ∷ [])
  delete_link :
      (i : Text) → IsOwned i → AllowedArgv h v (codes "ip" ∷ codes "link" ∷ codes "del" ∷ i ∷ [])
  set_master :
      (i b : Text)
      → IsOwned i
      → IsBridge b
      → AllowedArgv h v (codes "ip" ∷ codes "link" ∷ codes "set" ∷ i ∷ codes "master" ∷ b ∷ [])
  set_host_master :
      (i b : Text)
      → IsOwned i
      → IsHostBridge b
      → masters_host v ≡ true
      → AllowedArgv h v (codes "ip" ∷ codes "link" ∷ codes "set" ∷ i ∷ codes "master" ∷ b ∷ [])
  set_no_master :
      (i : Text)
      → IsOwned i
      → AllowedArgv h v (codes "ip" ∷ codes "link" ∷ codes "set" ∷ i ∷ codes "nomaster" ∷ [])
  set_up :
      (i : Text)
      → IsOwned i
      → AllowedArgv h v (codes "ip" ∷ codes "link" ∷ codes "set" ∷ i ∷ codes "up" ∷ [])
  set_netns :
      (i : Text) (p : ℕ)
      → IsOwned i
      → IsAuthorized h p
      → AllowedArgv h v (codes "ip" ∷ codes "link" ∷ codes "set" ∷ i ∷ codes "netns" ∷ str p ∷ [])
  set_address :
      (b c : Text)
      → IsBridge b
      → AllowedArgv h v (codes "ip" ∷ codes "addr" ∷ codes "replace" ∷ c ∷ codes "dev" ∷ b ∷ [])
  nft : (argv : List Text) → AllowedArgv h v (codes "nft" ∷ argv)
  dnsmasq :
      (b : Text)
      → IsBridge b
      → AllowedArgv h v (codes "dnsmasq" ∷ (codes "--conf-file=" ++ dnsmasq_conf b) ∷ [])

-- The command lines whose output the helper reads
pub data CapturedArgv : List Text → Type 0 where
  default_route : CapturedArgv (codes "ip" ∷ codes "route" ∷ codes "show" ∷ codes "default" ∷ [])
  nft_output : (argv : List Text) → CapturedArgv (codes "nft" ∷ argv)

-- The number in the pid file of a bridge of nova-ve, at some point of the run
abbrev pub IsRecorded : Host → ℤ → Type 0
IsRecorded h p =
    (b : Text) × IsBridge b
    × (t : List Effect) × (raw : Text) × (h.file_text t (dnsmasq_pidfile b) ≡ some raw)
    × (pid_in (some raw) ≡ some p)

abbrev pub IsProxy : Host → ℕ → Type 0
IsProxy h p = (2 ≤ p) × (is_proxy h (h.proc_cmdline p) ≡ true)

-- What `os.kill` may reach: a console proxy, or by SIGTERM the number in a pid file, which /proc does
-- not show to be another program than dnsmasq; of a negative number, a group, /proc shows nothing.
abbrev pub MayKill : Host → ℤ → ℕ → Type 0
MayKill h (pos p) n =
    (IsRecorded h (pos p)
      × (n ≡ 15)
      × (is_other_program (codes "dnsmasq") (h.proc_cmdline p) ≡ false))
    ⊎ IsProxy h p
MayKill h (negsuc m) n = IsRecorded h (negsuc m) × (n ≡ 15)

-- A QEMU process of the registry that runs with the socket of its lab and node
abbrev pub IsSignallable : Host → ℕ → Type 0
IsSignallable h p =
    (e : PidEntry) × IsAuthorizedAs h p e
    × (text_eq e.kind (codes "qemu") ≡ true)
    × (qemu_cmdline_matches h p e ≡ true)

abbrev pub IsAllowed : Host → Verb → Effect → Type 0
IsAllowed h v (ran argv) = AllowedArgv h v argv
IsAllowed h v (captured argv) = CapturedArgv argv
IsAllowed h v (wrote_file path text) =
    (path ≡ codes "/proc/sys/net/ipv4/ip_forward")
    ⊎ ((b : Text) × IsBridge b × (path ≡ dnsmasq_conf b))
IsAllowed h v (removed_file path) = (b : Text) × IsBridge b × (path ≡ dnsmasq_pidfile b)
IsAllowed h v (signalled p n) = MayKill h p n
IsAllowed h v (signalled_group p n) = IsSignallable h p
IsAllowed h v (spawned_proxy p l t) = ((p ≡ 0) ⊎ IsAuthorized h p) × IsPort 1024 l × IsPort 1 t
