-- ===== src/NetHelper/Pids.antt =====
-- Which pids deploy/nova-ve-net.py works on: the shape of the argument, the entry in the registry,
-- and what /proc says of the process.
use nova_ve.Prelude.{
  ℕ, Bool, true, false, ◌&&◌, ◌||◌, not, Option, none, some, List, [], ◌∷◌, ◌++◌, Text, codes,
  text_eq, ltb, ◌==◌, if◌then◌else◌, strip, strip_prefix, split_on, keep_if,
}
use nova_ve.Prelude.Decimal.{value_from, str}
use nova_ve.RuntimePids.{PidEntry, read_registry, first_entry}
use nova_ve.NetHelper.Patterns.{
  matches, search_for, pid_pattern, docker_v1_pattern, crio_v1_pattern, docker_scope_pattern,
  containerd_scope_pattern, qemu_comm_pattern, safe_lab_id_pattern,
}
use nova_ve.NetHelper.Checks.{
  Host, Cmdline, gone, denied, pieces, Helper, pure, ◌>>=◌, ◌>>◌, raise_if, raise,
}

-- `int` of a text that `RE_PID` matches: the digits, before the newline that `$` lets pass
unfoldable pub int_of : Text → ℕ
int_of s = value_from 0 (strip s)

unfoldable pub validate_pid_shape : Text → Helper ℕ
validate_pid_shape value = do
  raise_if (not (matches pid_pattern value)) (codes "pid")
  raise_if (ltb (int_of value) 10 || int_of value == 1) (codes "pid")
  pure (int_of value)

-- `_load_pid_registry` and `_registry_lookup`
unfoldable pub registry_lookup : Host → ℕ → Option PidEntry
registry_lookup h p = first_entry p (read_registry h.registry)

-- `_cgroup_or_comm_matches`
unfoldable pub cgroup_or_comm_matches : Host → ℕ → Bool
cgroup_or_comm_matches h p =
    let cgroup = h.proc_text p (codes "cgroup") in
    let comm = strip (h.proc_text p (codes "comm")) in
    search_for docker_v1_pattern cgroup
    || search_for crio_v1_pattern cgroup
    || search_for docker_scope_pattern cgroup
    || search_for containerd_scope_pattern cgroup
    || matches qemu_comm_pattern comm

-- A part of a path: `Path` drops a single dot.
abbrev path_part : Text → Text
path_part s = if text_eq s (codes ".") then [] else s ++ codes "/"

-- `RUNTIME_ROOT / "tmp" / lab_id / str(node_id) / "qmp.sock"`
abbrev qmp_path : Text → ℕ → Text
qmp_path lab_id n =
    codes "/var/lib/nova-ve/tmp/" ++ (path_part lab_id ++ (str n ++ codes "/qmp.sock"))

abbrev qmp_path_of : Text → Option ℕ → Option Text
qmp_path_of lab_id none = none
qmp_path_of lab_id (some n) = if n == 0 then none else some (qmp_path lab_id n)

-- `_qemu_qmp_path_for_entry`
unfoldable pub qemu_qmp_path_for_entry : PidEntry → Option Text
qemu_qmp_path_for_entry e =
    let lab_id = strip e.lab_id in
    if matches safe_lab_id_pattern lab_id then qmp_path_of lab_id e.node_id else none

abbrev pub starts_with : Text → Text → Bool
starts_with p s = elim (strip_prefix p s) [ none ↦ false | some _ ↦ true ]

-- `Path(s).name`
abbrev last_part : Text → List Text → Text
last_part d [] = d
last_part d (p ∷ ps) = last_part (if text_eq p [] || text_eq p (codes ".") then d else p) ps

unfoldable pub base_name : Text → Text
base_name s = last_part [] (split_on b'/' s)

-- The loop over `enumerate(argv[:-1])`: an argument `-qmp` before one with the prefix.
unfoldable pub has_qmp : Text → List Text → Bool
has_qmp prefix [] = false
has_qmp prefix (a ∷ []) = false
has_qmp prefix (a ∷ b ∷ argv) =
    let rest = has_qmp prefix (b ∷ argv) in
    if text_eq a (codes "-qmp") && starts_with prefix b then true else rest

abbrev argv_matches : Option Text → List Text → Bool
argv_matches path [] = false
argv_matches none (a ∷ argv) = false
argv_matches (some path) (a ∷ argv) =
    starts_with (codes "qemu-system-") (base_name a)
    && has_qmp (codes "unix:" ++ (path ++ codes ",")) (a ∷ argv)

-- `_read_proc_cmdline`: the pieces that are not empty
abbrev read_proc_cmdline : Cmdline → List Text
read_proc_cmdline gone = []
read_proc_cmdline denied = []
read_proc_cmdline (pieces ps) = keep_if (λ p. not (text_eq p [])) ps

-- `_qemu_cmdline_matches_registry_entry`
unfoldable pub qemu_cmdline_matches : Host → ℕ → PidEntry → Bool
qemu_cmdline_matches h p e =
    argv_matches (qemu_qmp_path_for_entry e) (read_proc_cmdline (h.proc_cmdline p))

abbrev pub entry_or_raise : Host → ℕ → Option PidEntry → Helper (ℕ × PidEntry)
entry_or_raise h p none = raise (codes "pid_not_in_registry")
entry_or_raise h p (some e) = do
  raise_if (not (cgroup_or_comm_matches h p)) (codes "pid_cgroup_mismatch")
  pure (p, e)

unfoldable pub authorize_pid_entry : Host → Text → Helper (ℕ × PidEntry)
authorize_pid_entry h value = do
  p ← validate_pid_shape value
  entry_or_raise h p (registry_lookup h p)

unfoldable pub authorize_pid : Host → Text → Helper ℕ
authorize_pid h value = do (p, e) ← authorize_pid_entry h value; pure p
