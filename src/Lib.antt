-- ===== src/Lib.antt =====
-- The backend of nova-ve, a virtual lab environment: labs are JSON files with nodes, networks and
-- links, and services change them, keep in-memory registries beside them and tell browsers of every
-- change over WebSockets.
--
-- The parts, and the files that model them (paths from the repository's root):
--
-- * WsHub models backend/app/services/ws_hub.py. `WsHub` is the hub, with a `LabState` for each lab:
--   its ring of events, its next number and its subscribers. Each critical section of `publish` is
--   a step of its own (`publish_locked`, `drop_dead`), since sends run between them without the lock;
--   Ring has the sequences of such steps, Replay what a client that reconnects is owed, Subscribers
--   who is subscribed.
-- * MacRegistry models backend/app/services/mac_registry.py, with one function for each method and
--   for each loop of `recompute_for_lab`.
-- * RuntimeMutex models backend/app/services/runtime_mutex.py. A bounded wait for a lock is a try,
--   what the other threads do meanwhile (`waited`), and one more try. Exclusion is the step relation
--   of threads that enter and leave.
-- * Ipam models `_ipam_target`, `_allocate_ip`, `_release_ip` and `_release_ip_from_owner` of
--   backend/app/services/network_service.py: Ipam on one network's record, Ipam.Store on the lab
--   files; Exhausted is about a call that fails.
-- * Links models backend/app/services/link_service.py and link_utils.py. Keys, Ids, Records are the
--   helpers at the top of the file; Create and Delete go from the lab as `_create_link_locked` and
--   `_delete_link_locked` read it to the lab that they write; Cache is the idempotency cache; Service
--   has the calls `create_link`, `delete_link` and `patch_link` on the whole state (`World`), which
--   acquire mutexes, write lab files, recompute the MAC registry and publish. WellFormed is the
--   invariant of a lab's links and networks: each link joins an interface and a network, no interface
--   is wired twice, link ids are distinct, an implicit network has two endpoints, and links reach only
--   networks that are there. Service.Keeps, DeleteKeeps and PatchKeeps are about it and the calls;
--   Failure, Replay and SelfLoop are about calls that raise, that are asked again, and that name one
--   interface twice.
-- * NetHelper models deploy/nova-ve-net.py, the helper that the backend runs as root. Patterns has its
--   regular expressions, Checks and Pids its validators and the authorization of a pid, Links, Nat and
--   Processes its verbs, Verbs the table of verbs and `main`. A verb is a program over the trace of
--   its effects that may end in `_ValidationError` or, where nothing catches an exception, in a
--   traceback; `Host` has what it reads. Policy says what the
--   helper may do without reference to its code; Hoare and Confined are about the verbs and the policy.
-- * RuntimePids models backend/app/services/runtime_pids.py, whose file the helper reads; Authorized
--   is about the two together.
-- * HostNet models the names and the errors of backend/app/services/host_net.py; Accepted is about
--   the names and the validators of the helper.
-- * Networks models the configuration of NAT clouds in backend/app/services/network_service.py.
-- * Iol and Dynamips model parts of backend/app/services/runtime/iol.py and dynamips.py: the filter of
--   telnet commands with the grammar of its input, the choice of application ids, and the slots and
--   ports of a router.
-- * QemuArgs models the merge of a user's options into the command line of QEMU, in
--   backend/app/services/node_runtime_service.py; Grouped and Merged are about its groups of tokens.
-- * Templates models the names of interfaces in backend/app/services/template_service.py; Blank,
--   Predicted and Explicit are about the names of paired children.
-- * DedupLinks models scripts/dedup_links.py, which cleans the links of lab files.
-- * Lab has the records of lab.json that these services read, LabPath the normalization of a lab's
--   path, Topology the legacy topology of a lab (all backend/app/services/lab_service.py). Prelude has
--   what the modules share.
--
-- Numbers of lab.json are natural numbers; the octets of a MAC candidate and the step to the next one
-- keep the source's masks. An IPv4 address is a number below 2^32. Texts are lists of character codes.
-- A Python dict is an association list in insertion order. The lab lock (fcntl) is held for the length
-- of a call's locked part, which is why such a part is one function.
--
-- `suggest_mac` runs on fuel, the 2^24 rounds that the source's loop has too. The decimal digits of a
-- number n are made with fuel n + 1, and no number has more digits than that. The helper waits for the
-- end of a console proxy in 20 rounds, as the source does.
--
-- Parameters stand for what is outside: Python's `ipaddress` (`IpAddress`, with the laws that the code
-- relies on, and `IpNetworks`), `int(text, 16)`, the digest of blake2b, `shlex.split`, the results of
-- programs and system calls of the helper (`Host`), the sockets that accept a message, and the host.
-- The hot-attach and hot-detach passes on running nodes, and the search for the owner of a shared cloud, are parameters
-- of the calls (`Environment`): they work on processes, QMP sockets and the kernel's bridges.
--
-- Not modelled: the processes of the node runtime, the rest of the templates, the creation and change
-- of networks, the fingerprints of bridges and the sweeps of orphans, argparse, the reading and writing
-- of JSON text, the HTTP routes, accounts, folders, consoles, the import of EVE-NG labs, and the
-- frontend. The best-effort reconcile of running QEMU nodes at the end of a link
-- call, whose exceptions are swallowed, is left out.
pub mod DedupLinks
pub mod Dynamips
pub mod HostNet
pub mod Iol
pub mod Ipam
pub mod Lab
pub mod LabPath
pub mod Links
pub mod MacRegistry
pub mod NetHelper
pub mod Networks
pub mod Prelude
pub mod QemuArgs
pub mod RuntimeMutex
pub mod RuntimePids
pub mod Templates
pub mod Topology
pub mod WsHub
