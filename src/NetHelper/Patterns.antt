-- ===== src/NetHelper/Patterns.antt =====
-- The regular expressions of deploy/nova-ve-net.py: steps that match one character or an optional
-- one or any number of them, and the end that `$` allows, before or after a last newline.
use nova_ve.Prelude.{
  ℕ, zero, suc, Bool, true, false, ◌&&◌, ◌||◌, not, List, [], ◌∷◌, ◌++◌, Text, codes, leb, ◌==◌,
}
use Prim.Native.String.{String}

-- `c`, `c?` and `c*` for a class of characters
pub data Step : Type 0 where
  need may many : (ℕ → Bool) → Step

abbrev pub Pattern : Type 0
Pattern = List Step

abbrev pub many_then : (ℕ → Bool) → (Text → Bool) → Text → Bool
many_then cls k [] = k []
many_then cls k (c ∷ s) = k (c ∷ s) || (cls c && many_then cls k s)

abbrev pub step_then : Step → (Text → Bool) → Text → Bool
step_then (need cls) k [] = false
step_then (need cls) k (c ∷ s) = cls c && k s
step_then (may cls) k [] = k []
step_then (may cls) k (c ∷ s) = k (c ∷ s) || (cls c && k s)
step_then (many cls) k s = many_then cls k s

-- Whether the steps match a prefix of the text after which `k` holds.
unfoldable pub steps_then : Pattern → (Text → Bool) → Text → Bool
steps_then [] k s = k s
steps_then (p ∷ ps) k s = step_then p (steps_then ps k) s

-- `$`
unfoldable pub at_end : Text → Bool
at_end [] = true
at_end (c ∷ []) = c == 10
at_end (c ∷ d ∷ s) = false

-- `re.compile("^…$").match`
unfoldable pub matches : Pattern → Text → Bool
matches p s = steps_then p at_end s

abbrev pub is_nil : Text → Bool
is_nil [] = true
is_nil (c ∷ s) = false

-- `fullmatch`
unfoldable pub matches_all : Pattern → Text → Bool
matches_all p s = steps_then p is_nil s

-- `search` of a pattern without `^` and `$`
unfoldable pub search_for : Pattern → Text → Bool
search_for p [] = steps_then p (λ _. true) []
search_for p (c ∷ s) = let rest = search_for p s in steps_then p (λ _. true) (c ∷ s) || rest

-- The classes `[a-f0-9]`, `[0-9]`, `[A-Za-z0-9_.:-]`, `[A-Za-z0-9_.-]`, `[hp]`, `[/\-]` and `.`
abbrev pub hex : ℕ → Bool
hex c = (leb b'a' c && leb c b'f') || (leb b'0' c && leb c b'9')

abbrev pub digit : ℕ → Bool
digit c = leb b'0' c && leb c b'9'

abbrev pub word : ℕ → Bool
word c =
    (leb b'A' c && leb c b'Z')
    || ((leb b'a' c && leb c b'z') || (digit c || (c == b'_' || (c == b'.' || c == b'-'))))

abbrev pub word_or_colon : ℕ → Bool
word_or_colon c = word c || c == b':'

abbrev pub host_or_peer : ℕ → Bool
host_or_peer c = c == b'h' || c == b'p'

abbrev pub slash_or_dash : ℕ → Bool
slash_or_dash c = c == b'/' || c == b'-'

abbrev pub any_char : ℕ → Bool
any_char c = not (c == 10)

-- `c{n}`, and `c{0,n}`
abbrev pub times : ℕ → Step → Pattern
times zero p = []
times (suc n) p = p ∷ times n p

-- A literal text
abbrev pub exactly : Text → Pattern
exactly [] = []
exactly (c ∷ s) = need (λ d. d == c) ∷ exactly s

abbrev pub literal : String → Pattern
literal s = exactly (codes s)

-- `RE_BRIDGE_NAME`, `RE_HOST_BRIDGE_NAME`, `RE_TAP_NAME`, `RE_VETH_NAME`, `RE_NETNS_IFACE`, `RE_PID`,
-- `RE_PORT` and `RE_HOST_IFACE`
abbrev pub bridge_pattern : Pattern
bridge_pattern =
    literal "nove" ++ (times 4 (need hex) ++ (literal "n" ++ (need digit ∷ times 4 (may digit))))

abbrev pub host_bridge_pattern : Pattern
host_bridge_pattern = literal "br-eth" ++ (need digit ∷ many digit ∷ [])

abbrev pub tap_pattern : Pattern
tap_pattern =
    literal "nve"
    ++ (times 4 (need hex)
        ++ (literal "d"
            ++ (need digit
                ∷ may digit
                ∷ may digit
                ∷ (literal "i" ++ (need digit ∷ may digit ∷ [])))))

abbrev pub veth_pattern : Pattern
veth_pattern = tap_pattern ++ (need host_or_peer ∷ [])

abbrev pub netns_pattern : Pattern
netns_pattern = literal "eth" ++ (need digit ∷ may digit ∷ [])

abbrev pub pid_pattern : Pattern
pid_pattern = need digit ∷ times 6 (may digit)

abbrev pub port_pattern : Pattern
port_pattern = need digit ∷ times 4 (may digit)

abbrev pub host_iface_pattern : Pattern
host_iface_pattern = need word_or_colon ∷ times 14 (may word_or_colon)

-- `RE_CGROUP_DOCKER_V1`, `RE_CGROUP_CRIO_V1`, the two patterns of a scope, `RE_COMM_QEMU` and
-- `RE_SAFE_LAB_ID`
abbrev twelve_or_more : Pattern
twelve_or_more = times 12 (need hex) ++ (many hex ∷ [])

abbrev pub docker_v1_pattern : Pattern
docker_v1_pattern = literal "docker" ++ (need slash_or_dash ∷ twelve_or_more)

abbrev pub crio_v1_pattern : Pattern
crio_v1_pattern = literal "crio" ++ (need slash_or_dash ∷ twelve_or_more)

abbrev pub docker_scope_pattern : Pattern
docker_scope_pattern = literal "docker-" ++ (twelve_or_more ++ literal ".scope")

abbrev pub containerd_scope_pattern : Pattern
containerd_scope_pattern = literal "containerd-" ++ (twelve_or_more ++ literal ".scope")

abbrev pub qemu_comm_pattern : Pattern
qemu_comm_pattern = literal "qemu-system-" ++ (need any_char ∷ many any_char ∷ [])

abbrev pub safe_lab_id_pattern : Pattern
safe_lab_id_pattern = need word ∷ times 127 (may word)
