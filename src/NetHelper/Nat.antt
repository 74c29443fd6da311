-- ===== src/NetHelper/Nat.antt =====
-- The verbs of deploy/nova-ve-net.py for the way out of a lab: the default route, forwarding, the
-- rules of nftables, and dnsmasq.
use nova_ve.Prelude.{
  ℕ, Bool, true, false, ◌&&◌, ◌||◌, Option, none, some, List, [], ◌∷◌, ◌++◌, Text, codes, text_eq,
  ◌==◌, if◌then◌else◌, strip_prefix, split_on, any_of, is_space,
}
use nova_ve.Prelude.Decimal.{is_digit}
use nova_ve.NetHelper.Pids.{starts_with}
use nova_ve.NetHelper.Checks.{
  Host, Helper, wrote_file, pure, ◌>>=◌, ◌>>◌, run, run_capture, call, validate_bridge_name,
  validate_host_iface, validate_network_cidr,
}

-- `s.splitlines()` for lines that end in a newline
abbrev drop_last_empty : List Text → List Text
drop_last_empty [] = []
drop_last_empty ([] ∷ []) = []
drop_last_empty (l ∷ ls) = l ∷ drop_last_empty ls

unfoldable pub lines_of : Text → List Text
lines_of s = drop_last_empty (split_on 10 s)

abbrev add_to_word : Bool → ℕ → List Text → List Text
add_to_word true c ws = [] ∷ ws
add_to_word false c [] = (c ∷ []) ∷ []
add_to_word false c (w ∷ ws) = (c ∷ w) ∷ ws

abbrev drop_empty : List Text → List Text
drop_empty [] = []
drop_empty ([] ∷ ws) = drop_empty ws
drop_empty ((c ∷ w) ∷ ws) = (c ∷ w) ∷ drop_empty ws

unfoldable pub split_spaces : Text → List Text
split_spaces [] = [] ∷ []
split_spaces (c ∷ s) = add_to_word (is_space c) c (split_spaces s)

-- `line.split()`
unfoldable pub words_of : Text → List Text
words_of s = drop_empty (split_spaces s)

-- `p in s`
unfoldable pub contains : Text → Text → Bool
contains p [] = starts_with p []
contains p (c ∷ s) = let rest = contains p s in starts_with p (c ∷ s) || rest

-- What a line of the routes gives: no match, the interface, or the `IndexError` where `dev` is last.
pub data Route : Type 0 where
  other_line no_name : Route
  device : Text → Route

unfoldable pub after_dev : List Text → Route
after_dev [] = other_line
after_dev (p ∷ []) = if text_eq p (codes "dev") then no_name else other_line
after_dev (p ∷ q ∷ ps) =
    let rest = after_dev (q ∷ ps) in if text_eq p (codes "dev") then device q else rest

unfoldable pub route_of : List Text → Route
route_of [] = other_line
route_of (p ∷ ps) = if text_eq p (codes "default") then after_dev (p ∷ ps) else other_line

-- One round of the loop over the lines, with the rest of it; an uncaught exception is Python's exit
-- code 1.
abbrev pub egress_step : Route → Helper ℕ → Helper ℕ
egress_step other_line rest = rest
egress_step no_name rest = pure 1
egress_step (device iface) rest = do valid ← validate_host_iface iface; pure 0

unfoldable pub egress_of : List Text → Helper ℕ
egress_of [] = pure 1
egress_of (l ∷ ls) = egress_step (route_of (words_of l)) (egress_of ls)

-- The text after `# handle ` at the end of a line: digits, then spaces.
unfoldable pub all_spaces : Text → Bool
all_spaces [] = true
all_spaces (c ∷ s) = is_space c && all_spaces s

abbrev add_digit : ℕ → Option Text → Option Text
add_digit c none = none
add_digit c (some ds) = some (c ∷ ds)

unfoldable pub digits_then_spaces : Text → Option Text
digits_then_spaces [] = some []
digits_then_spaces (c ∷ s) =
    let rest = digits_then_spaces s in
    if is_digit c then add_digit c rest else if all_spaces (c ∷ s) then some [] else none

abbrev handle_here : Option Text → Option Text
handle_here none = none
handle_here (some s) = elim (digits_then_spaces s) [
  | none ↦ none
  | some [] ↦ none
  | some (d ∷ ds) ↦ some (d ∷ ds)
]

-- `re.search(r"# handle ([0-9]+)\s*$", line)`
unfoldable pub handle_of : Text → Option Text
handle_of [] = none
handle_of (c ∷ s) =
    let rest = handle_of s in
    elim (handle_here (strip_prefix (codes "# handle ") (c ∷ s))) [ none ↦ rest | some d ↦ some d ]

abbrev has_comment : List Text → Text → Bool
has_comment comments line =
    any_of (λ c. contains (codes "comment \"" ++ (c ++ (b'"' ∷ []))) line) comments

abbrev add_handle : Option Text → List Text → List Text
add_handle none hs = hs
add_handle (some d) hs = d ∷ hs

unfoldable pub handles_of : List Text → List Text → List Text
handles_of comments [] = []
handles_of comments (l ∷ ls) =
    let rest = handles_of comments ls in
    if has_comment comments l then add_handle (handle_of l) rest else rest

abbrev pub quoted : Text → Text
quoted s = b'"' ∷ (s ++ (b'"' ∷ []))

-- `_forward_rule_comments`
abbrev out_comment : Text → Text
out_comment bridge = codes "nova-ve " ++ (bridge ++ codes " forward-out")

abbrev in_comment : Text → Text
in_comment bridge = codes "nova-ve " ++ (bridge ++ codes " forward-in")

abbrev pub forward_rule_comments : Text → List Text
forward_rule_comments bridge = out_comment bridge ∷ in_comment bridge ∷ []

-- The two lists of `_forward_rule_specs`
abbrev pub forward_out_spec : Text → Text → Text → List Text
forward_out_spec bridge cidr egress =
    codes "iifname"
    ∷ bridge
    ∷ codes "oifname"
    ∷ egress
    ∷ codes "ip"
    ∷ codes "saddr"
    ∷ cidr
    ∷ codes "accept"
    ∷ codes "comment"
    ∷ quoted (out_comment bridge)
    ∷ []

abbrev pub forward_in_spec : Text → Text → Text → List Text
forward_in_spec bridge cidr egress =
    codes "iifname"
    ∷ egress
    ∷ codes "oifname"
    ∷ bridge
    ∷ codes "ip"
    ∷ codes "daddr"
    ∷ cidr
    ∷ codes "ct"
    ∷ codes "state"
    ∷ codes "established,related"
    ∷ codes "accept"
    ∷ codes "comment"
    ∷ quoted (in_comment bridge)
    ∷ []

abbrev nat_chain_name : Text → Text
nat_chain_name bridge = codes "nvc_" ++ bridge

abbrev forward_chain_name : Text → Text
forward_chain_name bridge = codes "nvf_" ++ bridge

-- `if rc != 0: return rc`
abbrev pub or_return : ℕ → Helper ℕ → Helper ℕ
or_return rc rest = if rc == 0 then rest else pure rc

module _ (h : Host) where
  abbrev pub run_nft : List Text → Helper ℕ
  run_nft args = run h (codes "nft" ∷ args)

  -- `_nft_quiet`: the exit code of a captured run
  abbrev pub nft_quiet : List Text → Helper ℕ
  nft_quiet args = do (rc, out) ← run_capture h (codes "nft" ∷ args); pure rc

  unfoldable pub cmd_default_egress : Helper ℕ
  cmd_default_egress = do
    (rc, out) ← run_capture h (codes "ip" ∷ codes "route" ∷ codes "show" ∷ codes "default" ∷ [])
    or_return rc (egress_of (lines_of out))

  unfoldable pub cmd_ipv4_forward_enable : Helper ℕ
  cmd_ipv4_forward_enable = do
    done ← call h (wrote_file (codes "/proc/sys/net/ipv4/ip_forward") (codes "1" ++ (10 ∷ [])))
    pure (if done then 0 else 1)

  -- The chain is flushed and deleted.
  abbrev pub drop_chain : Text → Text → Helper ℕ
  drop_chain table chain = do
    rc ← nft_quiet (codes "flush" ∷ codes "chain" ∷ codes "ip" ∷ table ∷ chain ∷ [])
    nft_quiet (codes "delete" ∷ codes "chain" ∷ codes "ip" ∷ table ∷ chain ∷ [])

  unfoldable pub cmd_nat_apply : Text → Text → Text → Helper ℕ
  cmd_nat_apply bridge cidr egress_iface = do
    b ← validate_bridge_name bridge
    c ← validate_network_cidr h cidr
    e ← validate_host_iface egress_iface
    r ← nft_quiet (codes "add" ∷ codes "table" ∷ codes "ip" ∷ codes "nova_ve" ∷ [])
    r' ← drop_chain (codes "nova_ve") (nat_chain_name b)
    rc ← run_nft (
        codes "add"
        ∷ codes "chain"
        ∷ codes "ip"
        ∷ codes "nova_ve"
        ∷ nat_chain_name b
        ∷ codes "{ type nat hook postrouting priority srcnat; policy accept; }"
        ∷ [])
    or_return rc (
        run_nft (
          codes "add"
          ∷ codes "rule"
          ∷ codes "ip"
          ∷ codes "nova_ve"
          ∷ nat_chain_name b
          ∷ codes "ip"
          ∷ codes "saddr"
          ∷ c
          ∷ codes "oifname"
          ∷ e
          ∷ codes "masquerade"
          ∷ codes "comment"
          ∷ quoted (codes "nova-ve " ++ b)
          ∷ []))

  unfoldable pub cmd_nat_remove : Text → Helper ℕ
  cmd_nat_remove bridge = do
    b ← validate_bridge_name bridge
    r ← drop_chain (codes "nova_ve") (nat_chain_name b)
    pure 0

  -- `_docker_user_chain_exists`
  abbrev pub docker_user_chain_exists : Helper Bool
  docker_user_chain_exists = do
    rc ←
        nft_quiet
          (codes "list" ∷ codes "chain" ∷ codes "ip" ∷ codes "filter" ∷ codes "DOCKER-USER" ∷ [])
    pure (rc == 0)

  unfoldable pub delete_handles : List Text → Helper ℕ
  delete_handles [] = pure 0
  delete_handles (d ∷ ds) = do
    rc ← run_nft (
        codes "delete"
        ∷ codes "rule"
        ∷ codes "ip"
        ∷ codes "filter"
        ∷ codes "DOCKER-USER"
        ∷ codes "handle"
        ∷ d
        ∷ [])
    or_return rc (delete_handles ds)

  -- `_nft_delete_rules_by_comment("ip", "filter", "DOCKER-USER", comments)`
  unfoldable pub nft_delete_rules_by_comment : List Text → Helper ℕ
  nft_delete_rules_by_comment comments = do
    (rc, out) ← run_capture h (
        codes "nft"
        ∷ codes "-a"
        ∷ codes "list"
        ∷ codes "chain"
        ∷ codes "ip"
        ∷ codes "filter"
        ∷ codes "DOCKER-USER"
        ∷ [])
    or_return rc (delete_handles (handles_of comments (lines_of out)))

  -- `for spec in …: rc = _nft(*command, *spec)`, left at the first failure
  unfoldable pub add_rules : List Text → List (List Text) → Helper ℕ
  add_rules command [] = pure 0
  add_rules command (spec ∷ specs) = do
    rc ← run_nft (command ++ spec)
    or_return rc (add_rules command specs)

  -- With Docker the rules go before those of its chain, each before the last one inserted.
  unfoldable pub forward_by_docker : Text → Text → Text → Helper ℕ
  forward_by_docker b c e = do
    rc ← nft_delete_rules_by_comment (forward_rule_comments b)
    or_return rc (
        add_rules
          (codes "insert" ∷ codes "rule" ∷ codes "ip" ∷ codes "filter" ∷ codes "DOCKER-USER" ∷ [])
          (forward_in_spec b c e ∷ forward_out_spec b c e ∷ []))

  -- Without it they go to a table of the helper's own.
  unfoldable pub forward_by_table : Text → Text → Text → Helper ℕ
  forward_by_table b c e = do
    r ← nft_quiet (codes "add" ∷ codes "table" ∷ codes "ip" ∷ codes "nova_ve_filter" ∷ [])
    r' ← drop_chain (codes "nova_ve_filter") (forward_chain_name b)
    rc ← run_nft (
        codes "add"
        ∷ codes "chain"
        ∷ codes "ip"
        ∷ codes "nova_ve_filter"
        ∷ forward_chain_name b
        ∷ codes "{ type filter hook forward priority filter; policy accept; }"
        ∷ [])
    or_return rc (
        add_rules
          (codes "add"
            ∷ codes "rule"
            ∷ codes "ip"
            ∷ codes "nova_ve_filter"
            ∷ forward_chain_name b
            ∷ [])
          (forward_out_spec b c e ∷ forward_in_spec b c e ∷ []))

  unfoldable pub cmd_forward_apply : Text → Text → Text → Helper ℕ
  cmd_forward_apply bridge cidr egress_iface = do
    b ← validate_bridge_name bridge
    c ← validate_network_cidr h cidr
    e ← validate_host_iface egress_iface
    docker ← docker_user_chain_exists
    if docker then forward_by_docker b c e else forward_by_table b c e

  -- The optional arguments are checked where both are given and not empty.
  abbrev pub check_optional : Option Text → Option Text → Helper (Unit {0})
  check_optional (some (c ∷ cidr)) (some (d ∷ egress)) = do
    validate_network_cidr h (c ∷ cidr) >>= λ r. pure tt
    validate_host_iface (d ∷ egress) >>= λ r. pure tt
  check_optional _ _ = pure tt

  unfoldable pub cmd_forward_remove : Text → Option Text → Option Text → Helper ℕ
  cmd_forward_remove bridge cidr egress_iface = do
    b ← validate_bridge_name bridge
    check_optional cidr egress_iface
    docker ← docker_user_chain_exists
    rc ← if docker then nft_delete_rules_by_comment (forward_rule_comments b) else pure 0
    or_return rc (drop_chain (codes "nova_ve_filter") (forward_chain_name b) >>= λ r. pure 0)
