-- ===== src/NetHelper/Validators.antt =====
-- What the validators and the pid checks of NetHelper tell about the value they let pass.
use nova_ve.Prelude.{
  ℕ, ◌≡◌, refl, ◌≤◌, true, false, ◌||◌, not, Option, none, some, Text, ltb, ◌==◌, arith,
}
use nova_ve.Prelude.Decimal.{value_from}
use nova_ve.RuntimePids.{PidEntry}
use nova_ve.NetHelper.Patterns.{matches, tap_pattern, veth_pattern}
use nova_ve.NetHelper.Checks.{
  Host, validate_bridge_name, validate_host_bridge_name, validate_tap_name, validate_veth_name,
  validate_iface_name, validate_netns_iface, validate_host_iface, validate_cidr,
  validate_network_cidr, validate_ipv4, is_owned_name,
}
use nova_ve.NetHelper.Pids.{
  int_of, validate_pid_shape, registry_lookup, cgroup_or_comm_matches, entry_or_raise,
  authorize_pid_entry, authorize_pid,
}
use nova_ve.NetHelper.Processes.{validate_port}
use nova_ve.NetHelper.Hoare.{
  IsCheck, bind-IsCheck, pure-IsCheck, raise-IsCheck, raise_if-IsCheck, some_or_raise-IsCheck,
  check_regex-IsCheck, test-IsCheck, checked_weaken,
}
use nova_ve.NetHelper.Policy.{IsAuthorizedAs, IsAuthorized, IsBridge, IsOwned, IsHostBridge, IsPort}

pub IsBridge-IsCheck : (name : Text) → IsCheck IsBridge (validate_bridge_name name)
unfolding validate_bridge_name
IsBridge-IsCheck name = check_regex-IsCheck name _ _

pub IsHostBridge-IsCheck : (name : Text) → IsCheck IsHostBridge (validate_host_bridge_name name)
unfolding validate_host_bridge_name
IsHostBridge-IsCheck name = check_regex-IsCheck name _ _

pub iface-IsCheck : (label name : Text) → IsCheck IsOwned (validate_iface_name label name)
unfolding validate_iface_name
iface-IsCheck label name = test-IsCheck is_owned_name name label

pub tap-IsCheck : (name : Text) → IsCheck IsOwned (validate_tap_name name)
unfolding validate_tap_name
tap-IsCheck name =
    checked_weaken (λ s e. let h : matches tap_pattern s ≡ true = e in ground arith)
      (check_regex-IsCheck name _ _)

pub veth-IsCheck : (label name : Text) → IsCheck IsOwned (validate_veth_name label name)
unfolding validate_veth_name
veth-IsCheck label name =
    checked_weaken (λ s e. let h : matches veth_pattern s ≡ true = e in ground arith)
      (check_regex-IsCheck name _ _)

abbrev pub Anything {ℓ} : {A : Type ℓ} → A → Type 0
Anything a = Unit

pub netns-IsCheck : (name : Text) → IsCheck Anything (validate_netns_iface name)
unfolding validate_netns_iface
netns-IsCheck name = checked_weaken (λ s e. tt) (check_regex-IsCheck name _ _)

pub host_iface-IsCheck : (name : Text) → IsCheck Anything (validate_host_iface name)
unfolding validate_host_iface
host_iface-IsCheck name = checked_weaken (λ s e. tt) (check_regex-IsCheck name _ _)

pub validate_port-IsCheck : (label value : Text) → IsCheck (IsPort 1) (validate_port label value)
unfolding validate_port
validate_port-IsCheck label value =
    let n = value_from 0 value in
    bind-IsCheck _ (raise_if-IsCheck _ _) λ u d. bind-IsCheck _ (raise_if-IsCheck _ _) λ w e.
      pure-IsCheck n (let f : (ltb n 1 || ltb 65535 n) ≡ false = e in (ground arith, ground arith))

module _ (h : Host) where
  pub cidr-IsCheck : (value : Text) → IsCheck Anything (validate_cidr h value)
  unfolding validate_cidr
  cidr-IsCheck value = bind-IsCheck _ (some_or_raise-IsCheck _ _) λ a d.
      bind-IsCheck _ (raise_if-IsCheck _ _)
        λ u e. bind-IsCheck _ (raise_if-IsCheck _ _) λ w f. pure-IsCheck _ tt

  pub network_cidr-IsCheck : (value : Text) → IsCheck Anything (validate_network_cidr h value)
  unfolding validate_network_cidr
  network_cidr-IsCheck value = checked_weaken (λ s e. tt) (some_or_raise-IsCheck _ _)

  pub ipv4-IsCheck : (label value : Text) → IsCheck Anything (validate_ipv4 h label value)
  unfolding validate_ipv4
  ipv4-IsCheck label value = checked_weaken (λ s e. tt) (some_or_raise-IsCheck _ _)

  pid_shape-IsCheck : (value : Text) → IsCheck (λ p. 10 ≤ p) (validate_pid_shape value)
  unfolding validate_pid_shape
  pid_shape-IsCheck value =
      let n = int_of value in
      bind-IsCheck _ (raise_if-IsCheck _ _) λ u d.
        bind-IsCheck _ (raise_if-IsCheck _ _)
          λ w e. pure-IsCheck n (let f : (ltb n 10 || n == 1) ≡ false = e in ground arith)

  -- The pair that is let pass is an authorized pid and its entry.
  abbrev pub Authorizes : ℕ × PidEntry → Type 0
  Authorizes (p, e) = IsAuthorizedAs h p e

  entry-IsCheck :
      (p : ℕ) (o : Option PidEntry)
      → 10 ≤ p
      → registry_lookup h p ≡ o
      → IsCheck Authorizes (entry_or_raise h p o)
  entry-IsCheck p none lo found = raise-IsCheck _
  entry-IsCheck p (some e) lo found = bind-IsCheck _ (raise_if-IsCheck _ _) λ u d.
      pure-IsCheck _
        (lo, found, let f : not (cgroup_or_comm_matches h p) ≡ false = d in ground arith)

  pub authorize_pid_entry-IsCheck :
      (value : Text) → IsCheck Authorizes (authorize_pid_entry h value)
  unfolding authorize_pid_entry
  authorize_pid_entry-IsCheck value =
      bind-IsCheck _ (pid_shape-IsCheck value) λ p lo. entry-IsCheck p (registry_lookup h p) lo refl

  pub authorize_pid-IsCheck : (value : Text) → IsCheck (IsAuthorized h) (authorize_pid h value)
  unfolding authorize_pid
  authorize_pid-IsCheck value =
      bind-IsCheck _ (authorize_pid_entry-IsCheck value) λ a d. pure-IsCheck a.0 (a.1, d)
