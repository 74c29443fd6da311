-- ===== src/NetHelper/Confined/NatVerbs.antt =====
-- The verbs for the way out of a lab keep to the policy of the helper.
use nova_ve.Prelude.{ℕ, refl, inl, Option, none, some, List, [], ◌∷◌, ◌++◌, Text, ◌==◌}
use nova_ve.NetHelper.Checks.{Host, Helper, Effect, pure}
use nova_ve.NetHelper.Nat.{
  Route, other_line, no_name, device, egress_of, egress_step, lines_of, handles_of, or_return,
  run_nft, nft_quiet, drop_chain, docker_user_chain_exists, delete_handles,
  nft_delete_rules_by_comment, add_rules, forward_by_docker, forward_by_table, check_optional,
  forward_rule_comments, cmd_ipv4_forward_enable, cmd_nat_apply, cmd_nat_remove, cmd_forward_apply,
  cmd_forward_remove,
}
use nova_ve.NetHelper.Verbs.{Verb}
use nova_ve.NetHelper.Hoare.{
  IsCheck, IsAction, IsGuarded, bind-IsCheck, bind-IsAction, bind-IsGuarded, pure-IsCheck,
  pure-IsAction, if-IsAction, if-IsCheck, IsAction-IsGuarded, run-IsAction, run_capture-IsAction,
  call-IsAction,
}
use nova_ve.NetHelper.Policy.{IsAllowed, nft, nft_output}
use nova_ve.NetHelper.Validators.{
  Anything, IsBridge-IsCheck, host_iface-IsCheck, network_cidr-IsCheck,
}

egress_step-IsCheck :
    (r : Route) (m : Helper ℕ) → IsCheck Anything m → IsCheck Anything (egress_step r m)
egress_step-IsCheck other_line m hm = hm
egress_step-IsCheck no_name m hm = pure-IsCheck 1 tt
egress_step-IsCheck (device iface) m hm =
    bind-IsCheck _ (host_iface-IsCheck iface) λ s u. pure-IsCheck 0 tt

-- The lines of the routes are only read.
pub egress_of-IsCheck : (ls : List Text) → IsCheck Anything (egress_of ls)
unfolding egress_of
egress_of-IsCheck [] = pure-IsCheck 1 tt
egress_of-IsCheck (l ∷ ls) = egress_step-IsCheck _ _ (egress_of-IsCheck ls)

pub or_return-IsCheck :
    (rc : ℕ) (m : Helper ℕ) → IsCheck Anything m → IsCheck Anything (or_return rc m)
or_return-IsCheck rc m hm = if-IsCheck (rc == 0) m (pure rc) hm (pure-IsCheck rc tt)

or_return-IsAction :
    {G : Effect → Type 0} (rc : ℕ) (m : Helper ℕ) → IsAction G m → IsAction G (or_return rc m)
or_return-IsAction rc m hm = if-IsAction (rc == 0) m (pure rc) hm (pure-IsAction rc)

module _ (h : Host) (v : Verb) where
  abbrev IsActing {ℓ} : {A : Type ℓ} → Helper A → Type 0
  IsActing m = IsAction (IsAllowed h v) m

  run_nft-IsAction : (argv : List Text) → IsActing (run_nft h argv)
  run_nft-IsAction argv = run-IsAction h _ (nft argv)

  nft_quiet-IsAction : (argv : List Text) → IsActing (nft_quiet h argv)
  nft_quiet-IsAction argv =
      bind-IsAction _ (run_capture-IsAction h _ (nft_output argv)) λ a. pure-IsAction a.0

  drop_chain-IsAction : (table chain : Text) → IsActing (drop_chain h table chain)
  drop_chain-IsAction table chain = bind-IsAction _ (nft_quiet-IsAction _) λ r. nft_quiet-IsAction _

  delete_handles-IsAction : (hs : List Text) → IsActing (delete_handles h hs)
  unfolding delete_handles
  delete_handles-IsAction [] = pure-IsAction 0
  delete_handles-IsAction (d ∷ ds) =
      bind-IsAction _ (run_nft-IsAction _)
        λ rc. or_return-IsAction rc _ (delete_handles-IsAction ds)

  by_comment-IsAction : (comments : List Text) → IsActing (nft_delete_rules_by_comment h comments)
  unfolding nft_delete_rules_by_comment
  by_comment-IsAction comments =
      bind-IsAction _ (run_capture-IsAction h _ (nft_output _))
        λ a. or_return-IsAction a.0 _ (delete_handles-IsAction (handles_of comments (lines_of a.1)))

  add_rules-IsAction :
      (argv : List Text) (specs : List (List Text)) → IsActing (add_rules h (argv) specs)
  unfolding add_rules
  add_rules-IsAction argv [] = pure-IsAction 0
  add_rules-IsAction argv (spec ∷ specs) =
      bind-IsAction _ (run_nft-IsAction (argv ++ spec))
        λ rc. or_return-IsAction rc _ (add_rules-IsAction argv specs)

  docker_exists-IsAction : IsActing (docker_user_chain_exists h)
  docker_exists-IsAction = bind-IsAction _ (nft_quiet-IsAction _) λ rc. pure-IsAction (rc == 0)

  by_docker-IsAction : (b c e : Text) → IsActing (forward_by_docker h b c e)
  unfolding forward_by_docker
  by_docker-IsAction b c e =
      bind-IsAction _ (by_comment-IsAction (forward_rule_comments b))
        λ rc. or_return-IsAction rc _ (add_rules-IsAction _ _)

  by_table-IsAction : (b c e : Text) → IsActing (forward_by_table h b c e)
  unfolding forward_by_table
  by_table-IsAction b c e = bind-IsAction _ (nft_quiet-IsAction _) λ r.
      bind-IsAction _ (drop_chain-IsAction _ _) λ s.
        bind-IsAction _ (run_nft-IsAction _) λ rc. or_return-IsAction rc _ (add_rules-IsAction _ _)

  pub cmd_ipv4_forward_enable-IsGuarded : IsGuarded (IsAllowed h v) (cmd_ipv4_forward_enable h)
  unfolding cmd_ipv4_forward_enable
  cmd_ipv4_forward_enable-IsGuarded =
      IsAction-IsGuarded (bind-IsAction _ (call-IsAction h _ (inl refl)) λ d. pure-IsAction _)

  pub cmd_nat_apply-IsGuarded :
      (bridge cidr egress : Text) → IsGuarded (IsAllowed h v) (cmd_nat_apply h bridge cidr egress)
  unfolding cmd_nat_apply
  cmd_nat_apply-IsGuarded bridge cidr egress = bind-IsGuarded _ (IsBridge-IsCheck bridge) λ b p.
      bind-IsGuarded _ (network_cidr-IsCheck h cidr) λ c q.
        bind-IsGuarded _ (host_iface-IsCheck egress) λ e u. IsAction-IsGuarded (
          bind-IsAction _ (nft_quiet-IsAction _) λ r. bind-IsAction _ (drop_chain-IsAction _ _) λ s.
            bind-IsAction _ (run_nft-IsAction _) λ rc. or_return-IsAction rc _ (run_nft-IsAction _))

  pub cmd_nat_remove-IsGuarded :
      (bridge : Text) → IsGuarded (IsAllowed h v) (cmd_nat_remove h bridge)
  unfolding cmd_nat_remove
  cmd_nat_remove-IsGuarded bridge =
      bind-IsGuarded _ (IsBridge-IsCheck bridge)
        λ b p. IsAction-IsGuarded (bind-IsAction _ (drop_chain-IsAction _ _) λ s. pure-IsAction 0)

  pub cmd_forward_apply-IsGuarded :
      (bridge cidr egress : Text)
      → IsGuarded (IsAllowed h v) (cmd_forward_apply h bridge cidr egress)
  unfolding cmd_forward_apply
  cmd_forward_apply-IsGuarded bridge cidr egress = bind-IsGuarded _ (IsBridge-IsCheck bridge) λ b p.
      bind-IsGuarded _ (network_cidr-IsCheck h cidr) λ c q.
        bind-IsGuarded _ (host_iface-IsCheck egress) λ e u. IsAction-IsGuarded (
          bind-IsAction _ docker_exists-IsAction
            λ docker. if-IsAction docker _ _ (by_docker-IsAction b c e) (by_table-IsAction b c e))

  check_optional-IsCheck :
      (cidr egress : Option Text) → IsCheck Anything (check_optional h cidr egress)
  check_optional-IsCheck (some (c ∷ cidr)) (some (d ∷ egress)) =
      bind-IsCheck {Q = Anything} _
        (bind-IsCheck _ (network_cidr-IsCheck h (c ∷ cidr)) λ r q. pure-IsCheck tt tt)
        λ u w. bind-IsCheck _ (host_iface-IsCheck (d ∷ egress)) λ r q. pure-IsCheck tt tt
  check_optional-IsCheck none egress = pure-IsCheck tt tt
  check_optional-IsCheck (some []) egress = pure-IsCheck tt tt
  check_optional-IsCheck (some (c ∷ cidr)) none = pure-IsCheck tt tt
  check_optional-IsCheck (some (c ∷ cidr)) (some []) = pure-IsCheck tt tt

  pub cmd_forward_remove-IsGuarded :
      (bridge : Text) (cidr egress : Option Text)
      → IsGuarded (IsAllowed h v) (cmd_forward_remove h bridge cidr egress)
  unfolding cmd_forward_remove
  cmd_forward_remove-IsGuarded bridge cidr egress =
      bind-IsGuarded _ (IsBridge-IsCheck bridge) λ b p.
        bind-IsGuarded _ (check_optional-IsCheck cidr egress) λ u w. IsAction-IsGuarded (
          bind-IsAction _ docker_exists-IsAction λ docker.
            bind-IsAction _ (if-IsAction docker _ _ (by_comment-IsAction _) (pure-IsAction 0)) λ rc.
              or_return-IsAction rc _
                (bind-IsAction _ (drop_chain-IsAction _ _) λ s. pure-IsAction 0))
