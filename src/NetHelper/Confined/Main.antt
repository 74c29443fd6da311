-- ===== src/NetHelper/Confined/Main.antt =====
-- The helper as a whole keeps to its policy, and a refused command line has no effect.
use nova_ve.Prelude.{
  ℕ, ◌≡◌, refl, inl, inr, ◌⊎◌, List, [], ◌∷◌, Text, codes, All, subst, sym, ap, ◌∙◌,
}
use nova_ve.NetHelper.Checks.{
  Host, Effect, captured, Outcome, finished, invalid, crashed, ◌>>=◌, run_capture,
}
use nova_ve.NetHelper.Nat.{cmd_default_egress, lines_of}
use nova_ve.NetHelper.Verbs.{
  Verb, handler, main, exit_of, bridge_add, bridge_del, tap_add, tap_del, link_del, veth_pair_add,
  link_master, link_master_host, link_set_nomaster, link_up, link_netns, bridge_addr_add,
  default_egress, ipv4_forward_enable, nat_apply, forward_apply, nat_remove, forward_remove,
  dnsmasq_start, dnsmasq_stop, link_set_name_in_netns, addr_add_in_netns, addr_up_in_netns,
  read_iface_mac, console_proxy_start, console_proxy_stop, qemu_process_signal,
}
use nova_ve.NetHelper.Hoare.{IsGuarded, Checked, Ended}
use nova_ve.NetHelper.Policy.{IsAllowed, default_route}
use nova_ve.NetHelper.Validators.{Anything}
use nova_ve.NetHelper.Confined.LinkVerbs.{
  cmd_bridge_add-IsGuarded, cmd_bridge_del-IsGuarded, cmd_tap_add-IsGuarded, cmd_tap_del-IsGuarded,
  cmd_link_del-IsGuarded, cmd_veth_pair_add-IsGuarded, cmd_link_master-IsGuarded,
  cmd_link_set_nomaster-IsGuarded, cmd_link_up-IsGuarded, cmd_link_netns-IsGuarded,
  cmd_bridge_addr_add-IsGuarded, cmd_link_set_name_in_netns-IsGuarded,
  cmd_addr_add_in_netns-IsGuarded, cmd_addr_up_in_netns-IsGuarded, cmd_read_iface_mac-IsGuarded,
  cmd_link_master_host-IsGuarded,
}
use nova_ve.NetHelper.Confined.NatVerbs.{
  cmd_nat_apply-IsGuarded, cmd_forward_apply-IsGuarded, cmd_nat_remove-IsGuarded,
  cmd_forward_remove-IsGuarded, cmd_ipv4_forward_enable-IsGuarded, or_return-IsCheck,
  egress_of-IsCheck,
}
use nova_ve.NetHelper.Confined.ProcessVerbs.{
  cmd_dnsmasq_start-IsGuarded, cmd_dnsmasq_stop-IsGuarded, cmd_console_proxy_start-IsGuarded,
  cmd_console_proxy_stop-IsGuarded, cmd_qemu_process_signal-IsGuarded,
}

abbrev route_query : Effect
route_query = captured (codes "ip" ∷ codes "route" ∷ codes "show" ∷ codes "default" ∷ [])

-- The effects of a command line that the validators refuse: the query of `default-egress`, whose
-- answer is validated, and none of any other verb.
abbrev pub refused_effects : Verb → List Effect
refused_effects default_egress = route_query ∷ []
refused_effects _ = []

module _ (h : Host) where
  handler-IsGuarded :
      (v : Verb)
      → (v ≡ default_egress) ⊎ ((refused_effects v ≡ []) × IsGuarded (IsAllowed h v) (handler h v))
  unfolding handler
  handler-IsGuarded (bridge_add name) =
      inr (refl, cmd_bridge_add-IsGuarded h (bridge_add name) name)
  handler-IsGuarded (bridge_del name) =
      inr (refl, cmd_bridge_del-IsGuarded h (bridge_del name) name)
  handler-IsGuarded (tap_add name) = inr (refl, cmd_tap_add-IsGuarded h (tap_add name) name)
  handler-IsGuarded (tap_del name) = inr (refl, cmd_tap_del-IsGuarded h (tap_del name) name)
  handler-IsGuarded (link_del name) = inr (refl, cmd_link_del-IsGuarded h (link_del name) name)
  handler-IsGuarded (veth_pair_add a b) =
      inr (refl, cmd_veth_pair_add-IsGuarded h (veth_pair_add a b) a b)
  handler-IsGuarded (link_master a b) =
      inr (refl, cmd_link_master-IsGuarded h (link_master a b) a b)
  handler-IsGuarded (link_set_nomaster a) =
      inr (refl, cmd_link_set_nomaster-IsGuarded h (link_set_nomaster a) a)
  handler-IsGuarded (link_up a) = inr (refl, cmd_link_up-IsGuarded h (link_up a) a)
  handler-IsGuarded (link_netns a b) = inr (refl, cmd_link_netns-IsGuarded h (link_netns a b) a b)
  handler-IsGuarded (bridge_addr_add a b) =
      inr (refl, cmd_bridge_addr_add-IsGuarded h (bridge_addr_add a b) a b)
  handler-IsGuarded (link_set_name_in_netns p a b) =
      inr (refl, cmd_link_set_name_in_netns-IsGuarded h (link_set_name_in_netns p a b) p a b)
  handler-IsGuarded (addr_add_in_netns p a b) =
      inr (refl, cmd_addr_add_in_netns-IsGuarded h (addr_add_in_netns p a b) p a b)
  handler-IsGuarded (addr_up_in_netns p a) =
      inr (refl, cmd_addr_up_in_netns-IsGuarded h (addr_up_in_netns p a) p a)
  handler-IsGuarded (read_iface_mac p a) =
      inr (refl, cmd_read_iface_mac-IsGuarded h (read_iface_mac p a) p a)
  handler-IsGuarded (nat_apply a b c) =
      inr (refl, cmd_nat_apply-IsGuarded h (nat_apply a b c) a b c)
  handler-IsGuarded (forward_apply a b c) =
      inr (refl, cmd_forward_apply-IsGuarded h (forward_apply a b c) a b c)
  handler-IsGuarded (nat_remove a) = inr (refl, cmd_nat_remove-IsGuarded h (nat_remove a) a)
  handler-IsGuarded (forward_remove a b c) =
      inr (refl, cmd_forward_remove-IsGuarded h (forward_remove a b c) a b c)
  handler-IsGuarded (dnsmasq_start a b c d) =
      inr (refl, cmd_dnsmasq_start-IsGuarded h (dnsmasq_start a b c d) a b c d)
  handler-IsGuarded (dnsmasq_stop a) = inr (refl, cmd_dnsmasq_stop-IsGuarded h (dnsmasq_stop a) a)
  handler-IsGuarded (console_proxy_start a b c) =
      inr (refl, cmd_console_proxy_start-IsGuarded h (console_proxy_start a b c) a b c)
  handler-IsGuarded (console_proxy_stop a) =
      inr (refl, cmd_console_proxy_stop-IsGuarded h (console_proxy_stop a) a)
  handler-IsGuarded (qemu_process_signal a b) =
      inr (refl, cmd_qemu_process_signal-IsGuarded h (qemu_process_signal a b) a b)
  handler-IsGuarded (link_master_host a b) = inr (refl, cmd_link_master_host-IsGuarded h a b)
  handler-IsGuarded ipv4_forward_enable =
      inr (refl, cmd_ipv4_forward_enable-IsGuarded h ipv4_forward_enable)
  handler-IsGuarded default_egress = inl refl

  default_egress-Checked : Checked Anything (route_query ∷ []) (handler h default_egress [])
  unfolding handler cmd_default_egress run_capture ◌>>=◌
  default_egress-Checked =
      (or_return-IsCheck _ _ (egress_of-IsCheck (lines_of _))).checked (route_query ∷ [])

  abbrev trace_of : Outcome ℕ → List Effect
  trace_of (finished rc t) = t
  trace_of (invalid label t) = t
  trace_of (crashed t) = t

  Ended-IsAllowed :
      (v : Verb) (o : Outcome ℕ) → Ended (IsAllowed h v) [] o → All (IsAllowed h v) (trace_of o)
  Ended-IsAllowed v (finished rc t) g = g
  Ended-IsAllowed v (invalid label t) e = subst (All (IsAllowed h v)) (sym e) tt
  Ended-IsAllowed v (crashed t) g = g

  Checked-trace : (t : List Effect) (o : Outcome ℕ) → Checked Anything t o → trace_of o ≡ t
  Checked-trace t (finished rc t') (e, u) = e
  Checked-trace t (invalid label t') e = e
  Checked-trace t (crashed t') e = absurd e

  exit_of_trace : (o : Outcome ℕ) → (exit_of h o).1 ≡ trace_of o
  exit_of_trace (finished rc t) = refl
  exit_of_trace (invalid label t) = refl
  exit_of_trace (crashed t) = refl

  trace-IsAllowed : (v : Verb) → All (IsAllowed h v) (trace_of (handler h v []))
  trace-IsAllowed v = elim (handler-IsGuarded v) [
    | inl d ↦
        subst (λ w. All (IsAllowed h w) (trace_of (handler h w []))) (sym d)
          (subst (All (IsAllowed h default_egress)) (sym (Checked-trace _ _ default_egress-Checked))
            (default_route, tt))
    | inr (d, g) ↦ Ended-IsAllowed v (handler h v []) (g.ended [] tt)
  ]

  -- Whatever the verb and its arguments, every effect of the helper is one that the policy allows:
  -- `ip` only on interfaces named by nova-ve, a host bridge only as the master that
  -- `link-master-host` sets, `nsenter` and moves between namespaces only for a pid that is
  -- registered and looks like a container or QEMU, `os.killpg` only for a registered QEMU process
  -- with its own QMP socket, `os.kill` only for a console proxy or for the number in the pid file of
  -- a bridge named by nova-ve, where that is no other program than dnsmasq as far as /proc tells or
  -- is negative, and a proxy only on the ports from 1024.
  pub main-IsAllowed : (v : Verb) → All (IsAllowed h v) (main h v).1
  unfolding main
  main-IsAllowed v =
      subst (All (IsAllowed h v)) (sym (exit_of_trace (handler h v []))) (trace-IsAllowed v)

  Ended-refused :
      (G : Effect → Type 0) (label : Text) (t : List Effect) (o : Outcome ℕ)
      → o ≡ invalid label t
      → Ended G [] o
      → t ≡ []
  Ended-refused G label t (finished rc t') e g = cc
  Ended-refused G label t (invalid label' t') e g = cc
  Ended-refused G label t (crashed t') e g = cc

  default_refused :
      (label : Text) (t : List Effect)
      → handler h default_egress [] ≡ invalid label t
      → t ≡ route_query ∷ []
  default_refused label t e = sym (ap trace_of e) ∙ Checked-trace _ _ default_egress-Checked

  -- A command line that a validator or the check of a pid refuses leaves no effect, except that
  -- `default-egress` has asked for the default route.
  pub handler-refused :
      (v : Verb) (label : Text) (t : List Effect)
      → handler h v [] ≡ invalid label t
      → t ≡ refused_effects v
  handler-refused v label t e = elim (handler-IsGuarded v) [
    | inl d ↦
        subst (λ w. handler h w [] ≡ invalid label t → t ≡ refused_effects w) (sym d)
          (default_refused label t) e
    | inr (d, g) ↦ Ended-refused (IsAllowed h v) label t (handler h v []) e (g.ended [] tt) ∙ sym d
  ]
