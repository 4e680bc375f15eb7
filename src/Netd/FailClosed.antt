-- ===== src/Netd/FailClosed.antt =====
-- netd fails closed: only a transition that succeeds leaves another table than the kill switch.
use xanh_tab.Prelude.{
  suc, ◌≡◌, refl, ◌∙◌, subst, inl, inr, Bool, true, false, arith, Option, none, some, List, [], ◌∷◌,
  All, Option-cases,
}
use xanh_tab.Text.{Text}
use xanh_tab.Model.{EgressMode, direct, tor, warp, wire_guard, proxy}
use xanh_tab.Fallible.{Fallible, done, bail, Fallible-cases}
use xanh_tab.Egress.{SocketAddr}
use xanh_tab.Netd.Rules.{Policy, held, policy_of, script_of}
use xanh_tab.Netd.Plans.{
  NetworkConfig, CommandSpec, wireguard_setup_plan, wireguard_teardown_plan, kill_switch_plan,
  nft_transaction, active_policy_plan,
}
use xanh_tab.Netd.Daemon.{
  Host, Node, Outcome, success, failure, broken, load, ◌>>=◌, run_plan, judge, execute, check_rules,
  teardown_wireguard, endpoint_of, bring_up, probe_proxy, activate, transition_inner, engage,
}

-- A command that gives `nft` no script.
abbrev Scriptless : CommandSpec → Type 0
Scriptless spec = spec.stdin ≡ none

load-Scriptless :
    (o : Outcome) (spec : CommandSpec) (loaded : Option Text)
    → Scriptless spec
    → load o spec loaded ≡ loaded
load-Scriptless success spec loaded h = rw h refl
load-Scriptless (failure _) spec loaded h = refl
load-Scriptless (broken _) spec loaded h = refl

module _ (host : Host) (config : NetworkConfig) where
  run_plan-Scriptless :
      (plan : List CommandSpec) (a i : Bool) (n : Node)
      → All Scriptless plan
      → (run_plan host config plan a i n).1.loaded ≡ n.loaded
  unfolding run_plan
  run_plan-Scriptless [] a i n h = refl
  run_plan-Scriptless (spec ∷ plan) a i n h =
      let n' = (execute host config spec n).1 in
      ground (
        arith,
        load-Scriptless (host.outcome n.tick spec) spec n.loaded h.0,
        run_plan-Scriptless plan a i n' h.1,
      )

  check_rules-loaded :
      (ipv6 : Bool) (n : Node) → (check_rules host config ipv6 n).1.loaded ≡ n.loaded
  unfolding check_rules
  check_rules-loaded ipv6 n = ground arith

  pub teardown-loaded : (n : Node) → (teardown_wireguard host config n).1.loaded ≡ n.loaded
  unfolding teardown_wireguard check_rules
  teardown-loaded n = ground (
    arith,
    run_plan-Scriptless (wireguard_teardown_plan config) false true n
        (unfold wireguard_teardown_plan in (refl, (refl, (refl, (refl, (refl, tt)))))),
  )

  endpoint_of-loaded :
      (mode : EgressMode) (n : Node) → (endpoint_of host config mode n).1.loaded ≡ n.loaded
  unfolding endpoint_of
  endpoint_of-loaded direct n = refl
  endpoint_of-loaded wire_guard n = refl
  endpoint_of-loaded tor n = ground arith
  endpoint_of-loaded warp n = ground arith
  endpoint_of-loaded proxy n = ground arith

  bring_up-loaded :
      (mode : EgressMode) (n : Node) → (bring_up host config mode n).1.loaded ≡ n.loaded
  unfolding bring_up
  bring_up-loaded direct n = refl
  bring_up-loaded tor n = refl
  bring_up-loaded warp n = refl
  bring_up-loaded proxy n = refl
  bring_up-loaded wire_guard n = ground (
    arith,
    run_plan-Scriptless (wireguard_setup_plan config) false false (record n { tick = suc n.tick })
        (unfold wireguard_setup_plan in (refl, (refl, (refl, (refl, (refl, (refl, tt))))))),
  )

  probe_proxy-loaded :
      (endpoint : Option SocketAddr) (n : Node)
      → (probe_proxy host config endpoint n).1.loaded ≡ n.loaded
  unfolding probe_proxy
  probe_proxy-loaded none n = refl
  probe_proxy-loaded (some endpoint) n = refl

  -- The last command of a plan is a transaction: it is loaded if the plan succeeds, and only then.
  abbrev pub script : Policy → Text
  script policy = script_of host.print_ip config.browser_uid policy

  transaction-loaded :
      (policy : Policy) (a : Bool) (n : Node)
      → let (r, n') =
          run_plan host config (nft_transaction host.print_ip config policy ∷ []) a false n in
        n'.loaded ≡ (elim r [ done _ ↦ some (script policy) | bail _ ↦ n.loaded ])
  unfolding run_plan judge nft_transaction
  transaction-loaded policy a n = ground arith

  pub engage-loaded :
      (n : Node)
      → let (r, n') = engage host config n in
        n'.loaded ≡ (elim r [ done _ ↦ some (script held) | bail _ ↦ n.loaded ])
  unfolding kill_switch_plan run_plan judge nft_transaction
  engage-loaded n = ground arith

  -- The table behind a change to a mode: what it was where the change failed, and otherwise the
  -- script of the mode's policy.
  abbrev pub Changed : {A : Type 0} → EgressMode → Option Text → Fallible A → Option Text → Type 0
  Changed mode before (bail _) after = after ≡ before
  Changed mode before (done _) after =
      (endpoint : Option SocketAddr) × (policy : Policy) × (policy_of mode endpoint ≡ some policy)
      × (after ≡ some (script policy))

  bind-Changed :
      {A : Type 0} (mode : EgressMode) (before : Option Text) (m : Node → Fallible A × Node)
      (f : A → Node → Fallible (Unit {0}) × Node) (n : Node)
      → (m n).1.loaded ≡ before
      → ((a : A) (n' : Node)
          → n'.loaded ≡ before
          → let (r, n'') = f a n' in Changed mode before r n''.loaded)
      → let (r, n') = ◌>>=◌ m f n in Changed mode before r n'.loaded
  bind-Changed mode before m f n same k = elim (Fallible-cases (m n).0) [
    | inr (e, q) ↦ rw (q, ◌>>=◌) same
    | inl (a, q) ↦ rw (q, ◌>>=◌) (k a (m n).1 same)
  ]

  activate-Changed :
      (mode : EgressMode) (endpoint : Option SocketAddr) (n : Node)
      → let (r, n') = activate host config mode endpoint n in Changed mode n.loaded r n'.loaded
  unfolding activate active_policy_plan
  activate-Changed mode endpoint n = elim (Option-cases (policy_of mode endpoint)) [
    | inl q ↦ rw (q, activate, active_policy_plan, Changed) refl
    | inr (policy, q) ↦
        let plan = nft_transaction host.print_ip config policy ∷ [] in
        let ends = transaction-loaded policy false n in
        elim (Fallible-cases (run_plan host config plan false false n).0) [
          | inr (e, p) ↦ rw (q, p, activate, active_policy_plan, Changed) (rw p at ends)
          | inl (_, p) ↦
              rw (q, p, activate, active_policy_plan, Changed) (endpoint, policy, q, rw p at ends)
        ]
  ]

  pub transition_inner-Changed :
      (mode : EgressMode) (n : Node)
      → let (r, n') = transition_inner host config mode n in Changed mode n.loaded r n'.loaded
  unfolding transition_inner
  transition_inner-Changed mode n =
      let last : Option SocketAddr → Unit {0} → Node → Fallible (Unit {0}) × Node =
        λ endpoint _. activate host config mode endpoint in
      let probed : Option SocketAddr → Unit {0} → Node → Fallible (Unit {0}) × Node =
        λ endpoint _. ◌>>=◌ (probe_proxy host config endpoint) (last endpoint) in
      let up : Option SocketAddr → Node → Fallible (Unit {0}) × Node =
        λ endpoint. ◌>>=◌ (bring_up host config mode) (probed endpoint) in
      bind-Changed mode n.loaded (teardown_wireguard host config)
        (λ _. ◌>>=◌ (endpoint_of host config mode) up) n (teardown-loaded n)
        (λ _ n1 e1.
          bind-Changed mode n.loaded (endpoint_of host config mode) up n1
            (endpoint_of-loaded mode n1 ∙ e1)
            (λ endpoint n2 e2.
              bind-Changed mode n.loaded (bring_up host config mode) (probed endpoint) n2
                (bring_up-loaded mode n2 ∙ e2)
                (λ _ n3 e3.
                  bind-Changed mode n.loaded (probe_proxy host config endpoint) (last endpoint) n3
                    (probe_proxy-loaded endpoint n3 ∙ e3)
                    (λ _ n4 e4.
                      subst
                        (λ before.
                          let (r, n') = activate host config mode endpoint n4 in
                          Changed mode before r n'.loaded)
                        e4 (activate-Changed mode endpoint n4)))))
