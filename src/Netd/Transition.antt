-- ===== src/Netd/Transition.antt =====
-- The mode that netd reports, and the table behind a transition.
use xanh_tab.Prelude.{
  suc, ◌≡◌, refl, ◌∙◌, ◌⊎◌, inl, inr, String, Bool, true, false, arith, Option, none, some, List,
  [], ◌∷◌,
}
use xanh_tab.Model.{EgressMode, direct, tor, warp, wire_guard, proxy}
use xanh_tab.Fallible.{Fallible, done, bail, Fallible-cases, is_done}
use xanh_tab.Egress.{SocketAddr}
use xanh_tab.Netd.Rules.{Policy, held, policy_of}
use xanh_tab.Netd.Plans.{
  NetworkConfig, CommandSpec, wireguard_setup_plan, wireguard_teardown_plan, kill_switch_plan,
  active_policy_plan,
}
use xanh_tab.Netd.Daemon.{
  Host, Node, ◌>>=◌, run_plan, execute, check_rules, teardown_wireguard, endpoint_of, bring_up,
  probe_proxy, activate, transition_inner, engage, restore, change, transition,
}
use xanh_tab.Netd.FailClosed.{script, teardown-loaded, engage-loaded, transition_inner-Changed}

module _ (host : Host) (config : NetworkConfig) where
  run_plan-mode :
      (plan : List CommandSpec) (a i : Bool) (n : Node)
      → (run_plan host config plan a i n).1.active_mode ≡ n.active_mode
  unfolding run_plan
  run_plan-mode [] a i n = refl
  run_plan-mode (spec ∷ plan) a i n =
      ground (arith, run_plan-mode plan a i (execute host config spec n).1)

  teardown-mode : (n : Node) → (teardown_wireguard host config n).1.active_mode ≡ n.active_mode
  unfolding teardown_wireguard check_rules
  teardown-mode n = ground (arith, run_plan-mode (wireguard_teardown_plan config) false true n)

  endpoint_of-mode :
      (mode : EgressMode) (n : Node)
      → (endpoint_of host config mode n).1.active_mode ≡ n.active_mode
  unfolding endpoint_of
  endpoint_of-mode direct n = refl
  endpoint_of-mode wire_guard n = refl
  endpoint_of-mode tor n = ground arith
  endpoint_of-mode warp n = ground arith
  endpoint_of-mode proxy n = ground arith

  bring_up-mode :
      (mode : EgressMode) (n : Node) → (bring_up host config mode n).1.active_mode ≡ n.active_mode
  unfolding bring_up
  bring_up-mode direct n = refl
  bring_up-mode tor n = refl
  bring_up-mode warp n = refl
  bring_up-mode proxy n = refl
  bring_up-mode wire_guard n = ground (
    arith,
    run_plan-mode (wireguard_setup_plan config) false false (record n { tick = suc n.tick }),
  )

  probe_proxy-mode :
      (endpoint : Option SocketAddr) (n : Node)
      → (probe_proxy host config endpoint n).1.active_mode ≡ n.active_mode
  unfolding probe_proxy
  probe_proxy-mode none n = refl
  probe_proxy-mode (some endpoint) n = refl

  activate-mode :
      (mode : EgressMode) (endpoint : Option SocketAddr) (n : Node)
      → (activate host config mode endpoint n).1.active_mode ≡ n.active_mode
  unfolding activate
  activate-mode mode endpoint n =
      elim (Fallible-cases (active_policy_plan host.print_ip config mode endpoint)) [
        | inr (e, q) ↦ rw (q, activate) refl
        | inl (plan, q) ↦ rw (q, activate) (run_plan-mode plan false false n)
      ]

  bind-mode :
      {A B : Type 0} (m : Node → Fallible A × Node) (f : A → Node → Fallible B × Node) (n : Node)
      → (m n).1.active_mode ≡ n.active_mode
      → ((a : A) (n' : Node) → (f a n').1.active_mode ≡ n'.active_mode)
      → (◌>>=◌ m f n).1.active_mode ≡ n.active_mode
  bind-mode m f n same k = elim (Fallible-cases (m n).0) [
    | inr (e, q) ↦ rw (q, ◌>>=◌) same
    | inl (a, q) ↦ rw (q, ◌>>=◌) (k a (m n).1 ∙ same)
  ]

  transition_inner-mode :
      (mode : EgressMode) (n : Node)
      → (transition_inner host config mode n).1.active_mode ≡ n.active_mode
  unfolding transition_inner
  transition_inner-mode mode n =
      let last : Option SocketAddr → Unit {0} → Node → Fallible (Unit {0}) × Node =
        λ endpoint _. activate host config mode endpoint in
      let probed : Option SocketAddr → Unit {0} → Node → Fallible (Unit {0}) × Node =
        λ endpoint _. ◌>>=◌ (probe_proxy host config endpoint) (last endpoint) in
      let up : Option SocketAddr → Node → Fallible (Unit {0}) × Node =
        λ endpoint. ◌>>=◌ (bring_up host config mode) (probed endpoint) in
      bind-mode (teardown_wireguard host config) (λ _. ◌>>=◌ (endpoint_of host config mode) up) n
        (teardown-mode n)
        (λ _ n1.
          bind-mode (endpoint_of host config mode) up n1 (endpoint_of-mode mode n1) (λ endpoint n2.
            bind-mode (bring_up host config mode) (probed endpoint) n2 (bring_up-mode mode n2)
              (λ _ n3.
                bind-mode (probe_proxy host config endpoint) (last endpoint) n3
                  (probe_proxy-mode endpoint n3) (λ _ n4. activate-mode mode endpoint n4))))

  engage-mode : (n : Node) → (engage host config n).1.active_mode ≡ n.active_mode
  engage-mode n = run_plan-mode (kill_switch_plan host.print_ip config) true false n

  -- A failed change ends with the kill switch in the table, or the table that it began with.
  restore-ends :
      (error : String) (n : Node)
      → let (r, n') = restore host config error n in
        (is_done r ≡ false)
        × (n'.active_mode ≡ n.active_mode)
        × ((n'.loaded ≡ some (script host config held)) ⊎ (n'.loaded ≡ n.loaded))
  unfolding restore
  restore-ends error n =
      let n1 = (teardown_wireguard host config n).1 in
      ground (
        arith,
        teardown-loaded host config n,
        teardown-mode n,
        engage-mode n1,
        engage-loaded host config n1,
      )

  -- How a transition may end that began in `n`.
  abbrev pub TransitionEnds : EgressMode → Node → Fallible EgressMode → Node → Type 0
  TransitionEnds mode n (done answer) n' =
      (answer ≡ mode)
      × (n'.active_mode ≡ some mode)
      × ((endpoint : Option SocketAddr) × (policy : Policy) × (policy_of mode endpoint
            ≡ some policy)
          × (n'.loaded ≡ some (script host config policy)))
  TransitionEnds mode n (bail _) n' =
      (n'.active_mode ≡ none)
      × ((n'.loaded ≡ some (script host config held))
          ⊎ ((n'.loaded ≡ n.loaded)
              × (is_done (engage host config (record n { active_mode = none })).0 ≡ false)))

  change-ends :
      (mode : EgressMode) (began n : Node)
      → n.active_mode ≡ none
      → n.loaded ≡ some (script host config held)
      → let (r, n') = change host config mode n in TransitionEnds mode began r n'
  unfolding change
  change-ends mode began n quiet closed =
      let (r, n1) = transition_inner host config mode n in
      let ends = transition_inner-Changed host config mode n in
      let same = transition_inner-mode mode n in
      elim (Fallible-cases r) [
        | inl (_, q) ↦ rw (q, change, ◌>>=◌) (refl, refl, rw q at ends)
        | inr (e, q) ↦
            let kept : n1.loaded ≡ n.loaded = rw q at ends in
            let (fails, mode_same, table) = restore-ends e n1 in
            elim (Fallible-cases (restore host config e n1).0) [
              | inl (m, p) ↦ absurd (ground (arith, fails, p))
              | inr (e2, p) ↦
                  rw (q, change, ◌>>=◌, p)
                    (
                      mode_same ∙ (same ∙ quiet),
                      elim table [ inl shut ↦ inl shut | inr left ↦ inl (left ∙ (kept ∙ closed)) ],
                    )
            ]
      ]

  -- A transition, whatever the host answers: where it succeeds, the active mode is the one that was
  -- asked for and the table is the script of that mode's policy. Where it fails, no mode is active,
  -- and the table is the kill switch, unless already the kill switch at its start could not be
  -- loaded, and then the table is what it was.
  pub transition_fails_closed :
      (mode : EgressMode) (n : Node)
      → let (r, n') = transition host config mode n in TransitionEnds mode n r n'
  unfolding transition
  transition_fails_closed mode n =
      let quiet : Node = record n { active_mode = none } in
      let (r, n1) = engage host config quiet in
      let table = engage-loaded host config quiet in
      let same = engage-mode quiet in
      elim (Fallible-cases r) [
        | inr (e, q) ↦ rw (q, transition, ◌>>=◌) (same, inr (rw q at table, rw q refl))
        | inl (_, q) ↦
            let ends = change-ends mode n n1 same (rw q at table) in rw (q, transition, ◌>>=◌) ends
      ]
