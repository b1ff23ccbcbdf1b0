-- ===== src/NetworkPolicy/Drift/Laws.antt =====
-- Which policies count as the same.
use mathlib.Core.List.{Permᴰ}
use permission_binder_operat.Prelude.{
  String, true, false, ◌≡◌, refl, sym, ap, ◌∙◌, ◌≢◌, not_true, List, [], ◌∷◌, map, In, inl, inr,
  ◌==◌, eq_iff,
}
use permission_binder_operat.GoSort.{sort_by}
use permission_binder_operat.GoSort.Laws.{Tells, In-Perm, sort_by-Perm}
use permission_binder_operat.NetworkPolicy.Policies.{Requirement, Rule, PolicySpec}
use permission_binder_operat.NetworkPolicy.Drift.{
  Texts, normalize_requirement, normalize_selector, normalize_ports, normalize_peers,
  normalize_rule, normalize_ingress_rules, normalize_egress_rules, normalized, calculate_rules_hash,
  compare_network_policy_rules,
}

-- The JSON text of a port, a peer and a rule tells it from the others that it stands with.
pub record Decides (texts : Texts) (key : Rule → String) (rs : List Rule) : Type 0 where
  pub ports : (r : Rule) → In r rs → Tells texts.port r.ports
  pub peers : (r : Rule) → In r rs → Tells texts.peer r.peers
  pub rules : Tells key (map (normalize_rule texts) rs)

-- The rules allow the same: their ports and their peers are the same up to order.
pub record SameRule (a b : Rule) : Type 0 where
  pub ports : Permᴰ a.ports b.ports
  pub peers : Permᴰ a.peers b.peers

abbrev pub Pairs : List Rule → List Rule → Type 0
Pairs [] [] = Unit {0}
Pairs (a ∷ rs) (b ∷ ts) = SameRule a b × Pairs rs ts
Pairs [] (b ∷ ts) = ⊥
Pairs (a ∷ rs) [] = ⊥

-- The same rules, in any order, each with its ports and peers in any order.
pub record Reordered (rs ts : List Rule) : Type 0 where
  pub middle : List Rule
  pub moved : Permᴰ rs middle
  pub pairs : Pairs middle ts

map-Perm : {A B : Type 0} (f : A → B) {rs ts : List A} → Permᴰ rs ts → Permᴰ (map f rs) (map f ts)
map-Perm f Permᴰ.nil = Permᴰ.nil
map-Perm f (Permᴰ.cons e p) = Permᴰ.cons (ap f e) (map-Perm f p)
map-Perm f (Permᴰ.swap e e') = Permᴰ.swap (ap f e) (ap f e')
map-Perm f (Permᴰ.trans p q) = Permᴰ.trans (map-Perm f p) (map-Perm f q)

module _ (texts : Texts) where
  normalize_rule-same :
      (a b : Rule)
      → Tells texts.port a.ports
      → Tells texts.peer a.peers
      → SameRule a b
      → normalize_rule texts a ≡ normalize_rule texts b
  unfolding normalize_rule normalize_ports normalize_peers
  normalize_rule-same a b tells_ports tells_peers same =
      let ports = sort_by-Perm texts.port tells_ports same.ports in
      let peers = sort_by-Perm texts.peer tells_peers same.peers in
      λ i. record { ports = ports i; peers = peers i }

  normalize-Pairs :
      (rs ts : List Rule)
      → ((r : Rule) → In r rs → Tells texts.port r.ports)
      → ((r : Rule) → In r rs → Tells texts.peer r.peers)
      → Pairs rs ts
      → map (normalize_rule texts) rs ≡ map (normalize_rule texts) ts
  normalize-Pairs [] [] ports peers h = refl
  normalize-Pairs [] (b ∷ ts) ports peers h = absurd h
  normalize-Pairs (a ∷ rs) [] ports peers h = absurd h
  normalize-Pairs (a ∷ rs) (b ∷ ts) ports peers (same, h) =
      let first = normalize_rule-same a b (ports a (inl refl)) (peers a (inl refl)) same in
      let rest = normalize-Pairs rs ts (λ r m. ports r (inr m)) (λ r m. peers r (inr m)) h in
      λ i. first i ∷ rest i

  sorted-Reordered :
      (key : Rule → String) (rs ts : List Rule)
      → Decides texts key rs
      → Reordered rs ts
      → sort_by key (map (normalize_rule texts) rs) ≡ sort_by key (map (normalize_rule texts) ts)
  sorted-Reordered key rs ts decides h =
      sort_by-Perm key decides.rules (map-Perm (normalize_rule texts) h.moved)
      ∙ ap (sort_by key) (
          normalize-Pairs h.middle ts (λ r m. decides.ports r (In-Perm r h.moved m))
            (λ r m. decides.peers r (In-Perm r h.moved m)) h.pairs)

  -- Two policies with the same selector and types, whose rules are the same up to the order of the
  -- rules, of their ports and of their peers, are compared as equal: such a difference is no drift.
  pub compare_network_policy_rules-Reordered :
      (a b : PolicySpec)
      → a.pod_selector ≡ b.pod_selector
      → a.policy_types ≡ b.policy_types
      → Decides texts texts.ingress a.ingress
      → Decides texts texts.egress a.egress
      → Reordered a.ingress b.ingress
      → Reordered a.egress b.egress
      → compare_network_policy_rules texts a b ≡ true
  unfolding compare_network_policy_rules calculate_rules_hash normalized normalize_ingress_rules
      normalize_egress_rules
  compare_network_policy_rules-Reordered a b selector types ins_told outs_told ingress egress =
      let selectors = ap normalize_selector selector in
      let ins = sorted-Reordered texts.ingress a.ingress b.ingress ins_told ingress in
      let outs = sorted-Reordered texts.egress a.egress b.egress outs_told egress in
      let same : normalized texts a ≡ normalized texts b = λ i. record {
        pod_selector = selectors i;
        policy_types = types i;
        ingress = ins i;
        egress = outs i;
      } in
      (eq_iff (calculate_rules_hash texts a) (calculate_rules_hash texts b)).1
        (ap (λ spec. texts.sha (texts.spec spec)) same)

map-normalize_requirement : (es : List Requirement) → map normalize_requirement es ≡ es
unfolding normalize_requirement
map-normalize_requirement [] = refl
map-normalize_requirement (e ∷ es) = ap (◌∷◌ e) (map-normalize_requirement es)

expressions :
    (texts : Texts) (a b : PolicySpec)
    → normalized texts a ≡ normalized texts b
    → map normalize_requirement a.pod_selector.match_expressions
      ≡ map normalize_requirement b.pod_selector.match_expressions
unfolding normalized normalize_selector
expressions texts a b same = ap (λ (s : PolicySpec). s.pod_selector.match_expressions) same

-- The expressions of the selector are compared in their order, and so are the values of each: if the
-- hash tells the two normalized specs apart, any other order is a drift.
pub compare_network_policy_rules-expressions :
    (texts : Texts) (a b : PolicySpec)
    → (calculate_rules_hash texts a ≡ calculate_rules_hash texts b
        → normalized texts a ≡ normalized texts b)
    → a.pod_selector.match_expressions ≢ b.pod_selector.match_expressions
    → compare_network_policy_rules texts a b ≡ false
unfolding compare_network_policy_rules
compare_network_policy_rules-expressions texts a b apart differ =
    not_true (calculate_rules_hash texts a == calculate_rules_hash texts b) λ e.
      let same =
        apart ((eq_iff (calculate_rules_hash texts a) (calculate_rules_hash texts b)).0 e) in
      differ (
        sym (map-normalize_requirement a.pod_selector.match_expressions)
        ∙ expressions texts a b same
        ∙ map-normalize_requirement b.pod_selector.match_expressions)
