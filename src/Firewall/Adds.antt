-- ===== src/Firewall/Adds.antt =====
-- The case AddRule of the switch in Firewall::KcSend (Kext/firewall.cpp): it ends, with one more rule at most.
use watchfirewall.Prelude.{
  ℕ, suc, ◌≤◌, ◌<◌, ◌≡◌, ◌≢◌, refl, sym, subst, List, [], ◌∷◌, Option, none, some, All, Fresh,
  arith, ◌==◌, Bool-cases, inl, inr,
}
use watchfirewall.Kernel.{Atomics}
use watchfirewall.Links.{Ptr, null}
use watchfirewall.Rule.{AddRuleMessage}
use watchfirewall.Rules.{Rules, Code, release_rule}
use watchfirewall.Rules.Loose.{Holds, Holds-links, links-release_rule, add_rule-Holds}
use watchfirewall.Messages.{Message}
use watchfirewall.Firewall.{Firewall, Env}
use watchfirewall.Firewall.Handlers.{answer, drop_rule, handle_add_rule}
use watchfirewall.Firewall.Returns.{Limits, Ready, Ends, with_rules, answer-Ends, allocated-Ends}

-- Limits that allow one rule more.
abbrev pub limits : (m n : ℕ) → n < m → (Ptr → Type 0) → Limits
limits m n h P = record { searches = m; rules = n; within = h; allowed = P }

All-imp : (P Q : Ptr → Type 0) (xs : List Ptr) → ((p : Ptr) → P p → Q p) → All P xs → All Q xs
All-imp P Q [] f a = tt
All-imp P Q (x ∷ xs) f a = (f x a.0, All-imp P Q xs f a.1)

-- Limits may be widened.
pub Ready-widen :
    (m n k : ℕ) (h : n < m) (h' : k < m) (P Q : Ptr → Type 0) (fw : Firewall)
    → n ≤ k
    → ((p : Ptr) → P p → Q p)
    → Ready (limits m n h P) fw
    → Ready (limits m k h' Q) fw
Ready-widen m n k h h' P Q fw le f r =
    let rules = r.has_rules in
    let few = rules.few in
    record {
      client_list = r.client_list;
      has_clients = r.has_clients;
      few_clients = r.few_clients;
      has_rules = record {
        list = rules.list;
        is_list = rules.is_list;
        all_in = All-imp P Q rules.list f rules.all_in;
        few = omega arith;
      };
    }

Fresh-All :
    (w : Ptr) (P : Ptr → Type 0) (xs : List Ptr) → ((p : Ptr) → P p → w ≢ p) → All P xs → Fresh w xs
Fresh-All w P [] f a = tt
Fresh-All w P (x ∷ xs) f a = (f x a.0, Fresh-All w P xs f a.1)

module _ (os : Atomics) (env : Env) (c : Ptr) where
  drop_rule-Ends :
      (b : Limits) (p : Ptr) (o : Option Firewall) → Ends b o → Ends b (drop_rule os env c p o)
  drop_rule-Ends b p o (done, e, r) =
      subst (λ k. Ends b (drop_rule os env c p k)) (sym e)
        (elim (Bool-cases (p == null)) [
          | inl z ↦ (done, rw z refl, r)
          | inr z ↦ (
            record done { rules = release_rule os p done.rules },
            rw z refl,
            with_rules b done _ r (
                Holds-links b.allowed done.rules _ (links-release_rule os p done.rules)
                  r.has_rules),
          )
        ])

  -- The outcome of AddRule is answered, and the caller's reference released.
  added_Ends :
      (b : Limits)
      → b.searches ≤ env.fuel
      → (o : Option (Code × Ptr × Rules)) (code : Code) (p : Ptr) (t : Rules) (m : Message)
        (fw : Firewall)
      → o ≡ some (code, p, t)
      → Ready b (record fw { rules = t })
      → Ends b (elim o [
        | none ↦ none
        | some (code, p, rules) ↦
            drop_rule os env c p (answer os env c code m (record fw { rules = rules }))
      ])
  added_Ends b enough none code p t m fw e r = absurd cc
  added_Ends b enough (some a) code p t m fw e r =
      subst
        (λ o. Ends b (elim o [
          | none ↦ none
          | some (code, p, rules) ↦
              drop_rule os env c p (answer os env c code m (record fw { rules = rules }))
        ]))
        (sym e)
        (drop_rule-Ends b p _ (answer-Ends os b env c enough code m (record fw { rules = t }) r))

  -- A request to add a rule, for which `new Rule` gives NULL or the address of none of the rules.
  pub handle_add_rule-Ends :
      (m n : ℕ) (h : n < m) (h' : suc n < m) (P Q : Ptr → Type 0)
      → m ≤ env.fuel
      → ((p : Ptr) → P p → env.rule ≢ p)
      → ((p : Ptr) → P p → Q p)
      → (env.rule ≢ null → Q env.rule)
      → (request : AddRuleMessage) (fw : Firewall) → Ready (limits m n h P) fw
      → Ends (limits m (suc n) h' Q) (handle_add_rule os env c request fw)
  unfolding handle_add_rule
  handle_add_rule-Ends m n h h' P Q enough other keeps new request fw r =
      let rules = r.has_rules in
      let weak : Holds Q n fw.rules = record {
        list = rules.list;
        is_list = rules.is_list;
        all_in = All-imp P Q rules.list keeps rules.all_in;
        few = rules.few;
      } in
      let fresh = Fresh-All env.rule P rules.list other rules.all_in in
      let (code, p, t, e, k) =
        add_rule-Holds Q n os env.fuel env.now env.rule env.memory request fw.rules weak
          (omega arith) fresh new in
      let wide = Ready-widen m n (suc n) h h' P Q fw (omega arith) keeps r in
      let b = limits m (suc n) h' Q in
      allocated-Ends os b env c enough _ _ fw wide
        (λ m. added_Ends b enough _ code p t m fw e (with_rules b fw t wide k))
