-- ===== src/Rules/Activate.antt =====
-- Rules::ActivateRule and Rules::DeactivateRule of Kext/rule.cpp.
use watchfirewall.Prelude.{
  ℕ, ◌<◌, List, ◌∷◌, ◌++◌, ◌≡◌, ◌≢◌, inl, inr, refl, sym, ap, some, arith, update, if◌then◌else◌,
  All, length, ==-refl, ==-ne, ◌==◌, Bool-cases,
}
use watchfirewall.Links.{Ptr, null}
use watchfirewall.Links.Edit.{IsChain}
use watchfirewall.Rule.{rule_state_active, rule_state_inactive}
use watchfirewall.Rules.{Rules, Code, activate_rule, deactivate_rule, activated_at}
use watchfirewall.Rules.Walk.{First, missing, found}
use watchfirewall.Rules.Delete.{HasId, walk-HasId}

-- The first rule with the id, and what becomes of it.
pub data Activation (s : Rules) (xs : List Ptr) (rule_id now : ℕ) (c : Code) (t : Rules)
    : Type 0 where
  absent :
      All (λ x. (s.rule x).id ≢ rule_id) xs
      → c ≡ Code.minus_one
      → t ≡ s
      → Activation s xs rule_id now c t
  already :
      (r : Ptr) (front back : List Ptr)
      → xs ≡ front ++ r ∷ back
      → All (λ x. (s.rule x).id ≢ rule_id) front
      → (s.rule r).id ≡ rule_id
      → (s.rule r).state ≢ rule_state_inactive
      → c ≡ Code.one
      → t ≡ s
      → Activation s xs rule_id now c t
  activated :
      (r : Ptr) (front back : List Ptr)
      → xs ≡ front ++ r ∷ back
      → All (λ x. (s.rule x).id ≢ rule_id) front
      → (s.rule r).id ≡ rule_id
      → (s.rule r).state ≡ rule_state_inactive
      → c ≡ Code.naught
      → t.rule r ≡ record (s.rule r) { state = rule_state_active }
      → ((p : Ptr) → p ≢ r → t.rule p ≡ s.rule p)
      → t.links ≡ s.links
      → t.live ≡ s.live
      → t.last_changed_time ≡ now
      → Activation s xs rule_id now c t

module _ (s : Rules) (rule_id now fuel : ℕ) (xs : List Ptr) (is : IsChain s.links xs)
    (h : length xs < fuel) where
  outcome :
      (r : Ptr)
      → First (HasId rule_id) s.rule xs r
      → (c : Code) × (t : Rules) × ((if r == null
            then (Code.minus_one, s)
            else activated_at now r s)
          ≡ (c, t))
        × Activation s xs rule_id now c t
  outcome r (missing z a) = (Code.minus_one, s, rw z refl, absent a refl refl)
  outcome r (found front back p n a i) =
      elim (Bool-cases ((s.rule r).state == rule_state_inactive)) [
        | inl hit ↦ (
          Code.naught,
          record s {
            rule = update s.rule r (record (s.rule r) { state = rule_state_active });
            last_changed_time = now;
          },
          rw (==-ne r null n, hit) refl,
          activated r front back p a i (ground arith) refl (rw (==-refl r) refl)
              (λ q m. rw (==-ne r q (λ w. m (sym w))) refl) refl refl refl,
        )
        | inr miss ↦ (
          Code.one,
          s,
          rw (==-ne r null n, miss) refl,
          already r front back p a i (ground arith) refl refl,
        )
      ]

  pub activate_rule-Activation :
      (c : Code) × (t : Rules) × (activate_rule fuel now rule_id s ≡ some (c, t))
      × Activation s xs rule_id now c t
  unfolding activate_rule
  activate_rule-Activation =
      let (r, e, f) = walk-HasId s rule_id fuel xs is h in
      let (c, t, e', a) = outcome r f in (c, t, rw (e, activate_rule) (ap some e'), a)

  pub deactivate_rule-Activation :
      (c : Code) × (t : Rules) × (deactivate_rule fuel now rule_id s ≡ some (c, t))
      × Activation s xs rule_id now c t
  unfolding deactivate_rule
  deactivate_rule-Activation =
      let (r, e, f) = walk-HasId s rule_id fuel xs is h in
      let (c, t, e', a) = outcome r f in (c, t, rw (e, deactivate_rule) (ap some e'), a)

  -- ActivateRule on chained rules: it ends. The first rule with the id is made active if it is
  -- inactive, with the result 0 and the time of the change, and all others stay; if it is not
  -- inactive the result is 1, and where there is no such rule -1, and nothing changes.
  -- DeactivateRule has the same results: it makes an inactive rule active, and an active one
  -- stays active. Fuel for more than the rules is enough.
  pub activations_lem :
      ((c : Code) × (t : Rules) × (activate_rule fuel now rule_id s ≡ some (c, t))
        × Activation s xs rule_id now c t)
      × ((c : Code) × (t : Rules) × (deactivate_rule fuel now rule_id s ≡ some (c, t))
          × Activation s xs rule_id now c t)
  activations_lem = (activate_rule-Activation, deactivate_rule-Activation)
