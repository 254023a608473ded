-- ===== src/Rules/Answer.antt =====
-- The rule that Rules::AddRule of Kext/rule.cpp hands back in `*rule`.
use watchfirewall.Prelude.{
  ℕ, List, ◌∷◌, ◌++◌, ◌≡◌, ◌≢◌, refl, sym, Fresh, Fresh-append_right, ==-refl, ==-ne, Ordering,
  true, Bool-cases, inl, inr,
}
use watchfirewall.Kernel.{Atomics}
use watchfirewall.SimpleBase.{retain, release}
use watchfirewall.Links.{Ptr}
use watchfirewall.Rule.{Rule, compare_rule}
use watchfirewall.Rules.{
  Rules, Code, new_rule, inserted_before, appended_after, retain_rule, release_rule,
}
use watchfirewall.Rules.Add.{Compares, Placement, exists, inserted, appended}

-- From rules `s` with the addresses `xs` to `t`, for the new rule `r` at `w`: the result is 1 and `p` the rule of the
-- list that is equal to `r`, retained for the caller, or it is 0 and `p` the new rule, retained for the list.
-- The other rules are as they were.
pub data Answer (os : Atomics) (s : Rules) (w : Ptr) (r : Rule) (xs : List Ptr) (c : Code) (p : Ptr)
    (t : Rules) : Type 0 where
  there :
      (front back : List Ptr)
      → c ≡ Code.one
      → xs ≡ front ++ p ∷ back
      → compare_rule r (s.rule p) ≡ Ordering.eq
      → t.rule p ≡ record (s.rule p) { references = retain os (s.rule p).references }
      → ((q : Ptr) → q ≢ p → q ≢ w → t.rule q ≡ s.rule q)
      → Answer os s w r xs c p t
  added :
      c ≡ Code.naught
      → p ≡ w
      → t.rule w ≡ record r { references = retain os r.references }
      → t.live w ≡ true
      → ((q : Ptr) → q ≢ w → t.rule q ≡ s.rule q)
      → Answer os s w r xs c p t

module _ (os : Atomics) (now : ℕ) (s : Rules) (w : Ptr) (r : Rule) where
  equal_rule :
      (p : Ptr)
      → w ≢ p
      → Compares (new_rule w r s) w Ordering.eq p
      → compare_rule r (s.rule p) ≡ Ordering.eq
  unfolding new_rule
  equal_rule p z e = rw (==-refl w, ==-ne w p z) at e

  release_rule-other : (u : Rules) (q : Ptr) → w ≢ q → (release_rule os w u).rule q ≡ u.rule q
  unfolding release_rule
  release_rule-other u q z = elim (Bool-cases (release os (u.rule w).references).1) [
    | inl e ↦ rw (e, ==-ne w q z) refl
    | inr e ↦ rw (e, ==-ne w q z) refl
  ]

  new_rule-other : (q : Ptr) → w ≢ q → (new_rule w r s).rule q ≡ s.rule q
  unfolding new_rule
  new_rule-other q z = rw (==-ne w q z) refl

  retained_there :
      (p : Ptr)
      → w ≢ p
      → (retain_rule os p (release_rule os w (new_rule w r s))).rule p
        ≡ record (s.rule p) { references = retain os (s.rule p).references }
  unfolding retain_rule
  retained_there p z =
      rw (==-refl p, release_rule-other (new_rule w r s) p z, new_rule-other p z) refl

  others_there :
      (p q : Ptr)
      → q ≢ p
      → q ≢ w
      → (retain_rule os p (release_rule os w (new_rule w r s))).rule q ≡ s.rule q
  unfolding retain_rule
  others_there p q np nw =
      let z : w ≢ q = λ e. nw (sym e) in
      rw (==-ne p q (λ e. np (sym e)), release_rule-other (new_rule w r s) q z, new_rule-other q z)
        refl

  pub Placement-Answer :
      (xs : List Ptr)
      → Fresh w xs
      → (c : Code) (p : Ptr) (t : Rules) → Placement os now (new_rule w r s) w xs c p t
      → Answer os s w r xs c p t
  unfolding inserted_before appended_after retain_rule new_rule
  Placement-Answer xs f c p t (exists front back e a q ec et) =
      let z = (Fresh-append_right w front (p ∷ back) (rw e at f)).0 in
      there front back ec e (equal_rule p z q) (rw et (retained_there p z))
        (λ k np nw. rw et (others_there p k np nw))
  Placement-Answer xs f c p t (inserted x front back e a q ec ep et) =
      added ec ep (rw (et, ==-refl w) refl) (rw (et, ==-refl w) refl)
        (λ k n. rw (et, ==-ne w k (λ h. n (sym h))) refl)
  Placement-Answer xs f c p t (appended a ec ep et) =
      added ec ep (rw (et, ==-refl w) refl) (rw (et, ==-refl w) refl)
        (λ k n. rw (et, ==-ne w k (λ h. n (sym h))) refl)
