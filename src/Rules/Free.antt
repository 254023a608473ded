-- ===== src/Rules/Free.antt =====
-- Rules::Free of Kext/rule.h: the loop that empties the list.
use watchfirewall.Prelude.{
  ℕ, zero, suc, ◌<◌, ◌≡◌, ◌≢◌, refl, sym, subst, ap, ◌∙◌, List, [], ◌∷◌, true, false, some, arith,
  length, All, Fresh, ◌==◌, if◌then◌else◌, ==-ne, ==-refl, Bool-cases, inl, inr,
}
use watchfirewall.Kernel.{Atomics}
use watchfirewall.SimpleBase.{release}
use watchfirewall.Links.{Ptr, null}
use watchfirewall.Links.Edit.{IsLoose}
use watchfirewall.Rule.{Rule}
use watchfirewall.Rules.{Rules, remove_from_chain, release_rule, free_rules}
use watchfirewall.Rules.Delete.{remove_from_chain_first}

-- The rule at `x` has lost one reference, and is deleted if that was the last.
pub record Released (os : Atomics) (s t : Rules) (x : Ptr) : Type 0 where
  pub left : (t.rule x).references ≡ (release os (s.rule x).references).0
  pub lives : t.live x ≡ (if (release os (s.rule x).references).1 then false else s.live x)

-- The rule at `x` is as before.
pub record Same (s t : Rules) (x : Ptr) : Type 0 where
  pub rule : t.rule x ≡ s.rule x
  pub live : t.live x ≡ s.live x

module _ (os : Atomics) where
  abbrev step : Ptr → Rules → Rules
  step r s = release_rule os r (record s { links = remove_from_chain r s.links })

  links-step : (r : Ptr) (s : Rules) → (step r s).links ≡ remove_from_chain r s.links
  unfolding release_rule
  links-step r s = ground arith

  step-Released : (r : Ptr) (s : Rules) → Released os s (step r s) r
  unfolding release_rule
  step-Released r s = elim (Bool-cases (release os (s.rule r).references).1) [
    | inl e ↦ record { left = rw (e, ==-refl r) refl; lives = rw (e, ==-refl r) refl }
    | inr e ↦ record { left = rw (e, ==-refl r) refl; lives = rw e refl }
  ]

  step-Same : (r : Ptr) (s : Rules) (p : Ptr) → r ≢ p → Same s (step r s) p
  unfolding release_rule
  step-Same r s p n = elim (Bool-cases (release os (s.rule r).references).1) [
    | inl e ↦ record { rule = rw (e, ==-ne r p n) refl; live = rw (e, ==-ne r p n) refl }
    | inr e ↦ record { rule = rw (e, ==-ne r p n) refl; live = rw e refl }
  ]

  Same-Released : (s t u : Rules) (p : Ptr) → Same s t p → Released os t u p → Released os s u p
  Same-Released s t u p a b = record {
    left = b.left ∙ ap (λ (r : Rule). (release os r.references).0) a.rule;
    lives =
        b.lives
        ∙ ap (λ (r : Rule). if (release os r.references).1 then false else t.live p) a.rule
        ∙ ap (λ k. if (release os (s.rule p).references).1 then false else k) a.live;
  }

  Released-Same : (s t u : Rules) (p : Ptr) → Released os s t p → Same t u p → Released os s u p
  Released-Same s t u p a b = record {
    left = ap (λ (r : Rule). r.references) b.rule ∙ a.left;
    lives = b.live ∙ a.lives;
  }

  All-Released :
      (s t u : Rules) (x : Ptr) (xs : List Ptr)
      → ((p : Ptr) → x ≢ p → Same s t p)
      → Fresh x xs
      → All (Released os t u) xs
      → All (Released os s u) xs
  All-Released s t u x [] k f a = tt
  All-Released s t u x (y ∷ xs) k f a =
      (Same-Released s t u y (k y f.0) a.0, All-Released s t u x xs k f.1 a.1)

  free_rules-step :
      (fuel : ℕ) (s : Rules)
      → s.root ≢ null
      → free_rules os (suc fuel) s ≡ free_rules os fuel (step s.root s)
  unfolding free_rules
  free_rules-step fuel s n = rw (free_rules, ==-ne s.root null n) refl

  free_rules_stop : (fuel : ℕ) (s : Rules) → s.root ≡ null → free_rules os (suc fuel) s ≡ some s
  unfolding free_rules
  free_rules_stop fuel s e =
      let stop : (s.root == null) ≡ true = rw e refl in rw (free_rules, stop) refl

  free_rules-runs :
      (fuel : ℕ) (s : Rules) (xs : List Ptr)
      → IsLoose s.links xs
      → length xs < fuel
      → (t : Rules) × (free_rules os fuel s ≡ some t)
        × (t.root ≡ null)
        × All (Released os s t) xs
        × ((p : Ptr) → Fresh p xs → Same s t p)
  free_rules-runs zero s xs is h = absurd (omega arith)
  free_rules-runs (suc fuel) s [] is h =
      (s, free_rules_stop fuel s is.chain, is.chain, tt, λ p f. record { rule = refl; live = refl })
  free_rules-runs (suc fuel) s (x ∷ xs) is h =
      let is' : IsLoose (step x s).links xs =
        subst (λ l. IsLoose l xs) (sym (links-step x s))
          (remove_from_chain_first s.links x xs is) in
      let (t, e, z, all, same) = free_rules-runs fuel (step x s) xs is' (omega arith) in
      (
        t,
        free_rules-step fuel s (λ r. is.chain.1 (sym is.chain.0 ∙ r))
            ∙ ap (λ r. free_rules os fuel (step r s)) is.chain.0
            ∙ e,
        z,
        (
          Released-Same s (step x s) t x (step-Released x s) (same x is.distinct.0),
          All-Released s (step x s) t x xs (step-Same x s) is.distinct.0 all,
        ),
        λ p f.
            (let a = step-Same x s p (λ r. f.0 (sym r)) in
              let b = same p f.1 in record { rule = b.rule ∙ a.rule; live = b.live ∙ a.live }),
      )

  -- Free on rules whose `prev` fields are NULL or right, with fuel for more than them: it ends with no rule in the list, and each
  -- rule that was in it has lost exactly one reference, and is deleted if that was its last.
  pub free_rules-Released :
      (fuel : ℕ) (s : Rules) (xs : List Ptr)
      → IsLoose s.links xs
      → length xs < fuel
      → (t : Rules) × (free_rules os fuel s ≡ some t) × (t.root ≡ null) × All (Released os s t) xs
  free_rules-Released fuel s xs is h =
      let (t, e, z, all, same) = free_rules-runs fuel s xs is h in (t, e, z, all)
