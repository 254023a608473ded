-- ===== src/Rules/Walk.antt =====
-- What the loops of Kext/rule.cpp find, against the list of rules that the links stand for.
use watchfirewall.Prelude.{
  ℕ, zero, suc, ◌<◌, List, [], ◌∷◌, ◌++◌, ◌≡◌, ◌≢◌, inl, inr, refl, ap, Bool, true, false, some,
  arith, All, length, ==-ne, Bool-cases,
}
use watchfirewall.Links.{Ptr, null}
use watchfirewall.Links.Segment.{Seg}
use watchfirewall.Rule.{Rule}
use watchfirewall.Rules.{Rules, walk}

-- `r` is the first of the addresses whose rule has the property, and NULL if there is none.
pub data First (P : Rule → Type 0) (rule : Ptr → Rule) (xs : List Ptr) (r : Ptr) : Type 0 where
  missing : r ≡ null → All (λ x. ¬ P (rule x)) xs → First P rule xs r
  found :
      (front back : List Ptr)
      → xs ≡ front ++ r ∷ back
      → r ≢ null
      → All (λ x. ¬ P (rule x)) front
      → P (rule r)
      → First P rule xs r

First-cons :
    (P : Rule → Type 0) (rule : Ptr → Rule) (x : Ptr) (xs : List Ptr) (r : Ptr)
    → ¬ P (rule x)
    → First P rule xs r
    → First P rule (x ∷ xs) r
First-cons P rule x xs r e (missing z a) = missing z (e, a)
First-cons P rule x xs r e (found front back p n a h) =
    found (x ∷ front) back (ap (λ ys. x ∷ ys) p) n (e, a) h

pub First-holds :
    {P : Rule → Type 0} {rule : Ptr → Rule} {xs : List Ptr} {r : Ptr}
    → First P rule xs r
    → r ≢ null
    → P (rule r)
First-holds (missing z a) n = absurd (n z)
First-holds (found front back p z a h) n = h

module _ (test : Rule → Bool) (P : Rule → Type 0) (holds : (r : Rule) → test r ≡ true → P r)
    (fails : (r : Rule) → test r ≡ false → ¬ P r) (s : Rules) where
  -- With fuel for the whole chain the loop ends, at the first rule with the property.
  pub walk-First :
      (fuel : ℕ) (p : Ptr) (xs : List Ptr)
      → Seg s.next p xs null
      → length xs < fuel
      → (r : Ptr) × (walk test fuel p s ≡ some r) × First P s.rule xs r
  unfolding walk
  walk-First zero p xs c h = elim h [ ]
  walk-First (suc fuel) p [] c h = (null, rw c, missing refl tt)
  walk-First (suc fuel) p (x ∷ xs) c h = elim (Bool-cases (test (s.rule x))) [
    | inl hit ↦ (x, rw (c.0, ==-ne x null c.1, hit), found [] xs refl c.1 tt (holds (s.rule x) hit))
    | inr miss ↦
        let (r, e, f) = walk-First fuel (s.next x) xs c.2 (omega arith) in
        (
          r,
          rw (c.0, ==-ne x null c.1, miss) e,
          First-cons P s.rule x xs r (fails (s.rule x) miss) f,
        )
  ]

-- The loop passes rules without the property.
pub walk-last :
    (test : Rule → Bool) (s : Rules) (fuel : ℕ) (p w : Ptr) (xs : List Ptr)
    → Seg s.next p (xs ++ w ∷ []) null
    → All (λ x. test (s.rule x) ≡ false) xs
    → test (s.rule w) ≡ true
    → length xs < fuel
    → walk test fuel p s ≡ some w
unfolding walk
walk-last test s zero p w xs c a e h = elim h [ ]
walk-last test s (suc fuel) p w [] c a e h = rw (c.0, ==-ne w null c.1, e) refl
walk-last test s (suc fuel) p w (x ∷ xs) c a e h =
    rw (c.0, ==-ne x null c.1, a.0) (walk-last test s fuel (s.next x) w xs c.2 a.1 e (omega arith))
