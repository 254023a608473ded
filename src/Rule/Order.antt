-- ===== src/Rule/Order.antt =====
-- Rule::Compare is a total order on the fields that it compares.
use watchfirewall.Prelude.{ℕ, List, [], ◌∷◌, ◌≡◌, refl, arith, compare, Ordering}
use watchfirewall.Rule.{Rule, strcmp, or_else, compare_rule}

abbrev pub flip : Ordering → Ordering
flip Ordering.lt = Ordering.gt
flip Ordering.eq = Ordering.eq
flip Ordering.gt = Ordering.lt

-- The laws of a comparison that may call different things equal.
pub record IsComparison {ℓ} {A : Type ℓ} (cmp : A → A → Ordering) : Type ℓ where
  pub flips : (a b : A) → cmp b a ≡ flip (cmp a b)
  pub gt_trans : (a b c : A) → cmp a b ≡ Ordering.gt → cmp b c ≡ Ordering.gt → cmp a c ≡ Ordering.gt
  pub eq_left : (a b c : A) → cmp a b ≡ Ordering.eq → cmp a c ≡ cmp b c

compare-IsComparison : IsComparison {A = ℕ} compare
compare-IsComparison = record {
  flips = λ a b. ground arith;
  gt_trans = λ a b c p q. ground arith;
  eq_left = λ a b c p. ground arith;
}

module _ {ℓ} {A : Type ℓ} where
  on_key {κ} :
      {K : Type κ} (key : A → K) (cmp : K → K → Ordering)
      → IsComparison cmp
      → IsComparison (λ (a b : A). cmp (key a) (key b))
  on_key key cmp c = record {
    flips = λ a b. c.flips (key a) (key b);
    gt_trans = λ x y z. c.gt_trans (key x) (key y) (key z);
    eq_left = λ x y z. c.eq_left (key x) (key y) (key z);
  }

  or_else-IsComparison :
      (f g : A → A → Ordering)
      → IsComparison f
      → IsComparison g
      → IsComparison (λ a b. or_else (f a b) (g a b))
  or_else-IsComparison f g c d = record {
    flips = λ a b. ground (arith, c.flips a b, d.flips a b);
    gt_trans = λ x y z p q. ground (
      arith,
      c.gt_trans x y z,
      c.eq_left x y z,
      c.eq_left z y x,
      c.flips z x,
      c.flips y z,
      c.flips x y,
      d.gt_trans x y z,
    );
    eq_left = λ x y z p. ground (arith, c.eq_left x y z, d.eq_left x y z);
  }

strcmp_flips : (xs ys : List ℕ) → strcmp ys xs ≡ flip (strcmp xs ys)
unfolding strcmp
strcmp_flips [] [] = refl
strcmp_flips [] (y ∷ ys) = refl
strcmp_flips (x ∷ xs) [] = refl
strcmp_flips (x ∷ xs) (y ∷ ys) = ground (arith, strcmp_flips xs ys)

strcmp-gt_trans :
    (xs ys zs : List ℕ)
    → strcmp xs ys ≡ Ordering.gt
    → strcmp ys zs ≡ Ordering.gt
    → strcmp xs zs ≡ Ordering.gt
unfolding strcmp
strcmp-gt_trans [] [] zs p q = cc
strcmp-gt_trans [] (y ∷ ys) zs p q = cc
strcmp-gt_trans (x ∷ xs) [] [] p q = cc
strcmp-gt_trans (x ∷ xs) [] (z ∷ zs) p q = cc
strcmp-gt_trans (x ∷ xs) (y ∷ ys) [] p q = refl
strcmp-gt_trans (x ∷ xs) (y ∷ ys) (z ∷ zs) p q = ground (arith, strcmp-gt_trans xs ys zs)

strcmp-eq_left : (xs ys zs : List ℕ) → strcmp xs ys ≡ Ordering.eq → strcmp xs zs ≡ strcmp ys zs
unfolding strcmp
strcmp-eq_left [] [] zs p = refl
strcmp-eq_left [] (y ∷ ys) zs p = cc
strcmp-eq_left (x ∷ xs) [] zs p = cc
strcmp-eq_left (x ∷ xs) (y ∷ ys) [] p = refl
strcmp-eq_left (x ∷ xs) (y ∷ ys) (z ∷ zs) p = ground (arith, strcmp-eq_left xs ys zs)

strcmp-IsComparison : IsComparison strcmp
strcmp-IsComparison = record {
  flips = strcmp_flips;
  gt_trans = strcmp-gt_trans;
  eq_left = strcmp-eq_left;
}

-- Comparing two rules the other way round flips the sign, "greater" is transitive, and rules
-- that compare equal compare alike with every other rule.
pub compare_rule-IsComparison : IsComparison compare_rule
unfolding compare_rule
compare_rule-IsComparison =
    or_else-IsComparison _ _ (on_key (λ r. r.process_name) strcmp strcmp-IsComparison) (
      or_else-IsComparison _ _ (on_key (λ r. r.file_path) strcmp strcmp-IsComparison) (
        or_else-IsComparison _ _ (number λ r. r.sock_domain) (
          or_else-IsComparison _ _ (number λ r. r.sock_type) (
            or_else-IsComparison _ _ (number λ r. r.sock_protocol)
              (or_else-IsComparison _ _ (number λ r. r.direction) (number λ r. r.allow))))))
  where
    number : (key : Rule → ℕ) → IsComparison (λ (a b : Rule). compare (key a) (key b))
    number key = on_key key compare compare-IsComparison
