-- ===== src/Rule/Compare.antt =====
-- What Rule::Compare (Kext/rule.cpp) compares, in which order, and what it makes of it.
use watchfirewall.Prelude.{ℕ, List, [], ◌∷◌, ◌≡◌, ◌≢◌, ◌<◌, refl, arith, compare, Ordering}
use watchfirewall.Rule.{Rule, strcmp, or_else, compare_rule}
use watchfirewall.Rule.Order.{IsComparison, compare_rule-IsComparison}

-- The lesser of two strings is the one that ends first, or whose byte is less where they first differ.
pub data Bytes : List ℕ → List ℕ → Ordering → Type 0 where
  both_end : Bytes [] [] Ordering.eq
  ends : {y : ℕ} {ys : List ℕ} → Bytes [] (y ∷ ys) Ordering.lt
  goes_on : {x : ℕ} {xs : List ℕ} → Bytes (x ∷ xs) [] Ordering.gt
  less : {x y : ℕ} {xs ys : List ℕ} → x < y → Bytes (x ∷ xs) (y ∷ ys) Ordering.lt
  more : {x y : ℕ} {xs ys : List ℕ} → y < x → Bytes (x ∷ xs) (y ∷ ys) Ordering.gt
  same :
      {x y : ℕ} {xs ys : List ℕ} {o : Ordering} → x ≡ y → Bytes xs ys o → Bytes (x ∷ xs) (y ∷ ys) o

-- The first of the fields that differ decides.
pub data Fields : List (List ℕ) → List (List ℕ) → Ordering → Type 0 where
  none_left : Fields [] [] Ordering.eq
  equal :
      {x y : List ℕ} {xs ys : List (List ℕ)} {o : Ordering}
      → Bytes x y Ordering.eq
      → Fields xs ys o
      → Fields (x ∷ xs) (y ∷ ys) o
  differ :
      {x y : List ℕ} {xs ys : List (List ℕ)} {o : Ordering}
      → Bytes x y o
      → o ≢ Ordering.eq
      → Fields (x ∷ xs) (y ∷ ys) o

-- The fields that count, the first ones first; a number stands as a string of one.
abbrev pub compared : Rule → List (List ℕ)
compared r =
    r.process_name
    ∷ r.file_path
    ∷ (r.sock_domain ∷ [])
    ∷ (r.sock_type ∷ [])
    ∷ (r.sock_protocol ∷ [])
    ∷ (r.direction ∷ [])
    ∷ (r.allow ∷ [])
    ∷ []

number-Bytes :
    (x y : ℕ) (xs ys : List ℕ) (rest : Ordering)
    → Bytes xs ys rest
    → Bytes (x ∷ xs) (y ∷ ys) (elim (compare x y) [
      | Ordering.lt ↦ Ordering.lt
      | Ordering.eq ↦ rest
      | Ordering.gt ↦ Ordering.gt
    ])
number-Bytes x y xs ys rest b = finish (compare x y) refl
  where
    finish :
        (o : Ordering)
        → compare x y ≡ o
        → Bytes
            (x ∷ xs)
            (y ∷ ys)
            (elim o [ Ordering.lt ↦ Ordering.lt | Ordering.eq ↦ rest | Ordering.gt ↦ Ordering.gt ])
    finish Ordering.lt e = less (ground arith)
    finish Ordering.eq e = same (ground arith) b
    finish Ordering.gt e = more (ground arith)

strcmp-Bytes : (xs ys : List ℕ) → Bytes xs ys (strcmp xs ys)
unfolding strcmp
strcmp-Bytes [] [] = both_end
strcmp-Bytes [] (y ∷ ys) = ends
strcmp-Bytes (x ∷ xs) [] = goes_on
strcmp-Bytes (x ∷ xs) (y ∷ ys) = number-Bytes x y xs ys (strcmp xs ys) (strcmp-Bytes xs ys)

compare-Bytes : (x y : ℕ) → Bytes (x ∷ []) (y ∷ []) (compare x y)
compare-Bytes x y = finish (compare x y) refl
  where
    finish : (o : Ordering) → compare x y ≡ o → Bytes (x ∷ []) (y ∷ []) o
    finish Ordering.lt e = less (ground arith)
    finish Ordering.eq e = same (ground arith) both_end
    finish Ordering.gt e = more (ground arith)

or_else-Fields :
    {x y : List ℕ} {xs ys : List (List ℕ)} (o next : Ordering)
    → Bytes x y o
    → Fields xs ys next
    → Fields (x ∷ xs) (y ∷ ys) (or_else o next)
or_else-Fields Ordering.lt next b f = differ b (λ e. cc)
or_else-Fields Ordering.eq next b f = equal b f
or_else-Fields Ordering.gt next b f = differ b (λ e. cc)

last_field : {x y : List ℕ} (o : Ordering) → Bytes x y o → Fields (x ∷ []) (y ∷ []) o
last_field Ordering.lt b = differ b (λ e. cc)
last_field Ordering.eq b = equal b none_left
last_field Ordering.gt b = differ b (λ e. cc)

compare_rule-Fields : (r t : Rule) → Fields (compared r) (compared t) (compare_rule r t)
unfolding compare_rule
compare_rule-Fields r t = or_else-Fields _ _ (strcmp-Bytes r.process_name t.process_name) (
    or_else-Fields _ _ (strcmp-Bytes r.file_path t.file_path) (
      or_else-Fields _ _ (compare-Bytes r.sock_domain t.sock_domain) (
        or_else-Fields _ _ (compare-Bytes r.sock_type t.sock_type) (
          or_else-Fields _ _ (compare-Bytes r.sock_protocol t.sock_protocol) (
            or_else-Fields _ _ (compare-Bytes r.direction t.direction)
              (last_field _ (compare-Bytes r.allow t.allow)))))))

-- Rule::Compare compares the process names, the file paths, the domains, the types, the protocols, the
-- directions and `allow`, in this order, strings byte by byte and the shorter one first, and the first of them that
-- differs decides. Comparing two rules the other way round flips the sign, "greater" is transitive, and
-- rules that compare equal compare alike with every other rule.
pub compare_rule_lem :
    ((r t : Rule) → Fields (compared r) (compared t) (compare_rule r t)) × IsComparison compare_rule
compare_rule_lem = (compare_rule-Fields, compare_rule-IsComparison)
