-- ===== src/Rules/Find.antt =====
-- Rules::FindRule of Kext/rule.cpp.
use watchfirewall.Prelude.{
  ℕ, ◌<◌, List, [], ◌∷◌, ◌≡◌, ◌≢◌, ◌⊎◌, ◌↔◌, inl, inr, refl, sym, ap, true, Option, none, some,
  arith, length, bit_and, ◌==◌, if◌then◌else◌,
}
use watchfirewall.Prelude.Bits.{bit_and-zero_left, bit_and-zero_right}
use watchfirewall.Kernel.{Atomics}
use watchfirewall.Links.{Ptr, null}
use watchfirewall.Links.Edit.{IsChain}
use watchfirewall.Rule.{Rule}
use watchfirewall.Rules.{
  Rules, Query, bytes_equal, name_fits, number_fits, applies, find_rule, retain_rule,
}
use watchfirewall.Rules.Walk.{First, First-holds, walk-First}

-- A rule's string is empty, or the one that is asked for.
abbrev NameAgrees : List ℕ → Option (List ℕ) → Type 0
NameAgrees own asked = (own ≡ []) ⊎ (asked ≡ some own)

abbrev NumberAgrees : ℕ → ℕ → Type 0
NumberAgrees own asked = (own ≡ 0) ⊎ (own ≡ asked)

-- When a rule applies: an empty string and a 0 stand for all, and the directions share a bit.
pub record Applies (q : Query) (r : Rule) : Type 0 where
  name : NameAgrees r.process_name q.process_name
  path : NameAgrees r.file_path q.file_path
  domain : NumberAgrees r.sock_domain q.sock_domain
  type : NumberAgrees r.sock_type q.sock_type
  protocol : NumberAgrees r.sock_protocol q.sock_protocol
  direction : bit_and r.direction q.direction ≢ 0

bytes_equal_iff : (xs ys : List ℕ) → (bytes_equal xs ys ≡ true) ↔ (xs ≡ ys)
unfolding bytes_equal
bytes_equal_iff [] [] = (λ e. refl, λ e. refl)
bytes_equal_iff [] (y ∷ ys) = (λ e. cc, λ e. cc)
bytes_equal_iff (x ∷ xs) [] = (λ e. cc, λ e. cc)
bytes_equal_iff (x ∷ xs) (y ∷ ys) =
    let (f, g) = bytes_equal_iff xs ys in (λ e. ground (arith, f), λ e. ground (arith, g))

name_fits_iff :
    (own : List ℕ) (asked : Option (List ℕ)) → (name_fits own asked ≡ true) ↔ NameAgrees own asked
name_fits_iff [] asked = (λ e. inl refl, λ e. refl)
name_fits_iff (x ∷ xs) none = (λ e. cc, λ e. ground arith)
name_fits_iff (x ∷ xs) (some ys) =
    let (f, g) = bytes_equal_iff (x ∷ xs) ys in
    (λ e. inr (ap some (sym (f e))), λ e. ground (arith, g))

number_fits_iff : (own asked : ℕ) → (number_fits own asked ≡ true) ↔ NumberAgrees own asked
number_fits_iff own asked = (λ e. ground arith, λ e. ground arith)

applies-Applies : (q : Query) (r : Rule) → applies r q ≡ true → Applies q r
unfolding applies
applies-Applies q r e =
    let n = name_fits_iff r.process_name q.process_name in
    let p = name_fits_iff r.file_path q.file_path in
    record {
      name = n.0 (ground arith);
      path = p.0 (ground arith);
      domain = (number_fits_iff r.sock_domain q.sock_domain).0 (ground arith);
      type = (number_fits_iff r.sock_type q.sock_type).0 (ground arith);
      protocol = (number_fits_iff r.sock_protocol q.sock_protocol).0 (ground arith);
      direction = ground arith;
    }

Applies-applies : (q : Query) (r : Rule) → Applies q r → applies r q ≡ true
unfolding applies
Applies-applies q r a =
    rw
      (
        (name_fits_iff r.process_name q.process_name).1 a.name,
        (name_fits_iff r.file_path q.file_path).1 a.path,
        (number_fits_iff r.sock_domain q.sock_domain).1 a.domain,
        (number_fits_iff r.sock_type q.sock_type).1 a.type,
        (number_fits_iff r.sock_protocol q.sock_protocol).1 a.protocol,
      )
      (let d = a.direction in ground arith)

-- With chained rules FindRule ends, and returns the first rule that applies, with one more
-- reference to it, or NULL where no rule applies; then nothing changes. Fuel for more than the
-- rules is enough.
pub find_rule-First :
    (os : Atomics) (q : Query) (s : Rules) (fuel : ℕ) (xs : List Ptr)
    → IsChain s.links xs
    → length xs < fuel
    → (r : Ptr) × (find_rule os fuel q s ≡ some (r, if r == null then s else retain_rule os r s))
      × First (Applies q) s.rule xs r
unfolding find_rule
find_rule-First os q s fuel xs is h =
    let (r, e, f) =
      walk-First (λ r. applies r q) (Applies q) (applies-Applies q)
        (λ r e a. cc (Applies-applies q r a)) s fuel s.root xs is.chain h in
    (r, rw (e, find_rule), f)

-- What FindRule returns has a direction other than 0, and was asked for by one: a rule with
-- direction 0, which the comments in rule.h and messageType.h call "both", is never found.
pub find_rule-ne_both :
    (os : Atomics) (q : Query) (s : Rules) (fuel : ℕ) (xs : List Ptr)
    → IsChain s.links xs
    → length xs < fuel
    → (r : Ptr) (t : Rules) → find_rule os fuel q s ≡ some (r, t)
    → r ≢ null
    → ((s.rule r).direction ≢ 0) × (q.direction ≢ 0)
find_rule-ne_both os q s fuel xs is h r t e n =
    let (r', e', f) = find_rule-First os q s fuel xs is h in
    let same : r' ≡ r = cc in
    let a : Applies q (s.rule r) = First-holds (rw same at f) n in
    (
      λ z. a.direction (rw z (bit_and-zero_left q.direction)),
      λ z. a.direction (rw z (bit_and-zero_right (s.rule r).direction)),
    )
