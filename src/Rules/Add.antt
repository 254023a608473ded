-- ===== src/Rules/Add.antt =====
-- Rules::AddRule of Kext/rule.cpp.
use watchfirewall.Prelude.{
  ℕ, zero, suc, ◌<◌, List, [], ◌∷◌, ◌++◌, ◌≡◌, ◌≢◌, ◌⊎◌, inl, inr, refl, sym, ◌∙◌, some, arith, All,
  All-append, Fresh, last, last-snoc, length, ==-ne, Ordering,
}
use mathlib.Core.List.{append-nil, append_assoc}
use watchfirewall.Kernel.{Atomics}
use watchfirewall.Links.{Ptr, null}
use watchfirewall.Links.Segment.{Seg}
use watchfirewall.Links.Edit.{IsChain}
use watchfirewall.Links.Insert.{IsChain-update}
use watchfirewall.Rule.{Rule, AddRuleMessage, InitMemory, init, compare_rule}
use watchfirewall.Rules.{
  Rules, Code, new_rule, inserted_before, appended_after, add_loop, add_rule, retain_rule,
  release_rule,
}

-- How the new rule at `w` compares with the rule at `x`.
abbrev pub Compares : Rules → Ptr → Ordering → Ptr → Type 0
Compares s w o x = compare_rule (s.rule w) (s.rule x) ≡ o

pub Ordering-cases : (o : Ordering) → (o ≡ Ordering.lt) ⊎ (o ≡ Ordering.eq) ⊎ (o ≡ Ordering.gt)
Ordering-cases Ordering.lt = inl refl
Ordering-cases Ordering.eq = inr (inl refl)
Ordering-cases Ordering.gt = inr (inr refl)

-- Where the loop stops, from rules `s` to which the new rule belongs already.
pub data Placement (os : Atomics) (now : ℕ) (s : Rules) (w : Ptr) (xs : List Ptr) (c : Code)
    (p : Ptr) (t : Rules) : Type 0 where
  exists :
      (front back : List Ptr)
      → xs ≡ front ++ p ∷ back
      → All (Compares s w Ordering.lt) front
      → Compares s w Ordering.eq p
      → c ≡ Code.one
      → t ≡ retain_rule os p (release_rule os w s)
      → Placement os now s w xs c p t
  inserted :
      (current : Ptr) (front back : List Ptr)
      → xs ≡ front ++ current ∷ back
      → All (Compares s w Ordering.lt) front
      → Compares s w Ordering.gt current
      → c ≡ Code.naught
      → p ≡ w
      → t ≡ inserted_before os now w current s
      → Placement os now s w xs c p t
  appended :
      All (Compares s w Ordering.lt) xs
      → c ≡ Code.naught
      → p ≡ w
      → t ≡ appended_after os w (last null xs) s
      → Placement os now s w xs c p t

add_loop-null :
    (os : Atomics) (fuel now : ℕ) (s : Rules) (w prev : Ptr)
    → add_loop os (suc fuel) now w prev null s ≡ some (Code.naught, w, appended_after os w prev s)
unfolding add_loop
add_loop-null os fuel now s w prev = refl

module _ (os : Atomics) (fuel now : ℕ) (s : Rules) (w prev x : Ptr) (n : x ≢ null) where
  add_loop-lt :
      Compares s w Ordering.lt x
      → add_loop os (suc fuel) now w prev x s ≡ add_loop os fuel now w x (s.next x) s
  unfolding add_loop
  add_loop-lt e = rw (==-ne x null n, e, add_loop) refl

  add_loop-eq :
      Compares s w Ordering.eq x
      → add_loop os (suc fuel) now w prev x s
        ≡ some (Code.one, x, retain_rule os x (release_rule os w s))
  unfolding add_loop
  add_loop-eq e = rw (==-ne x null n, e, add_loop) refl

  add_loop-gt :
      Compares s w Ordering.gt x
      → add_loop os (suc fuel) now w prev x s ≡ some (Code.naught, w, inserted_before os now w x s)
  unfolding add_loop
  add_loop-gt e = rw (==-ne x null n, e, add_loop) refl

module _ (os : Atomics) (now : ℕ) (s : Rules) (w : Ptr) (xs : List Ptr) where
  pub add_loop-Placement :
      (fuel : ℕ) (front rest : List Ptr) (prev current : Ptr)
      → xs ≡ front ++ rest
      → prev ≡ last null front
      → All (Compares s w Ordering.lt) front
      → Seg s.next current rest null
      → length rest < fuel
      → (c : Code) × (p : Ptr) × (t : Rules) × (add_loop os fuel now w prev current s
          ≡ some (c, p, t))
        × Placement os now s w xs c p t
  add_loop-Placement zero front rest prev current e l a is h = elim h [ ]
  add_loop-Placement (suc fuel) front [] prev current e l a is h =
      let e' : xs ≡ front = e ∙ append-nil front in
      (
        Code.naught,
        w,
        appended_after os w prev s,
        rw is (add_loop-null os fuel now s w prev),
        appended (rw e' a) refl refl (rw (l, e') refl),
      )
  add_loop-Placement (suc fuel) front (x ∷ rest) prev current e l a is h =
      elim (Ordering-cases (compare_rule (s.rule w) (s.rule x))) [
        | inl less ↦
            let (c, p, t, e', f) =
              add_loop-Placement fuel (front ++ x ∷ []) rest x (s.next x)
                (e ∙ sym (append_assoc front (x ∷ []) rest)) (sym (last-snoc null front x))
                (All-append (Compares s w Ordering.lt) front (x ∷ []) a (less, tt)) is.2
                (omega arith) in
            (c, p, t, rw (is.0) (add_loop-lt os fuel now s w prev x is.1 less ∙ e'), f)
        | inr (inl same) ↦ (
          Code.one,
          x,
          retain_rule os x (release_rule os w s),
          rw (is.0) (add_loop-eq os fuel now s w prev x is.1 same),
          exists front rest e a same refl refl,
        )
        | inr (inr more) ↦ (
          Code.naught,
          w,
          inserted_before os now w x s,
          rw (is.0) (add_loop-gt os fuel now s w prev x is.1 more),
          inserted x front rest e a more refl refl refl,
        )
      ]

-- The loop passes lesser rules, and stops at a greater one.
pub add_loop-before :
    (os : Atomics) (now : ℕ) (s : Rules) (w c : Ptr) (fuel : ℕ) (prev p : Ptr) (xs : List Ptr)
    → Seg s.next p (xs ++ c ∷ []) null
    → All (Compares s w Ordering.lt) xs
    → Compares s w Ordering.gt c
    → length xs < fuel
    → add_loop os fuel now w prev p s ≡ some (Code.naught, w, inserted_before os now w c s)
add_loop-before os now s w c zero prev p xs is a g h = elim h [ ]
add_loop-before os now s w c (suc fuel) prev p [] is a g h =
    rw is.0 (add_loop-gt os fuel now s w prev c is.1 g)
add_loop-before os now s w c (suc fuel) prev p (x ∷ xs) is a g h = rw is.0 (
    add_loop-lt os fuel now s w prev x is.1 a.0
    ∙ add_loop-before os now s w c fuel x (s.next x) xs is.2 a.1 g (omega arith))

-- AddRule on a chain of rules, the new object `w` being none of them: it ends, with the first rule that compares
-- equal or with the new rule in its place.
pub add_rule-Placement :
    (os : Atomics) (fuel now : ℕ) (w : Ptr) (mem : InitMemory) (m : AddRuleMessage) (s : Rules)
    (xs : List Ptr) (r : Rule)
    → w ≢ null
    → init mem m ≡ some r
    → Fresh w xs
    → IsChain s.links xs
    → length xs < fuel
    → (c : Code) × (p : Ptr) × (t : Rules) × (add_rule os fuel now w mem m s ≡ some (c, p, t))
      × Placement os now (new_rule w r s) w xs c p t
unfolding add_rule new_rule
add_rule-Placement os fuel now w mem m s xs r n e f is h =
    let is' = IsChain-update s.links w null null xs f is in
    let (c, p, t, e', k) =
      add_loop-Placement os now (new_rule w r s) w xs fuel [] xs null s.root refl refl tt is'.chain
        h in
    (c, p, t, rw (==-ne w null n, e) e', k)
