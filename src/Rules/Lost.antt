-- ===== src/Rules/Lost.antt =====
-- What follows from AddRule's branch for a rule below all others, which sets neither its `prev` field nor the
-- time of the last change.
use watchfirewall.Prelude.{
  ℕ, ◌<◌, List, [], ◌∷◌, ◌++◌, ◌≡◌, ◌≢◌, refl, sym, ◌∙◌, subst, some, arith, All, All-append_right,
  Fresh, last, length, ==-refl, ==-ne, ◌==◌, Ordering, Option, false, length-append,
  Fresh-append_left, Fresh-append_right,
}
use watchfirewall.Kernel.{Atomics}
use watchfirewall.Links.{Ptr, null, Links, append_after, unlink, bypass_next, bypass_prev}
use watchfirewall.Links.Segment.{Seg}
use watchfirewall.Links.Edit.{IsChain}
use watchfirewall.Links.Insert.{IsChain-update, insert_before_first, append_after-IsChain}
use watchfirewall.Rule.{Rule, AddRuleMessage, InitMemory, init, compare_rule}
use watchfirewall.Rules.{
  Rules, Code, new_rule, appended_after, inserted_before, add_rule, retain_rule, delete_rule,
  deleted_at, remove_from_chain,
}
use watchfirewall.Rules.Walk.{walk-last}
use watchfirewall.Rules.Add.{
  add_loop-before, Compares, add_rule-Placement, Placement, exists, inserted, appended,
}

-- The rule `r` is less than each of the rules.
abbrev pub Least : Rule → (Ptr → Rule) → List Ptr → Type 0
Least r rule xs = All (λ x. compare_rule r (rule x) ≡ Ordering.lt) xs

Least-new_rule :
    (s : Rules) (w : Ptr) (r : Rule) (xs : List Ptr)
    → Fresh w xs
    → Least r s.rule xs
    → All (λ x. compare_rule ((new_rule w r s).rule w) ((new_rule w r s).rule x) ≡ Ordering.lt) xs
unfolding new_rule
Least-new_rule s w r [] f a = tt
Least-new_rule s w r (x ∷ xs) f a =
    (rw (==-refl w, ==-ne w x f.0) a.0, Least-new_rule s w r xs f.1 a.1)

-- A rule below all others is appended.
pub add_rule-Least :
    (os : Atomics) (fuel now : ℕ) (w : Ptr) (mem : InitMemory) (m : AddRuleMessage) (s : Rules)
    (xs : List Ptr) (r : Rule)
    → w ≢ null
    → init mem m ≡ some r
    → Fresh w xs
    → IsChain s.links xs
    → length xs < fuel
    → Least r s.rule xs
    → add_rule os fuel now w mem m s
      ≡ some (Code.naught, w, appended_after os w (last null xs) (new_rule w r s))
add_rule-Least os fuel now w mem m s xs r n e f is h a =
    let (c, p, t, e', k) = add_rule-Placement os fuel now w mem m s xs r n e f is h in
    e' ∙ finish c p t k
  where
    least : All (Compares (new_rule w r s) w Ordering.lt) xs
    least = Least-new_rule s w r xs f a

    finish :
        (c : Code) (p : Ptr) (t : Rules)
        → Placement os now (new_rule w r s) w xs c p t
        → ◌≡◌ {A = Option (Code × Ptr × Rules)}
            (some (c, p, t))
            (some (Code.naught, w, appended_after os w (last null xs) (new_rule w r s)))
    finish c p t (exists front back e a q ec et) =
        let l = All-append_right _ front (p ∷ back) (rw e at least) in cc
    finish c p t (inserted current front back e a q ec ep et) =
        let l = All-append_right _ front (current ∷ back) (rw e at least) in cc
    finish c p t (appended a ec ep et) = rw (ec, ep, et) refl

module _ (os : Atomics) (s : Rules) (w : Ptr) (r : Rule) (xs : List Ptr) (n : w ≢ null)
    (f : Fresh w xs) (is : IsChain s.links xs) where
  t : Rules
  t = appended_after os w (last null xs) (new_rule w r s)

  t-IsChain : IsChain t.links (xs ++ w ∷ [])
  unfolding t appended_after new_rule retain_rule
  t-IsChain =
      append_after-IsChain (new_rule w r s).links w xs n f (rw (==-refl w) refl)
        (IsChain-update s.links w null null xs f is)

  prev-t : t.prev w ≡ null
  unfolding t appended_after new_rule retain_rule append_after
  prev-t = ground arith

  time-t : t.last_changed_time ≡ s.last_changed_time
  unfolding t appended_after new_rule retain_rule
  time-t = refl

  id-t : (t.rule w).id ≡ r.id
  unfolding t appended_after new_rule retain_rule
  id-t = rw (==-refl w) refl

  other_ids :
      (i : ℕ) (ys : List Ptr)
      → Fresh w ys
      → All (λ x. (s.rule x).id ≢ i) ys
      → All (λ x. ((t.rule x).id == i) ≡ false) ys
  unfolding t appended_after new_rule retain_rule
  other_ids i [] f a = tt
  other_ids i (y ∷ ys) f a = (rw (==-ne w y f.0) (==-ne _ i a.0), other_ids i ys f.1 a.1)

-- What happens to the root when a rule with a NULL `prev` field is removed.
root-remove_from_chain :
    (w : Ptr) (l : Links) → l.prev w ≡ null → (remove_from_chain w l).root ≡ l.next w
unfolding remove_from_chain unlink bypass_next bypass_prev
root-remove_from_chain w l e = ground arith

next-last :
    (next : Ptr → Ptr) (p : Ptr) (xs : List Ptr) (w : Ptr)
    → Seg next p (xs ++ w ∷ []) null
    → next w ≡ null
next-last next p [] w s = s.2
next-last next p (x ∷ xs) w s = next-last next (next x) xs w s.2

-- The defect: adding a rule below all others and deleting it again leaves no rule at all. Nor does
-- adding it count as a change of the rules.
pub add_rule-delete_rule :
    (os : Atomics) (fuel now later : ℕ) (w : Ptr) (mem : InitMemory) (m : AddRuleMessage)
    (s : Rules) (xs : List Ptr) (r : Rule)
    → w ≢ null
    → init mem m ≡ some r
    → Fresh w xs
    → IsChain s.links xs
    → length xs < fuel
    → Least r s.rule xs
    → All (λ x. (s.rule x).id ≢ r.id) xs
    → (t u : Rules) × (add_rule os fuel now w mem m s ≡ some (Code.naught, w, t))
      × (t.last_changed_time ≡ s.last_changed_time)
      × (delete_rule fuel later r.id t ≡ some (Code.naught, u))
      × (u.root ≡ null)
unfolding delete_rule t
add_rule-delete_rule os fuel now later w mem m s xs r n e f is h a i =
    let u = t os s w r xs n f is in
    let c = t-IsChain os s w r xs n f is in
    let found =
      walk-last (λ k. k.id == r.id) u fuel u.root w xs c.chain
        (other_ids os s w r xs n f is r.id xs f i) (rw (id-t os s w r xs n f is) (==-refl r.id))
        h in
    (
      u,
      deleted_at later w u,
      add_rule-Least os fuel now w mem m s xs r n e f is h a,
      time-t os s w r xs n f is,
      rw (found, delete_rule, ==-ne w null n) refl,
      root-remove_from_chain w u.links (prev-t os s w r xs n f is)
          ∙ next-last u.next u.root xs w c.chain,
    )

new_rule-IsChain :
    (s : Rules) (w : Ptr) (r : Rule) (xs : List Ptr)
    → Fresh w xs
    → IsChain s.links xs
    → IsChain (new_rule w r s).links xs
unfolding new_rule
new_rule-IsChain s w r xs f is = IsChain-update s.links w null null xs f is

inserted_before-first :
    (os : Atomics) (now : ℕ) (w c : Ptr) (s : Rules)
    → w ≢ null
    → c ≢ null
    → w ≢ c
    → s.prev c ≡ null
    → s.next c ≡ null
    → IsChain (inserted_before os now w c s).links (w ∷ c ∷ [])
unfolding inserted_before retain_rule
inserted_before-first os now w c s n m d z e =
    subst (λ l. IsChain l (w ∷ c ∷ [])) (sym (insert_before_first s.links w c d z))
      (record {
        chain = (refl, n, (rw ==-refl refl, m, rw (==-ne w c d) e));
        distinct = ((d, tt), (tt, tt));
      })

Least-new_rule_gt :
    (s : Rules) (w c : Ptr) (r : Rule)
    → w ≢ c
    → compare_rule r (s.rule c) ≡ Ordering.gt
    → Compares (new_rule w r s) w Ordering.gt c
unfolding new_rule
Least-new_rule_gt s w c r d g = rw (==-refl w, ==-ne w c d) g

prev-new_rule : (s : Rules) (w c : Ptr) (r : Rule) → w ≢ c → (new_rule w r s).prev c ≡ s.prev c
unfolding new_rule
prev-new_rule s w c r d = rw (==-ne w c d) refl

last-ne_null :
    (next : Ptr → Ptr) (p : Ptr) (xs : List Ptr) (w : Ptr)
    → Seg next p (xs ++ w ∷ []) null
    → w ≢ null
last-ne_null next p [] w s = s.1
last-ne_null next p (x ∷ xs) w s = last-ne_null next (next x) xs w s.2

-- The defect once more: where the last rule, `c`, was appended, so that its `prev` field is NULL, a new
-- rule that belongs just before it becomes the root, and all rules before it are lost.
pub add_rule_before_appended :
    (os : Atomics) (fuel now : ℕ) (w c : Ptr) (mem : InitMemory) (m : AddRuleMessage) (s : Rules)
    (xs : List Ptr) (r : Rule)
    → w ≢ null
    → init mem m ≡ some r
    → Fresh w (xs ++ c ∷ [])
    → IsChain s.links (xs ++ c ∷ [])
    → s.prev c ≡ null
    → length (xs ++ c ∷ []) < fuel
    → Least r s.rule xs
    → compare_rule r (s.rule c) ≡ Ordering.gt
    → (t : Rules) × (add_rule os fuel now w mem m s ≡ some (Code.naught, w, t))
      × IsChain t.links (w ∷ c ∷ [])
unfolding add_rule new_rule
add_rule_before_appended os fuel now w c mem m s xs r n e f is z h a g =
    let u = new_rule w r s in
    let fc = (Fresh-append_right w xs (c ∷ []) f).0 in
    let is' = new_rule-IsChain s w r (xs ++ c ∷ []) f is in
    let below = Least-new_rule s w r xs (Fresh-append_left w xs (c ∷ []) f) a in
    let shorter = length-append xs (c ∷ []) in
    let above = Least-new_rule_gt s w c r fc g in
    (
      inserted_before os now w c u,
      rw (==-ne w null n, e, add_rule)
          (add_loop-before os now u w c fuel null s.root xs is'.chain below above (omega arith)),
      inserted_before-first os now w c u n (last-ne_null s.next s.root xs c is.chain) fc
          (prev-new_rule s w c r fc ∙ z) (next-last u.next s.root xs c is'.chain),
    )
