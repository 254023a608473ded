-- ===== src/Rules/Order.antt =====
-- Rules::AddRule keeps the rules in the order of Rule::Compare, greatest first.
use watchfirewall.Prelude.{
  ℕ, ◌<◌, List, [], ◌∷◌, ◌++◌, ◌≡◌, ◌≢◌, ◌⊎◌, inl, inr, refl, sym, ◌∙◌, subst, some, arith, All,
  Fresh, last, length, ==-refl, ==-ne, Ordering, update,
}
use mathlib.Core.List.{append-nil}
use watchfirewall.Kernel.{Atomics}
use watchfirewall.Links.{Ptr, null}
use watchfirewall.Links.Edit.{IsChain, IsList}
use watchfirewall.Links.Insert.{IsList-update, insert_before-IsList, append_after-IsChain}
use watchfirewall.Rule.{Rule, AddRuleMessage, InitMemory, init, compare_rule}
use watchfirewall.Rule.Order.{compare_rule-IsComparison}
use watchfirewall.Rules.{
  Rules, Code, new_rule, inserted_before, appended_after, add_rule, retain_rule, release_rule,
}
use watchfirewall.Rules.Loose.{links-retain_rule, links-release_rule}
use watchfirewall.Rules.Answer.{Answer, Placement-Answer}
use watchfirewall.Rules.Add.{Compares, Placement, exists, inserted, appended, add_rule-Placement}
open compare_rule-IsComparison use {flips, gt_trans}

abbrev Above : (Ptr → Rule) → Ptr → Ptr → Type 0
Above rule x y = compare_rule (rule x) (rule y) ≡ Ordering.gt

-- Each rule is greater than all behind it.
abbrev pub IsSorted : (Ptr → Rule) → List Ptr → Type 0
IsSorted rule [] = Unit {0}
IsSorted rule (x ∷ xs) = All (Above rule x) xs × IsSorted rule xs

-- Two ways to fill the addresses that no comparison tells apart.
abbrev Alike : (Ptr → Rule) → (Ptr → Rule) → Type 0
Alike f g = (x y : Ptr) → compare_rule (g x) (g y) ≡ compare_rule (f x) (f y)

module _ (f g : Ptr → Rule) (same : Alike f g) where
  All-Alike : (x : Ptr) (xs : List Ptr) → All (Above f x) xs → All (Above g x) xs
  All-Alike x [] a = tt
  All-Alike x (y ∷ xs) a = (same x y ∙ a.0, All-Alike x xs a.1)

  pub IsSorted-Alike : (xs : List Ptr) → IsSorted f xs → IsSorted g xs
  IsSorted-Alike [] s = tt
  IsSorted-Alike (x ∷ xs) s = (All-Alike x xs s.0, IsSorted-Alike xs s.1)

module _ (f : Ptr → Rule) (w : Ptr) (r : Rule) where
  All-update :
      (x : Ptr) (xs : List Ptr)
      → w ≢ x
      → Fresh w xs
      → All (Above f x) xs
      → All (Above (update f w r) x) xs
  All-update x [] n h a = tt
  All-update x (y ∷ xs) n h a = (rw (==-ne w x n, ==-ne w y h.0) a.0, All-update x xs n h.1 a.1)

  pub IsSorted-update : (xs : List Ptr) → Fresh w xs → IsSorted f xs → IsSorted (update f w r) xs
  IsSorted-update [] h s = tt
  IsSorted-update (x ∷ xs) h s = (All-update x xs h.0 h.1 s.0, IsSorted-update xs h.1 s.1)

module _ (f : Ptr → Rule) (w : Ptr) where
  pub Above-rest : (c : Ptr) (ys : List Ptr) → Above f w c → All (Above f c) ys → All (Above f w) ys
  Above-rest c [] g a = tt
  Above-rest c (y ∷ ys) g a = (gt_trans (f w) (f c) (f y) g a.0, Above-rest c ys g a.1)

  All-insert :
      (x : Ptr) (xs ys : List Ptr)
      → Above f x w
      → All (Above f x) (xs ++ ys)
      → All (Above f x) (xs ++ w ∷ ys)
  All-insert x [] ys g a = (g, a)
  All-insert x (y ∷ xs) ys g a = (a.0, All-insert x xs ys g a.1)

  -- A rule below those of a prefix and above all that follow goes between.
  pub IsSorted-insert :
      (xs ys : List Ptr)
      → All (λ x. compare_rule (f w) (f x) ≡ Ordering.lt) xs
      → All (Above f w) ys
      → IsSorted f (xs ++ ys)
      → IsSorted f (xs ++ w ∷ ys)
  IsSorted-insert [] ys a b s = (b, s)
  IsSorted-insert (x ∷ xs) ys a b s =
      (All-insert x xs ys (flips (f w) (f x) ∙ rw a.0) s.0, IsSorted-insert xs ys a.1 b s.1)

  pub IsSorted-tail :
      (xs : List Ptr) (c : Ptr) (ys : List Ptr) → IsSorted f (xs ++ c ∷ ys) → All (Above f c) ys
  IsSorted-tail [] c ys s = s.0
  IsSorted-tail (x ∷ xs) c ys s = IsSorted-tail xs c ys s.1

pub retain_rule-Alike :
    (os : Atomics) (p : Ptr) (s : Rules) → Alike s.rule (retain_rule os p s).rule
unfolding retain_rule compare_rule
retain_rule-Alike os p s x y = ground arith

pub release_rule-Alike :
    (os : Atomics) (p : Ptr) (s : Rules) → Alike s.rule (release_rule os p s).rule
unfolding release_rule compare_rule
release_rule-Alike os p s x y = ground arith

-- The list of rules after AddRule: as it was, the answer being 1, or with the new rule in it.
pub data Added (w : Ptr) (xs : List Ptr) (c : Code) (zs : List Ptr) : Type 0 where
  kept : c ≡ Code.one → zs ≡ xs → Added w xs c zs
  put :
      (front back : List Ptr)
      → c ≡ Code.naught
      → xs ≡ front ++ back
      → zs ≡ front ++ w ∷ back
      → Added w xs c zs

-- `back_linked`: the `prev` fields are right, unless the new rule was put behind all others.
pub record SortedAfter (w : Ptr) (xs : List Ptr) (c : Code) (t : Rules) : Type 0 where
  pub rules : List Ptr
  pub added : Added w xs c rules
  pub linked : IsChain t.links rules
  pub sorted : IsSorted t.rule rules
  pub back_linked : IsList t.links rules ⊎ (rules ≡ xs ++ w ∷ [])

module _ (os : Atomics) (now : ℕ) (s : Rules) (w : Ptr) (r : Rule) (xs : List Ptr) (n : w ≢ null)
    (f : Fresh w xs) (is : IsList s.links xs) (sorted : IsSorted s.rule xs) where
  new_rule-IsList : IsList (new_rule w r s).links xs
  unfolding new_rule
  new_rule-IsList = IsList-update s.links w null null xs f is

  new_rule-IsSorted : IsSorted (new_rule w r s).rule xs
  unfolding new_rule
  new_rule-IsSorted = IsSorted-update s.rule w r xs f sorted

  next-new_rule : (new_rule w r s).next w ≡ null
  unfolding new_rule
  next-new_rule = rw (==-refl w)

  SortedAfter-exists :
      (p : Ptr) → SortedAfter w xs Code.one (retain_rule os p (release_rule os w (new_rule w r s)))
  SortedAfter-exists p =
      let u = new_rule w r s in
      let v = release_rule os w u in
      record {
        rules = xs;
        added = kept refl refl;
        linked =
            subst (λ l. IsChain l xs) (sym (links-retain_rule os p v ∙ links-release_rule os w u))
              new_rule-IsList.forward;
        sorted =
            IsSorted-Alike v.rule (retain_rule os p v).rule (retain_rule-Alike os p v) xs
              (IsSorted-Alike u.rule v.rule (release_rule-Alike os w u) xs new_rule-IsSorted);
        back_linked = inl (
            subst (λ l. IsList l xs) (sym (links-retain_rule os p v ∙ links-release_rule os w u))
              new_rule-IsList);
      }

  SortedAfter-inserted :
      (c : Ptr) (front back : List Ptr)
      → xs ≡ front ++ c ∷ back
      → All (Compares (new_rule w r s) w Ordering.lt) front
      → Compares (new_rule w r s) w Ordering.gt c
      → SortedAfter w xs Code.naught (inserted_before os now w c (new_rule w r s))
  unfolding inserted_before
  SortedAfter-inserted c front back e a g =
      let u = new_rule w r s in
      let so = rw e at new_rule-IsSorted in
      let il =
        insert_before-IsList u.links w c front back n (rw e at f) (rw e at new_rule-IsList) in
      record {
        rules = front ++ w ∷ c ∷ back;
        added = put front (c ∷ back) refl e refl;
        linked =
            subst (λ l. IsChain l (front ++ w ∷ c ∷ back)) (sym (links-retain_rule os w _))
              il.forward;
        sorted = IsSorted-Alike u.rule _ (retain_rule-Alike os w _) (front ++ w ∷ c ∷ back) (
            IsSorted-insert u.rule w front (c ∷ back) a
              (g, Above-rest u.rule w c back g (IsSorted-tail u.rule w front c back so)) so);
        back_linked =
            inl (subst (λ l. IsList l (front ++ w ∷ c ∷ back)) (sym (links-retain_rule os w _)) il);
      }

  SortedAfter-appended :
      All (Compares (new_rule w r s) w Ordering.lt) xs
      → SortedAfter w xs Code.naught (appended_after os w (last null xs) (new_rule w r s))
  unfolding appended_after
  SortedAfter-appended a =
      let u = new_rule w r s in
      record {
        rules = xs ++ w ∷ [];
        added = put xs [] refl (sym (append-nil xs)) refl;
        linked =
            subst (λ l. IsChain l (xs ++ w ∷ [])) (sym (links-retain_rule os w _))
              (append_after-IsChain u.links w xs n f next-new_rule new_rule-IsList.forward);
        sorted =
            IsSorted-Alike u.rule _ (retain_rule-Alike os w _) (xs ++ w ∷ [])
              (IsSorted-insert u.rule w xs [] a tt (rw append-nil new_rule-IsSorted));
        back_linked = inr refl;
      }

-- AddRule on well linked, sorted rules, with a new object that is none of them: it ends, and the
-- `next` fields lead through sorted rules, which are the old ones and, unless the answer is 1, the
-- new one. The `prev` fields are right again, unless the new rule is the last.
-- The answer is 1 where it hands back, retained, a rule of the list that is equal to the new one, and 0
-- where it hands back the new one, retained for the list; no other rule changes.
pub add_rule-IsSorted :
    (os : Atomics) (fuel now : ℕ) (w : Ptr) (mem : InitMemory) (m : AddRuleMessage) (s : Rules)
    (xs : List Ptr) (r : Rule)
    → w ≢ null
    → init mem m ≡ some r
    → Fresh w xs
    → IsList s.links xs
    → IsSorted s.rule xs
    → length xs < fuel
    → (c : Code) × (p : Ptr) × (t : Rules) × (add_rule os fuel now w mem m s ≡ some (c, p, t))
      × SortedAfter w xs c t
      × Answer os s w r xs c p t
add_rule-IsSorted os fuel now w mem m s xs r n e f is so h =
    let (c, p, t, e', k) = add_rule-Placement os fuel now w mem m s xs r n e f is.forward h in
    (c, p, t, e', finish c p t k, Placement-Answer os now s w r xs f c p t k)
  where
    finish :
        (c : Code) (p : Ptr) (t : Rules)
        → Placement os now (new_rule w r s) w xs c p t
        → SortedAfter w xs c t
    finish c p t (exists front back e a q ec et) =
        rw (ec, et) (SortedAfter-exists os now s w r xs n f is so p)
    finish c p t (inserted current front back e a q ec ep et) =
        rw (ec, et) (SortedAfter-inserted os now s w r xs n f is so current front back e a q)
    finish c p t (appended a ec ep et) =
        rw (ec, et) (SortedAfter-appended os now s w r xs n f is so a)
