-- ===== src/Rules/Sorted.antt =====
-- Rules::AddRule of Kext/rule.cpp on the sorted lists that it makes, in which a rule's `prev` field is NULL or names the
-- rule before it.
use watchfirewall.Prelude.{
  ℕ, ◌<◌, List, [], ◌∷◌, ◌++◌, ◌≡◌, ◌≢◌, inl, inr, refl, subst, some, All, Fresh, last, length,
  ==-refl, ==-ne, Ordering, ◌==◌, Bool-cases, Fresh-append_right,
}
use mathlib.Core.List.{append-nil}
use watchfirewall.Kernel.{Atomics}
use watchfirewall.Links.{Ptr, Links, null, insert_before}
use watchfirewall.Links.Edit.{IsLoose}
use watchfirewall.Links.Segment.{Loosely}
use watchfirewall.Links.Insert.{IsLinked-update}
use watchfirewall.Links.Loose.{kept, insert_before-IsLoose, append_after-IsLoose}
use watchfirewall.Rule.{Rule, AddRuleMessage, InitMemory, init}
use watchfirewall.Rules.{
  Rules, Code, new_rule, inserted_before, appended_after, add_rule, retain_rule, release_rule,
}
use watchfirewall.Rules.Loose.{links-retain_rule, links-release_rule}
use watchfirewall.Rules.Answer.{Answer, Placement-Answer}
use watchfirewall.Rules.Add.{Compares, Placement, exists, inserted, appended, add_rule-Placement}
use watchfirewall.Rules.Order.{
  IsSorted, IsSorted-Alike, IsSorted-update, IsSorted-insert, IsSorted-tail, Above-rest,
  retain_rule-Alike, release_rule-Alike,
}

-- The addresses after AddRule, which put the new rule at `w` among those of `xs`.
pub data Result (s : Rules) (w : Ptr) (xs : List Ptr) (c : Code) (zs : List Ptr) : Type 0 where
  there : c ≡ Code.one → zs ≡ xs → Result s w xs c zs
  before :
      (x : Ptr) (front back : List Ptr)
      → c ≡ Code.naught
      → xs ≡ front ++ x ∷ back
      → zs ≡ kept s.links x front ++ w ∷ x ∷ back
      → Result s w xs c zs
  at_end : c ≡ Code.naught → zs ≡ xs ++ w ∷ [] → Result s w xs c zs

pub record LooseAfter (s : Rules) (w : Ptr) (xs : List Ptr) (c : Code) (t : Rules) : Type 0 where
  pub rules : List Ptr
  pub result : Result s w xs c rules
  pub is_list : IsLoose t.links rules
  pub sorted : IsSorted t.rule rules

IsSorted-append_right : (f : Ptr → Rule) (xs ys : List Ptr) → IsSorted f (xs ++ ys) → IsSorted f ys
IsSorted-append_right f [] ys s = s
IsSorted-append_right f (x ∷ xs) ys s = IsSorted-append_right f xs ys s.1

IsSorted-kept :
    (f : Ptr → Rule) (l : Links) (x : Ptr) (xs ys : List Ptr)
    → IsSorted f (xs ++ ys)
    → IsSorted f (kept l x xs ++ ys)
IsSorted-kept f l x xs ys s = elim (Bool-cases (l.prev x == null)) [
  | inl e ↦ rw e (IsSorted-append_right f xs ys s)
  | inr e ↦ rw e s
]

module _ (os : Atomics) (now : ℕ) (s : Rules) (w : Ptr) (r : Rule) (xs : List Ptr) (n : w ≢ null)
    (f : Fresh w xs) (is : IsLoose s.links xs) (sorted : IsSorted s.rule xs) where
  abbrev u : Rules
  u = new_rule w r s

  u-IsLoose : IsLoose u.links xs
  unfolding new_rule
  u-IsLoose = IsLinked-update s.links w null null xs f Loosely is

  u-IsSorted : IsSorted u.rule xs
  unfolding new_rule
  u-IsSorted = IsSorted-update s.rule w r xs f sorted

  fresh_links : (u.next w ≡ null) × (u.prev w ≡ null)
  unfolding new_rule
  fresh_links = (rw ==-refl refl, rw ==-refl refl)

  kept-new_rule : (x : Ptr) (front : List Ptr) → w ≢ x → kept u.links x front ≡ kept s.links x front
  unfolding new_rule
  kept-new_rule x front z = rw (==-ne w x z) refl

  LooseAfter-exists :
      (p : Ptr) → LooseAfter s w xs Code.one (retain_rule os p (release_rule os w u))
  LooseAfter-exists p =
      let v = release_rule os w u in
      record {
        rules = xs;
        result = there refl refl;
        is_list = rw (links-retain_rule, links-release_rule) u-IsLoose;
        sorted =
            IsSorted-Alike v.rule _ (retain_rule-Alike os p v) xs
              (IsSorted-Alike u.rule v.rule (release_rule-Alike os w u) xs u-IsSorted);
      }

  LooseAfter-inserted :
      (x : Ptr) (front back : List Ptr)
      → xs ≡ front ++ x ∷ back
      → All (Compares u w Ordering.lt) front
      → Compares u w Ordering.gt x
      → LooseAfter s w xs Code.naught (inserted_before os now w x u)
  unfolding inserted_before
  LooseAfter-inserted x front back e a g =
      let so = rw e at u-IsSorted in
      let z = (Fresh-append_right w front (x ∷ back) (rw e at f)).0 in
      let same = kept-new_rule x front z in
      record {
        rules = kept s.links x front ++ w ∷ x ∷ back;
        result = before x front back refl e refl;
        is_list = rw links-retain_rule (
            subst (λ k. IsLoose (insert_before w x u.links) (k ++ w ∷ x ∷ back)) same
              (insert_before-IsLoose u.links x front back (rw e at u-IsLoose) w n (rw e at f)));
        sorted =
            IsSorted-Alike u.rule _ (retain_rule-Alike os w _)
              (kept s.links x front ++ w ∷ x ∷ back)
              (IsSorted-kept u.rule s.links x front (w ∷ x ∷ back) (
                IsSorted-insert u.rule w front (x ∷ back) a
                  (g, Above-rest u.rule w x back g (IsSorted-tail u.rule w front x back so)) so));
      }

  LooseAfter-appended :
      All (Compares u w Ordering.lt) xs
      → LooseAfter s w xs Code.naught (appended_after os w (last null xs) u)
  unfolding appended_after
  LooseAfter-appended a = record {
    rules = xs ++ w ∷ [];
    result = at_end refl refl;
    is_list =
        rw links-retain_rule
          (append_after-IsLoose u.links w xs n f fresh_links.0 fresh_links.1 u-IsLoose);
    sorted =
        IsSorted-Alike u.rule _ (retain_rule-Alike os w _) (xs ++ w ∷ [])
          (IsSorted-insert u.rule w xs [] a tt (rw append-nil u-IsSorted));
  }

-- AddRule on sorted rules whose `prev` fields are NULL or right, with a new object that is none of them: it
-- ends, and the rules are sorted and linked in this way again. They are the old ones, the answer being 1; or
-- the old ones and the new one behind them; or the new one and all from the first rule that is
-- less than it, with those in front unless the `prev` field of that rule was NULL.
-- The answer is 1 where it hands back, retained, a rule of the list that is equal to the new one, and 0
-- where it hands back the new one, retained for the list; no other rule changes.
pub add_rule-LooseAfter :
    (os : Atomics) (fuel now : ℕ) (w : Ptr) (mem : InitMemory) (m : AddRuleMessage) (s : Rules)
    (xs : List Ptr) (r : Rule)
    → w ≢ null
    → init mem m ≡ some r
    → Fresh w xs
    → IsLoose s.links xs
    → IsSorted s.rule xs
    → length xs < fuel
    → (c : Code) × (p : Ptr) × (t : Rules) × (add_rule os fuel now w mem m s ≡ some (c, p, t))
      × LooseAfter s w xs c t
      × Answer os s w r xs c p t
add_rule-LooseAfter os fuel now w mem m s xs r n e f is so h =
    let (c, p, t, e', k) = add_rule-Placement os fuel now w mem m s xs r n e f is.forward h in
    (c, p, t, e', finish c p t k, Placement-Answer os now s w r xs f c p t k)
  where
    finish :
        (c : Code) (p : Ptr) (t : Rules)
        → Placement os now (new_rule w r s) w xs c p t
        → LooseAfter s w xs c t
    finish c p t (exists front back e a q ec et) =
        rw (ec, et) (LooseAfter-exists os now s w r xs n f is so p)
    finish c p t (inserted current front back e a q ec ep et) =
        rw (ec, et) (LooseAfter-inserted os now s w r xs n f is so current front back e a q)
    finish c p t (appended a ec ep et) =
        rw (ec, et) (LooseAfter-appended os now s w r xs n f is so a)
