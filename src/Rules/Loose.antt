-- ===== src/Rules/Loose.antt =====
-- Rules::AddRule and Rules::DeleteRule of Kext/rule.cpp on the lists that they make: a rule's `prev` field is
-- NULL or names the rule before it.
use watchfirewall.Prelude.{
  ℕ, suc, ◌<◌, ◌≤◌, List, [], ◌∷◌, ◌++◌, ◌≡◌, ◌≢◌, inl, inr, refl, ap, some, arith, All, All-append,
  All-append_left, All-append_right, Fresh, length, length-append, ==-refl, ◌==◌, Bool-cases,
  Option-cases,
}
use watchfirewall.Kernel.{Atomics}
use watchfirewall.Links.{Ptr, Links, null}
use watchfirewall.Links.Segment.{Loosely}
use watchfirewall.Links.Edit.{IsLoose}
use watchfirewall.Links.Insert.{IsLinked-update}
use watchfirewall.Links.Loose.{kept, insert_before-IsLoose, append_after-IsLoose}
use watchfirewall.Rule.{Rule, AddRuleMessage, InitMemory, init}
use watchfirewall.Rules.{
  Rules, Code, new_rule, inserted_before, appended_after, add_rule, delete_rule, retain_rule,
  release_rule,
}
use watchfirewall.Rules.Delete.{absent, removed, LooseDeletion, delete_rule-LooseDeletion}
use watchfirewall.Rules.Add.{Placement, exists, inserted, appended, add_rule-Placement}

-- The rules are loosely linked in a list of at most `n`, and what is claimed of an address goes for each of it.
pub record Holds (P : Ptr → Type 0) (n : ℕ) (s : Rules) : Type 0 where
  pub list : List Ptr
  pub is_list : IsLoose s.links list
  pub all_in : All P list
  pub few : length list ≤ n

module _ (P : Ptr → Type 0) where
  All-kept : (l : Links) (x : Ptr) (xs : List Ptr) → All P xs → All P (kept l x xs)
  All-kept l x xs a = elim (Bool-cases (l.prev x == null)) [ inl e ↦ rw e tt | inr e ↦ rw e a ]

  pub Holds-links : {n : ℕ} (s t : Rules) → t.links ≡ s.links → Holds P n s → Holds P n t
  Holds-links s t e h = record {
    list = h.list;
    is_list = rw e h.is_list;
    all_in = h.all_in;
    few = h.few;
  }

length-kept : (l : Links) (x : Ptr) (xs : List Ptr) → length (kept l x xs) ≤ length xs
length-kept l x xs = elim (Bool-cases (l.prev x == null)) [
  | inl e ↦ rw e (omega arith)
  | inr e ↦ rw e (omega arith)
]

pub links-release_rule :
    (os : Atomics) (r : Ptr) (s : Rules) → (release_rule os r s).links ≡ s.links
unfolding release_rule
links-release_rule os r s = ground arith

pub links-retain_rule : (os : Atomics) (r : Ptr) (s : Rules) → (retain_rule os r s).links ≡ s.links
unfolding retain_rule
links-retain_rule os r s = refl

module _ (P : Ptr → Type 0) (n fuel now : ℕ) (s : Rules) (h : Holds P n s) (enough : n < fuel) where
  -- DeleteRule on loosely linked rules ends, and leaves rules of theirs, loosely linked.
  pub delete_rule-Holds :
      (rule_id : ℕ)
      → (c : Code) × (t : Rules) × (delete_rule fuel now rule_id s ≡ some (c, t)) × Holds P n t
  delete_rule-Holds rule_id =
      let small = h.few in
      let (c, t, e, d) =
        delete_rule-LooseDeletion s rule_id now fuel h.list h.is_list (omega arith) in
      (c, t, e, finish c t d)
    where
      finish : (c : Code) (t : Rules) → LooseDeletion s h.list rule_id now c t → Holds P n t
      finish c t (absent a z same) = Holds-links P s t (ap (λ (k : Rules). k.links) same) h
      finish c t (removed r front back p a i z is st refs others live time) =
          let a : All P (front ++ r ∷ back) = rw p at h.all_in in
          record {
            list = kept s.links r front ++ back;
            is_list = is;
            all_in =
                All-append P (kept s.links r front) back
                  (All-kept P s.links r front (All-append_left P front (r ∷ back) a))
                  (All-append_right P front (r ∷ back) a).1;
            few =
                let small = h.few in
                let same = ap (λ (l : List Ptr). length l) p in
                let less = length-kept s.links r front in
                omega (
                  arith,
                  length-append (kept s.links r front) back,
                  length-append front (r ∷ back),
                );
          }

-- The new rule `w` is placed in the list `xs`.
module _ (P : Ptr → Type 0) (n : ℕ) (os : Atomics) (now : ℕ) (w : Ptr) (r : Rule) (s : Rules)
    (h : Holds P n s) (z : w ≢ null) (f : Fresh w h.list) (pw : P w) where
  placed : IsLoose (new_rule w r s).links h.list
  unfolding new_rule
  placed = IsLinked-update s.links w null null h.list f Loosely h.is_list

  nexts : ((new_rule w r s).next w ≡ null) × ((new_rule w r s).prev w ≡ null)
  unfolding new_rule
  nexts = (rw ==-refl refl, rw ==-refl refl)

  Placement-Holds :
      (c : Code) (p : Ptr) (t : Rules)
      → Placement os now (new_rule w r s) w h.list c p t
      → Holds P (suc n) t
  unfolding inserted_before appended_after
  Placement-Holds c p t (exists front back e a q ec et) =
      let small = h.few in
      record {
        list = h.list;
        is_list = rw (et, links-retain_rule, links-release_rule) placed;
        all_in = h.all_in;
        few = omega arith;
      }
  Placement-Holds c p t (inserted x front back e a q ec ep et) =
      let l = (new_rule w r s).links in
      let front' = kept l x front in
      let a : All P (front ++ x ∷ back) = rw e at h.all_in in
      record {
        list = front' ++ w ∷ x ∷ back;
        is_list =
            rw (et, links-retain_rule)
              (insert_before-IsLoose l x front back (rw e at placed) w z (rw e at f));
        all_in =
            All-append P front' (w ∷ x ∷ back)
              (All-kept P l x front (All-append_left P front (x ∷ back) a))
              (pw, All-append_right P front (x ∷ back) a);
        few =
            let small = h.few in
            let same = ap (λ (l : List Ptr). length l) e in
            let less = length-kept l x front in
            omega (arith, length-append front' (w ∷ x ∷ back), length-append front (x ∷ back));
      }
  Placement-Holds c p t (appended a ec ep et) = record {
    list = h.list ++ w ∷ [];
    is_list =
        rw (et, links-retain_rule)
          (append_after-IsLoose (new_rule w r s).links w h.list z f nexts.0 nexts.1 placed);
    all_in = All-append P h.list (w ∷ []) h.all_in (pw, tt);
    few = let small = h.few in omega (arith, length-append h.list (w ∷ []));
  }

-- AddRule on loosely linked rules, the new object being none of them: it ends, with at most one more.
pub add_rule-Holds :
    (P : Ptr → Type 0) (n : ℕ) (os : Atomics) (fuel now : ℕ) (w : Ptr) (mem : InitMemory)
    (m : AddRuleMessage) (s : Rules)
    → (h : Holds P n s) → n < fuel
    → Fresh w h.list
    → (w ≢ null → P w)
    → (c : Code) × (p : Ptr) × (t : Rules) × (add_rule os fuel now w mem m s ≡ some (c, p, t))
      × Holds P (suc n) t
unfolding add_rule
add_rule-Holds P n os fuel now w mem m s h enough f pw = elim (Bool-cases (w == null)) [
  | inl e ↦ (Code.minus_one, null, s, rw (add_rule, e) refl, more)
  | inr e ↦ elim (Option-cases (init mem m)) [
    | inl e' ↦ (Code.minus_one, null, s, rw (add_rule, e, e') refl, more)
    | inr (r, e') ↦
        let z : w ≢ null = ground arith in
        let small = h.few in
        let (c, p, t, made, k) =
          add_rule-Placement os fuel now w mem m s h.list r z e' f h.is_list.forward
            (omega arith) in
        (c, p, t, made, Placement-Holds P n os now w r s h z f (pw z) c p t k)
  ]
]
  where
    more : Holds P (suc n) s
    more =
        let small = h.few in
        record { list = h.list; is_list = h.is_list; all_in = h.all_in; few = omega arith }
