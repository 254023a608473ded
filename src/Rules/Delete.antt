-- ===== src/Rules/Delete.antt =====
-- Rules::DeleteRule, ActivateRule and DeactivateRule of Kext/rule.cpp.
use watchfirewall.Prelude.{
  [], subst, ℕ, ◌<◌, List, ◌∷◌, ◌++◌, ◌≡◌, ◌≢◌, refl, sym, some, arith, All, length, ◌==◌, ==-refl,
  ==-ne, Distinct-middle, Fresh, Fresh-append_right, Bool-cases, inl, inr,
}
use watchfirewall.Links.{Ptr, null, Links, unlink}
use watchfirewall.Links.Edit.{IsChain, IsList, IsLoose, unlink-IsList}
use watchfirewall.Links.Insert.{IsLinked-update, IsList-update}
use watchfirewall.Links.Loose.{kept, unlink-IsLoose}
use watchfirewall.Links.Segment.{Loosely}
use watchfirewall.Rule.{Rule, rule_state_deleted}
use watchfirewall.Rules.{Rules, Code, walk, remove_from_chain, delete_rule, deleted_at}
use watchfirewall.Rules.Walk.{First, missing, found, walk-First}

abbrev pub HasId : ℕ → Rule → Type 0
HasId i r = r.id ≡ i

pub walk-HasId :
    (s : Rules) (i fuel : ℕ) (xs : List Ptr)
    → IsChain s.links xs
    → length xs < fuel
    → (r : Ptr) × (walk (λ r. r.id == i) fuel s.root s ≡ some r) × First (HasId i) s.rule xs r
walk-HasId s i fuel xs is h =
    walk-First (λ r. r.id == i) (HasId i) (λ r e. ground arith) (λ r e. ground arith) s fuel s.root
      xs is.chain h

pub remove_from_chain-IsList :
    (l : Links) (r : Ptr) (front back : List Ptr)
    → IsList l (front ++ r ∷ back)
    → IsList (remove_from_chain r l) (front ++ back)
unfolding remove_from_chain
remove_from_chain-IsList l r front back is =
    IsList-update (unlink r l) r null null (front ++ back)
      (Distinct-middle r front back is.distinct) (unlink-IsList r front back is)

Fresh-kept :
    (l : Links) (x : Ptr) (xs ys : List Ptr) → Fresh x (xs ++ ys) → Fresh x (kept l x xs ++ ys)
Fresh-kept l x xs ys f = elim (Bool-cases (l.prev x == null)) [
  | inl e ↦ rw e (Fresh-append_right x xs ys f)
  | inr e ↦ rw e f
]

pub remove_from_chain-IsLoose :
    (l : Links) (r : Ptr) (front back : List Ptr)
    → IsLoose l (front ++ r ∷ back)
    → IsLoose (remove_from_chain r l) (kept l r front ++ back)
unfolding remove_from_chain
remove_from_chain-IsLoose l r front back is =
    IsLinked-update (unlink r l) r null null (kept l r front ++ back)
      (Fresh-kept l r front back (Distinct-middle r front back is.distinct)) Loosely
      (unlink-IsLoose l r front back is)

pub remove_from_chain_first :
    (l : Links) (r : Ptr) (back : List Ptr)
    → IsLoose l (r ∷ back)
    → IsLoose (remove_from_chain r l) back
remove_from_chain_first l r back is =
    let none : kept l r [] ≡ [] = ground arith in
    subst (λ k. IsLoose (remove_from_chain r l) (k ++ back)) none
      (remove_from_chain-IsLoose l r [] back is)

-- The result and the rules after DeleteRule, which leaves the links as `Left` says.
pub data Outcome (Left : Ptr → (front back : List Ptr) → Links → Type 0) (s : Rules) (xs : List Ptr)
    (rule_id now : ℕ) (c : Code) (t : Rules) : Type 0 where
  absent :
      All (λ x. (s.rule x).id ≢ rule_id) xs
      → c ≡ Code.minus_one
      → t ≡ s
      → Outcome Left s xs rule_id now c t
  removed :
      (r : Ptr) (front back : List Ptr)
      → xs ≡ front ++ r ∷ back
      → All (λ x. (s.rule x).id ≢ rule_id) front
      → (s.rule r).id ≡ rule_id
      → c ≡ Code.naught
      → Left r front back t.links
      → (t.rule r).state ≡ rule_state_deleted
      → (t.rule r).references ≡ (s.rule r).references
      → ((p : Ptr) → p ≢ r → t.rule p ≡ s.rule p)
      → t.live ≡ s.live
      → t.last_changed_time ≡ now
      → Outcome Left s xs rule_id now c t

abbrev pub Deletion : (s : Rules) → List Ptr → (rule_id now : ℕ) → Code → Rules → Type 0
Deletion s xs rule_id now c t =
    Outcome (λ r front back l. IsList l (front ++ back)) s xs rule_id now c t

-- The same on loosely linked rules, of which those in front are kept or not.
abbrev pub LooseDeletion : (s : Rules) → List Ptr → (rule_id now : ℕ) → Code → Rules → Type 0
LooseDeletion s xs rule_id now c t =
    Outcome (λ r front back l. IsLoose l (kept s.links r front ++ back)) s xs rule_id now c t

module _ (s : Rules) (rule_id now fuel : ℕ) (xs : List Ptr) where
  delete_rule-Outcome :
      (Left : Ptr → (front back : List Ptr) → Links → Type 0)
      → ((r : Ptr) (front back : List Ptr)
          → xs ≡ front ++ r ∷ back
          → Left r front back (remove_from_chain r s.links))
      → IsChain s.links xs
      → length xs < fuel
      → (c : Code) × (t : Rules) × (delete_rule fuel now rule_id s ≡ some (c, t))
        × Outcome Left s xs rule_id now c t
  unfolding delete_rule
  delete_rule-Outcome Left left is h =
      let (r, e, f) = walk-HasId s rule_id fuel xs is h in finish r e f
    where
      finish :
          (r : Ptr)
          → walk (λ r. r.id == rule_id) fuel s.root s ≡ some r
          → First (HasId rule_id) s.rule xs r
          → (c : Code) × (t : Rules) × (delete_rule fuel now rule_id s ≡ some (c, t))
            × Outcome Left s xs rule_id now c t
      finish r e (missing z a) =
          (Code.minus_one, s, rw (e, delete_rule, z) refl, absent a refl refl)
      finish r e (found front back p n a i) = (
        Code.naught,
        deleted_at now r s,
        rw (e, delete_rule, ==-ne r null n) refl,
        removed r front back p a i refl (left r front back p) (rw ==-refl refl) (rw ==-refl refl)
            (λ q m. rw (==-ne r q (λ w. m (sym w))) refl) refl refl,
      )

  -- DeleteRule on well linked rules: it ends. The first rule with the id is taken out of the
  -- list, which stays well linked, is marked as deleted and keeps its references; all other
  -- rules are as before, the time of the change is noted and the result is 0. Where no rule has
  -- the id, the result is -1 and nothing changes. Fuel for more than the rules is enough.
  pub delete_rule-Deletion :
      IsList s.links xs
      → length xs < fuel
      → (c : Code) × (t : Rules) × (delete_rule fuel now rule_id s ≡ some (c, t))
        × Deletion s xs rule_id now c t
  delete_rule-Deletion is h =
      delete_rule-Outcome (λ r front back l. IsList l (front ++ back))
        (λ r front back p. remove_from_chain-IsList s.links r front back (rw p at is)) is.forward h

  -- DeleteRule on rules as AddRule links them, each rule's `prev` field being NULL or right: it ends. The
  -- first rule with the id is taken out of the list, and all rules before it where its `prev` field
  -- is NULL, which AddRule leaves so in a rule that it appends. The list stays linked in this way. The
  -- rule is marked as deleted and keeps its references; all other rules are as before, the time of the change is
  -- noted and the result is 0. Where no rule has the id, the result is -1 and nothing changes.
  -- Fuel for more than the rules is enough.
  pub delete_rule-LooseDeletion :
      IsLoose s.links xs
      → length xs < fuel
      → (c : Code) × (t : Rules) × (delete_rule fuel now rule_id s ≡ some (c, t))
        × LooseDeletion s xs rule_id now c t
  delete_rule-LooseDeletion is h =
      delete_rule-Outcome (λ r front back l. IsLoose l (kept s.links r front ++ back))
        (λ r front back p. remove_from_chain-IsLoose s.links r front back (rw p at is)) is.forward h
