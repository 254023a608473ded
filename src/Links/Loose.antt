-- ===== src/Links/Loose.antt =====
-- Lists in which an element's `prev` field is NULL or names the element before it: what Rules::AddRule
-- (Kext/rule.cpp) makes, whose branch for the last place does not set `prev`. At an element
-- with a NULL `prev`, the statements that edit the list take it for the first one.
use watchfirewall.Prelude.{
  ◌==◌, if◌then◌else◌, ==-ne, List, [], ◌∷◌, ◌++◌, ◌≡◌, ◌≢◌, ◌⊎◌, inl, inr, refl, sym, ◌∙◌, subst,
  Fresh, Distinct, last, Fresh-append_right, arith,
}
use watchfirewall.Links.{Ptr, Links, null, insert_before, append_after, unlink}
use watchfirewall.Links.Segment.{
  Seg, Loosely, Linked, Seg-append_left, Linked-append, Linked-append_right, last-ne_null,
}
use watchfirewall.Links.Edit.{IsLoose, bypass_next_first, unlink-IsLinked}
use watchfirewall.Links.Insert.{insert_before_first, insert_before-IsLinked, append_after-IsChain}

-- What an edit at the element `x` leaves of the list in front of it: nothing where its `prev` field is NULL.
abbrev pub kept : Links → Ptr → List Ptr → List Ptr
kept l x front = if l.prev x == null then [] else front

-- The list as it starts at the element.
abbrev from : Ptr → Links → Links
from x l = record l { root = x }

Distinct-append_right : (xs ys : List Ptr) → Distinct (xs ++ ys) → Distinct ys
Distinct-append_right [] ys d = d
Distinct-append_right (x ∷ xs) ys d = Distinct-append_right xs ys d.1

module _ (l : Links) (x : Ptr) (xs ys : List Ptr) (is : IsLoose l (xs ++ x ∷ ys)) where
  -- What an element's own `prev` field says of the list.
  link : (l.prev x ≡ null) ⊎ (l.prev x ≡ last null xs)
  link = (Linked-append_right Loosely l.prev null xs (x ∷ ys) is.backs).0

  from-IsLoose : l.prev x ≡ null → IsLoose (from x l) (x ∷ ys)
  from-IsLoose e =
      let (m, left, right) = Seg-append_left l.next l.root xs (x ∷ ys) null is.chain in
      record {
        forward = record {
          chain = (refl, right.1, right.2);
          distinct = Distinct-append_right xs (x ∷ ys) is.distinct;
        };
        backs = (inl e, (Linked-append_right Loosely l.prev null xs (x ∷ ys) is.backs).1);
      }

  unlink_from : l.prev x ≡ null → unlink x l ≡ unlink x (from x l)
  unfolding unlink
  unlink_from e = rw (bypass_next_first l x e, bypass_next_first (from x l) x e) refl

  cut : l.prev x ≡ null → kept l x xs ≡ []
  cut e = rw e refl

  whole : l.prev x ≡ last null xs → kept l x xs ≡ xs
  whole e =
      let (m, left, right) = Seg-append_left l.next l.root xs (x ∷ ys) null is.chain in
      inner xs m left e
    where
      inner :
          (xs : List Ptr) (m : Ptr)
          → Seg l.next l.root xs m
          → l.prev x ≡ last null xs
          → kept l x xs ≡ xs
      inner [] m s e = rw e refl
      inner (a ∷ xs) m s e =
          rw (e, ==-ne (last a xs) null (last-ne_null l.next l.root a xs m s)) refl

  -- Unlinking takes the element out, and all before it where its `prev` field is NULL.
  pub unlink-IsLoose : IsLoose (unlink x l) (kept l x xs ++ ys)
  unlink-IsLoose = elim link [
    | inl e ↦
        subst (λ k. IsLoose (unlink x l) (k ++ ys)) (sym (cut e))
          (rw (unlink_from e) (unlink-IsLinked Loosely x [] ys e (from-IsLoose e)))
    | inr e ↦
        subst (λ k. IsLoose (unlink x l) (k ++ ys)) (sym (whole e))
          (unlink-IsLinked Loosely x xs ys e is)
  ]

  module _ (w : Ptr) (n : w ≢ null) (f : Fresh w (xs ++ x ∷ ys)) where
    fresh : Fresh w (x ∷ ys)
    fresh = Fresh-append_right w xs (x ∷ ys) f

    insert_before_from : l.prev x ≡ null → insert_before w x l ≡ insert_before w x (from x l)
    insert_before_from e =
        insert_before_first l w x fresh.0 e ∙ sym (insert_before_first (from x l) w x fresh.0 e)

    -- An object that is put before an element comes behind all before it, or becomes the
    -- first where the element's `prev` field is NULL.
    pub insert_before-IsLoose : IsLoose (insert_before w x l) (kept l x xs ++ w ∷ x ∷ ys)
    insert_before-IsLoose = elim link [
      | inl e ↦
          subst (λ k. IsLoose (insert_before w x l) (k ++ w ∷ x ∷ ys)) (sym (cut e))
            (rw (insert_before_from e) (
              insert_before-IsLinked (from x l) w x Loosely (λ v. inr refl) [] ys n fresh e
                (from-IsLoose e)))
      | inr e ↦
          subst (λ k. IsLoose (insert_before w x l) (k ++ w ∷ x ∷ ys)) (sym (whole e))
            (insert_before-IsLinked l w x Loosely (λ v. inr refl) xs ys n f e is)
    ]

prev-append_after : (l : Links) (y x : Ptr) → (append_after y x l).prev ≡ l.prev
unfolding append_after
prev-append_after l y x = ground arith

-- An object with NULL links that is appended keeps its NULL `prev` field.
pub append_after-IsLoose :
    (l : Links) (x : Ptr) (xs : List Ptr)
    → x ≢ null
    → Fresh x xs
    → l.next x ≡ null
    → l.prev x ≡ null
    → IsLoose l xs
    → IsLoose (append_after (last null xs) x l) (xs ++ x ∷ [])
append_after-IsLoose l x xs n f e z is = record {
  forward = append_after-IsChain l x xs n f e is.forward;
  backs =
      subst (λ g. Linked Loosely g null (xs ++ x ∷ [])) (sym (prev-append_after l (last null xs) x))
        (Linked-append Loosely l.prev null xs (x ∷ []) is.backs (inl z, tt));
}
