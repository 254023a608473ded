-- ===== src/Links/Edit.antt =====
-- Unlinking an element and linking one in front, seen as edits of the list of addresses.
use watchfirewall.Prelude.{
  ℕ, List, [], ◌∷◌, ◌++◌, ◌≡◌, ◌≢◌, refl, sym, subst, arith, Fresh, Distinct, last, update, ==-refl,
  ==-ne, Fresh-append_left, Fresh-append_right, Distinct-drop, Distinct-append_left,
  Distinct-middle, Distinct-last,
}
use watchfirewall.Links.{Links, null, bypass_next, bypass_prev, unlink, push_front}
use watchfirewall.Links.Segment.{
  Seg, Leads, Seg-Leads, Linked, Exactly, Loosely, Seg-update, Linked-update, Seg-append_left,
  Seg-append, Seg-redirect, Linked-append_left, Linked-append_right, Linked-append, Linked-Loosely,
  last-ne_null,
}

-- The `next` fields lead from the root through the addresses, which are distinct, to NULL.
pub record IsChain (l : Links) (xs : List ℕ) : Type 0 where
  pub chain : Seg l.next l.root xs null
  pub distinct : Distinct xs

-- And the `prev` fields stand in the relation to the addresses before.
pub record IsLinked (D : ℕ → ℕ → Type 0) (l : Links) (xs : List ℕ) : Type 0 where
  pub forward : IsChain l xs
  pub open forward use *
  pub backs : Linked D l.prev null xs

-- The `prev` fields lead back as well.
abbrev pub IsList : Links → List ℕ → Type 0
IsList l xs = IsLinked Exactly l xs

-- Each `prev` field leads back, or is NULL.
abbrev pub IsLoose : Links → List ℕ → Type 0
IsLoose l xs = IsLinked Loosely l xs

pub IsList-IsLoose : {l : Links} (xs : List ℕ) → IsList l xs → IsLoose l xs
IsList-IsLoose {l} xs is = record {
  forward = is.forward;
  backs = Linked-Loosely l.prev null xs is.backs;
}

module _ (l : Links) (x : ℕ) where
  next-bypass_next : (bypass_next x l).next x ≡ l.next x
  unfolding bypass_next
  next-bypass_next = ground arith

  prev-bypass_next : (bypass_next x l).prev ≡ l.prev
  unfolding bypass_next
  prev-bypass_next = ground arith

  next-bypass_prev : (bypass_prev x l).next ≡ l.next
  unfolding bypass_prev
  next-bypass_prev = ground arith

  root-bypass_prev : (bypass_prev x l).root ≡ l.root
  unfolding bypass_prev
  root-bypass_prev = ground arith

  pub bypass_next_first : l.prev x ≡ null → bypass_next x l ≡ record l { root = l.next x }
  unfolding bypass_next
  bypass_next_first e = rw e

  bypass_next_inner :
      (a : ℕ)
      → l.prev x ≡ a
      → a ≢ null
      → bypass_next x l ≡ record l { next = update l.next a (l.next x) }
  unfolding bypass_next
  bypass_next_inner a e n = rw (e, ==-ne a null n)

  bypass_next-Seg :
      (xs ys : List ℕ)
      → l.prev x ≡ last null xs
      → Distinct (xs ++ x ∷ ys)
      → Seg l.next l.root (xs ++ x ∷ ys) null
      → Seg (bypass_next x l).next (bypass_next x l).root (xs ++ ys) null
  bypass_next-Seg [] ys e d s = rw (bypass_next_first e) s.2
  bypass_next-Seg (a ∷ xs) ys e d s =
      let (m, left, right) = Seg-append_left l.next l.root (a ∷ xs) (x ∷ ys) null s in
      let d' = Distinct-drop x (a ∷ xs) ys d in
      subst (λ k. Seg k.next k.root (a ∷ xs ++ ys) null)
        (sym (bypass_next_inner (last a xs) e (last-ne_null l.next l.root a xs m left)))
        (Seg-append _ l.root (a ∷ xs) ys (l.next x) null
          (Seg-redirect l.next l.root a xs m (l.next x) (Distinct-append_left (a ∷ xs) ys d') left)
          (Seg-update l.next (last a xs) (l.next x) (l.next x) ys null (Distinct-last a xs ys d')
            right.2))

  bypass_prev-Linked :
      (D : ℕ → ℕ → Type 0) (xs ys : List ℕ)
      → Distinct (xs ++ x ∷ ys)
      → Leads (l.next x) ys
      → Linked D l.prev null (xs ++ x ∷ ys)
      → Linked D (bypass_prev x l).prev null (xs ++ ys)
  unfolding bypass_prev
  bypass_prev-Linked D xs [] d s b =
      rw s (Linked-append D l.prev null xs [] (Linked-append_left D l.prev null xs (x ∷ []) b) tt)
  bypass_prev-Linked D xs (y ∷ ys) d s b =
      let d' = Distinct-middle y xs ys (Distinct-drop x xs (y ∷ ys) d) in
      let right = Linked-append_right D l.prev null xs (x ∷ y ∷ ys) b in
      rw (s.0, ==-ne y null s.1)
        (Linked-append D _ null xs (y ∷ ys)
          (Linked-update l.prev y (l.prev x) D null xs (Fresh-append_left y xs ys d')
            (Linked-append_left D l.prev null xs (x ∷ y ∷ ys) b))
          (
            rw ==-refl right.0,
            Linked-update l.prev y (l.prev x) D y ys (Fresh-append_right y xs ys d') right.1.1,
          ))

push_front_some :
    (x y : ℕ) (l : Links)
    → l.root ≡ y
    → y ≢ null
    → push_front x l ≡ record { root = x; next = update l.next x l.root; prev = update l.prev y x }
unfolding push_front
push_front_some x y l e n = rw (==-refl x, e, ==-ne y null n)

module _ {l : Links} where
  -- Unlinking removes exactly that element where its own `prev` field is right.
  pub unlink-IsLinked :
      (D : ℕ → ℕ → Type 0) (x : ℕ) (xs ys : List ℕ)
      → l.prev x ≡ last null xs
      → IsLinked D l (xs ++ x ∷ ys)
      → IsLinked D (unlink x l) (xs ++ ys)
  unfolding unlink
  unlink-IsLinked D x xs ys e is =
      let (m, left, right) = Seg-append_left l.next l.root xs (x ∷ ys) null is.chain in
      let b = bypass_next x l in
      record {
        forward = record {
          chain =
              subst (λ f. Seg f (bypass_prev x b).root (xs ++ ys) null) (sym (next-bypass_prev b x))
                (rw (root-bypass_prev b x) (bypass_next-Seg l x xs ys e is.distinct is.chain));
          distinct = Distinct-drop x xs ys is.distinct;
        };
        backs =
            bypass_prev-Linked b x D xs ys is.distinct
              (rw (next-bypass_next l x) (Seg-Leads l.next (l.next x) ys right.2))
              (subst (λ f. Linked D f null (xs ++ x ∷ ys)) (sym (prev-bypass_next l x)) is.backs);
      }

  -- Where all links are right, this goes for each element.
  pub unlink-IsList :
      (x : ℕ) (xs ys : List ℕ) → IsList l (xs ++ x ∷ ys) → IsList (unlink x l) (xs ++ ys)
  unlink-IsList x xs ys is =
      unlink-IsLinked Exactly x xs ys
        (Linked-append_right Exactly l.prev null xs (x ∷ ys) is.backs).0 is

  -- An object that is in no list, its `prev` field NULL, becomes the first element.
  pub push_front-IsList :
      (x : ℕ) (xs : List ℕ)
      → x ≢ null
      → Fresh x xs
      → l.prev x ≡ null
      → IsList l xs
      → IsList (push_front x l) (x ∷ xs)
  unfolding push_front
  push_front-IsList x [] n f e is =
      rw (==-refl x, is.chain)
        (record {
          forward = record { chain = (refl, n, rw ==-refl refl); distinct = (tt, tt) };
          backs = (e, tt);
        })
  push_front-IsList x (y ∷ xs) n f e is =
      subst (λ k. IsList k (x ∷ y ∷ xs)) (sym (push_front_some x y l is.chain.0 is.chain.1))
        (record {
          forward = record {
            chain =
                (refl, n, rw ==-refl (Seg-update l.next x l.root l.root (y ∷ xs) null f is.chain));
            distinct = (f, is.distinct);
          };
          backs = (
            rw (==-ne y x (λ h. f.0 (sym h))) e,
            (rw ==-refl refl, Linked-update l.prev y x Exactly y xs is.distinct.0 is.backs.1),
          );
        })
