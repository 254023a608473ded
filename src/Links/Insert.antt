-- ===== src/Links/Insert.antt =====
-- Inserting before an element, appending, and writing to elements outside, seen as edits of the list of
-- addresses.
use watchfirewall.Prelude.{
  ℕ, List, [], ◌∷◌, ◌++◌, ◌≡◌, ◌≢◌, refl, sym, subst, arith, Fresh, Distinct, last, update, ==-refl,
  ==-ne, Distinct-snoc, Fresh-append_left, Fresh-append_right, Fresh-last, Distinct-append_left,
  Distinct-insert, Distinct-last, Distinct-middle,
}
use watchfirewall.Links.{Links, null, insert_before, append_after}
use watchfirewall.Links.Edit.{IsChain, IsLinked, IsList}
use watchfirewall.Links.Segment.{
  Seg, Linked, Exactly, Seg-update, Linked-update, Seg-append_left, Seg-append, Seg-redirect,
  Linked-append_left, Linked-append_right, Linked-append, last-ne_null,
}

module _ (l : Links) (y u v : ℕ) (xs : List ℕ) (f : Fresh y xs) where
  -- Writing the links of an object outside the list does not change the list.
  pub IsChain-update :
      IsChain l xs → IsChain (record l { next = update l.next y u; prev = update l.prev y v }) xs
  IsChain-update is = record {
    chain = Seg-update l.next y u l.root xs null f is.chain;
    distinct = is.distinct;
  }

  pub IsLinked-update :
      (D : ℕ → ℕ → Type 0)
      → IsLinked D l xs
      → IsLinked D (record l { next = update l.next y u; prev = update l.prev y v }) xs
  IsLinked-update D is = record {
    forward = IsChain-update is.forward;
    backs = Linked-update l.prev y v D null xs f is.backs;
  }

  pub IsList-update :
      IsList l xs → IsList (record l { next = update l.next y u; prev = update l.prev y v }) xs
  IsList-update = IsLinked-update Exactly

module _ (l : Links) (x c : ℕ) where
  pub insert_before_first :
      x ≢ c
      → l.prev c ≡ null
      → insert_before x c l ≡ record {
        root = x;
        next = update l.next x c;
        prev = update (update l.prev x (l.prev c)) c x;
      }
  unfolding insert_before
  insert_before_first n e = rw (==-ne c x (λ h. n (sym h)), ==-refl x, e)

  insert_before_inner :
      (a : ℕ)
      → x ≢ c
      → l.prev c ≡ a
      → a ≢ null
      → insert_before x c l ≡ record {
        root = l.root;
        next = update (update l.next x c) a x;
        prev = update (update l.prev x (l.prev c)) c x;
      }
  unfolding insert_before
  insert_before_inner a n e z = rw (==-ne c x (λ h. n (sym h)), ==-refl x, e, ==-ne a null z)

  prev-insert_before : (insert_before x c l).prev ≡ update (update l.prev x (l.prev c)) c x
  unfolding insert_before
  prev-insert_before = ground arith

  insert_before-Linked :
      (D : ℕ → ℕ → Type 0)
      → ((v : ℕ) → D v v)
      → (xs ys : List ℕ) → Fresh x (xs ++ c ∷ ys)
      → Distinct (xs ++ c ∷ ys)
      → Linked D l.prev null (xs ++ c ∷ ys)
      → Linked D (update (update l.prev x (l.prev c)) c x) null (xs ++ x ∷ c ∷ ys)
  insert_before-Linked D same xs ys f d b =
      let fr = Fresh-append_right x xs (c ∷ ys) f in
      let fc = Distinct-middle c xs ys d in
      let left = Linked-append_left D l.prev null xs (c ∷ ys) b in
      let right = Linked-append_right D l.prev null xs (c ∷ ys) b in
      Linked-append D _ null xs (x ∷ c ∷ ys)
        (Linked-update _ c x D null xs (Fresh-append_left c xs ys fc)
          (Linked-update l.prev x (l.prev c) D null xs (Fresh-append_left x xs (c ∷ ys) f) left))
        (
          rw (==-ne c x (λ h. fr.0 (sym h)), ==-refl x) right.0,
          (
            rw ==-refl (same x),
            Linked-update _ c x D c ys (Fresh-append_right c xs ys fc)
                (Linked-update l.prev x (l.prev c) D c ys fr.1 right.1),
          ),
        )

  insert_before-Seg :
      (xs ys : List ℕ)
      → x ≢ null
      → Fresh x (xs ++ c ∷ ys)
      → Distinct (xs ++ c ∷ ys)
      → l.prev c ≡ last null xs
      → Seg l.next l.root (xs ++ c ∷ ys) null
      → Seg (insert_before x c l).next (insert_before x c l).root (xs ++ x ∷ c ∷ ys) null
  insert_before-Seg [] ys n f d p s =
      let s' : Seg l.next c (c ∷ ys) null = (refl, s.1, s.2) in
      subst (λ k. Seg k.next k.root (x ∷ c ∷ ys) null) (sym (insert_before_first f.0 p))
        (refl, n, rw (==-refl x) (Seg-update l.next x c c (c ∷ ys) null f s'))
  insert_before-Seg (a ∷ xs) ys n f d p s =
      let (m, left, right) = Seg-append_left l.next l.root (a ∷ xs) (c ∷ ys) null s in
      let fr = Fresh-append_right x (a ∷ xs) (c ∷ ys) f in
      let fl = Fresh-append_left x (a ∷ xs) (c ∷ ys) f in
      let z = last a xs in
      let g = update l.next x c in
      let s' : Seg l.next c (c ∷ ys) null = (refl, right.1, right.2) in
      let fz = Distinct-last a xs (c ∷ ys) d in
      subst (λ k. Seg k.next k.root (a ∷ xs ++ x ∷ c ∷ ys) null)
        (sym (insert_before_inner z fr.0 p (last-ne_null l.next l.root a xs m left)))
        (Seg-append _ l.root (a ∷ xs) (x ∷ c ∷ ys) x null
          (Seg-redirect g l.root a xs m x (Distinct-append_left (a ∷ xs) (c ∷ ys) d)
            (Seg-update l.next x c l.root (a ∷ xs) m fl left))
          (
            refl,
            n,
            rw (==-ne z x (λ h. Fresh-last x a xs fl (sym h)), ==-refl x)
                (Seg-update g z x c (c ∷ ys) null fz (Seg-update l.next x c c (c ∷ ys) null fr s')),
          ))

  -- Putting an object before an element whose own `prev` field is right.
  pub insert_before-IsLinked :
      (D : ℕ → ℕ → Type 0)
      → ((v : ℕ) → D v v)
      → (xs ys : List ℕ) → x ≢ null
      → Fresh x (xs ++ c ∷ ys)
      → l.prev c ≡ last null xs
      → IsLinked D l (xs ++ c ∷ ys)
      → IsLinked D (insert_before x c l) (xs ++ x ∷ c ∷ ys)
  insert_before-IsLinked D same xs ys n f p is = record {
    forward = record {
      chain = insert_before-Seg xs ys n f is.distinct p is.chain;
      distinct = Distinct-insert x xs (c ∷ ys) f is.distinct;
    };
    backs =
        subst (λ g. Linked D g null (xs ++ x ∷ c ∷ ys)) (sym prev-insert_before)
          (insert_before-Linked D same xs ys f is.distinct is.backs);
  }

  pub insert_before-IsList :
      (xs ys : List ℕ)
      → x ≢ null
      → Fresh x (xs ++ c ∷ ys)
      → IsList l (xs ++ c ∷ ys)
      → IsList (insert_before x c l) (xs ++ x ∷ c ∷ ys)
  insert_before-IsList xs ys n f is =
      insert_before-IsLinked Exactly (λ v. refl) xs ys n f
        (Linked-append_right Exactly l.prev null xs (c ∷ ys) is.backs).0 is

module _ (l : Links) (x : ℕ) where
  -- Appending at the end keeps the chain of `next` fields only.
  pub append_after-IsChain :
      (xs : List ℕ)
      → x ≢ null
      → Fresh x xs
      → l.next x ≡ null
      → IsChain l xs
      → IsChain (append_after (last null xs) x l) (xs ++ x ∷ [])
  unfolding append_after
  append_after-IsChain [] n f e is = record { chain = (refl, n, e); distinct = (tt, tt) }
  append_after-IsChain (a ∷ xs) n f e is =
      let z = last-ne_null l.next l.root a xs null is.chain in
      rw (==-ne (last a xs) null z) (record {
        chain =
            Seg-append _ l.root (a ∷ xs) (x ∷ []) x null
              (Seg-redirect l.next l.root a xs null x is.distinct is.chain)
              (refl, n, rw (==-ne (last a xs) x (λ h. Fresh-last x a xs f (sym h))) e);
        distinct = Distinct-snoc x (a ∷ xs) f is.distinct;
      })
