-- ===== src/Queue/Contents.antt =====
-- The queue as the list of its nodes and what they hold, oldest first.
use watchfirewall.Prelude.{
  List, [], ◌∷◌, ◌++◌, ◌≡◌, ◌≢◌, refl, sym, ap, subst, map, last-snoc, update, last, ==-refl, ==-ne,
  Fresh, Fresh-last, Distinct, Distinct-snoc, arith,
}
use mathlib.Core.List.{map-append}
use watchfirewall.Links.{Ptr, null}
use watchfirewall.Links.Segment.{Seg, Seg-update, Seg-append, Seg-redirect, last-ne_null}
use watchfirewall.Queue.{Queue, enqueue}

module _ {ℓ} {A : Type ℓ} where
  -- The nodes in order, and that the last pointer names the last one.
  pub record IsQueue (q : Queue A) (nodes : List Ptr) : Type 0 where
    pub chain : Seg q.next q.head nodes null
    pub distinct : Distinct nodes
    pub ends : q.last ≡ last null nodes

  abbrev pub items : Queue A → List Ptr → List A
  items q = map q.item

  pub map-update :
      (f : Ptr → A) (y : Ptr) (a : A) (xs : List Ptr)
      → Fresh y xs
      → map (update f y a) xs ≡ map f xs
  map-update f y a [] h = refl
  map-update f y a (x ∷ xs) h = rw (==-ne y x h.0) (ap (λ zs. f x ∷ zs) (map-update f y a xs h.1))

  pub item-enqueue :
      (node : Ptr) (a : A) (q : Queue A) → (enqueue node a q).item ≡ update q.item node a
  unfolding enqueue
  item-enqueue node a q = ground arith

  module _ (node : Ptr) (a : A) (q : Queue A) (n : node ≢ null) where
    enqueue_some :
        (z : Ptr)
        → q.last ≡ z
        → z ≢ null
        → enqueue node a q ≡ record {
          head = q.head;
          last = node;
          next = update (update q.next node null) z node;
          item = update q.item node a;
        }
    unfolding enqueue
    enqueue_some z e h = rw (e, ==-ne z null h) refl

    -- An appended item comes behind those that wait, whose order stays.
    pub enqueue-IsQueue :
        (nodes : List Ptr)
        → Fresh node nodes
        → IsQueue q nodes
        → IsQueue (enqueue node a q) (nodes ++ node ∷ [])
    unfolding enqueue
    enqueue-IsQueue [] f is =
        rw is.ends
          (record { chain = (refl, n, rw (==-refl node) refl); distinct = (tt, tt); ends = refl })
    enqueue-IsQueue (x ∷ xs) f is =
        let z = last-ne_null q.next q.head x xs null is.chain in
        let g = update q.next node null in
        let old = Seg-update q.next node null q.head (x ∷ xs) null f is.chain in
        subst (λ k. IsQueue k (x ∷ xs ++ node ∷ [])) (sym (enqueue_some (last x xs) is.ends z))
          (record {
            chain =
                Seg-append _ q.head (x ∷ xs) (node ∷ []) node null
                  (Seg-redirect g q.head x xs null node is.distinct old)
                  (
                    refl,
                    n,
                    rw (==-ne (last x xs) node (λ h. Fresh-last node x xs f (sym h)), ==-refl node)
                        refl,
                  );
            distinct = Distinct-snoc node (x ∷ xs) f is.distinct;
            ends = sym (last-snoc x xs node);
          })

    pub items-enqueue :
        (nodes : List Ptr)
        → Fresh node nodes
        → items (enqueue node a q) (nodes ++ node ∷ []) ≡ items q nodes ++ a ∷ []
    items-enqueue nodes f =
        rw (item-enqueue node a q, map-append, map-update q.item node a nodes f, ==-refl node) refl
