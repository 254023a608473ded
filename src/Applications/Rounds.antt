-- ===== src/Applications/Rounds.antt =====
-- The rounds of CheckIsLiveRoutine (Kext/application.cpp): what a round does to the list and to the references.
use watchfirewall.Prelude.{
  ℕ, zero, suc, ◌+◌, ◌%◌, ◌<◌, ◌≡◌, ◌≢◌, ◌⊎◌, inl, inr, refl, sym, subst, ap, ◌∙◌, Bool, true,
  false, not, List, ◌∷◌, ◌++◌, arith, All, Distinct-middle, update, ◌==◌, if◌then◌else◌, ==-ne,
  ==-refl, Bool-cases,
}
use watchfirewall.Kernel.{Atomics, word}
use watchfirewall.SimpleBase.{release, release_last, release_shared}
use watchfirewall.Links.{Ptr, null}
use watchfirewall.Links.Edit.{IsList, unlink-IsList}
use watchfirewall.Applications.{
  Applications, remove, retained, release_application, move_on, count_down, check, check_round,
}
use watchfirewall.Applications.MoveOn.{
  Between, count_down-Between, pid-count_down, move_on-Between, pid-move_on,
}
use watchfirewall.Applications.Routine.{
  Place, nowhere, at, Share, Sound, All-map, All-Fresh, All-drop, Share-elsewhere, retain-Share,
}

-- The application at `r` is taken out of the list, since its process is gone. Who else holds it keeps it.
pub record TakenOut (held : Ptr → ℕ) (is_live : ℕ → Bool) (s t : Applications) (xs ys : List Ptr)
    (r : Ptr) : Type 0 where
  pub front : List Ptr
  pub back : List Ptr
  pub was_there : xs ≡ front ++ r ∷ back
  pub left : ys ≡ front ++ back
  pub dead : is_live (s.application r).pid ≡ false
  pub references : (t.application r).references ≡ held r
  pub deleted : t.live r ≡ not (held r == 0)

deleted_if :
    (b : Bool) (live : Ptr → Bool) (r : Ptr)
    → live r ≡ true
    → (if b then update live r false else live) r ≡ not b
deleted_if true live r e = rw (==-refl r) refl
deleted_if false live r e = e

module _ (os : Atomics) (held : Ptr → ℕ) (is_live : ℕ → Bool) where
  -- What a round comes to.
  abbrev pub Round : Applications → List Ptr → Ptr × Applications → Type 0
  Round s xs p =
      (ys : List Ptr) × Sound held p.0 p.1 ys
      × ((ys ≡ xs) ⊎ (r : Ptr) × TakenOut held is_live s p.1 xs ys r)

  -- What the routine makes of an application whose process is gone.
  abbrev pub dropped : Ptr → Applications → Applications
  dropped r s =
      let s' = release_application os r (remove r s) in
      record s' { count_processes_to_check = (s'.count_processes_to_check + 1) % word }

  Share-kept :
      (s : Applications) (r x : Ptr) → r ≢ x → Share held null s x → Share held null (dropped r s) x
  unfolding release_application remove
  Share-kept s r x m h =
      let k = Share-elsewhere os held r s x m h in
      record { there = k.there; lives = k.lives; references = k.references; few = k.few }

  release_own : (n : ℕ) → suc n < word → release os (suc n) ≡ (n, n == 0)
  release_own zero h = release_last os
  release_own (suc n) h =
      release_shared os (suc (suc n)) (omega arith) h
      ∙ ap (λ k. (k, false)) (omega arith)
      ∙ ap (λ b. (suc n, b)) (sym (==-ne (suc n) 0 (omega arith)))

  own :
      (s : Applications) (r : Ptr)
      → Share held null s r
      → release os (s.application r).references ≡ (held r, held r == 0)
  own s r h =
      let one : (s.application r).references ≡ suc (held r) =
        h.references ∙ rw (==-ne null r (λ z. h.there (sym z))) (omega arith) in
      ap (release os) one ∙ release_own (held r) (omega (arith, h.few))

  pub dropped-TakenOut :
      (s : Applications) (xs : List Ptr) (r : Ptr)
      → Between held s xs r
      → r ≢ null
      → is_live (s.application r).pid ≡ false
      → (ys : List Ptr) × Sound held null (dropped r s) ys
        × TakenOut held is_live s (dropped r s) xs ys r
  unfolding release_application remove
  dropped-TakenOut s xs r b n dead = go b.place
    where
      go :
          Place xs r
          → (ys : List Ptr) × Sound held null (dropped r s) ys
            × TakenOut held is_live s (dropped r s) xs ys r
      go (nowhere z) = absurd (n z)
      go (at front back e _) =
          let is = subst (IsList s.links) e b.is_list in
          let (mine, others) =
            All-drop (Share held null s) front r back
              (subst (All (Share held null s)) e b.shares) in
          let left = own s r mine in
          (
            front ++ back,
            record {
              is_list = unlink-IsList r front back is;
              place = nowhere refl;
              shares =
                  All-Fresh r (front ++ back) (λ x m h. Share-kept s r x m h)
                    (Distinct-middle r front back is.distinct) others;
            },
            record {
              front = front;
              back = back;
              was_there = e;
              left = refl;
              dead = dead;
              references = rw (==-refl r, left) refl;
              deleted =
                  ap (λ p. (if p.1 then update s.live r false else s.live) r) left
                  ∙ deleted_if (held r == 0) s.live r mine.lives;
            },
          )

  -- The processes of the applications are what they were.
  pub TakenOut-since :
      (s s' : Applications) {t : Applications} {xs ys : List Ptr} {r : Ptr}
      → ((x : Ptr) → (s'.application x).pid ≡ (s.application x).pid)
      → TakenOut held is_live s' t xs ys r
      → TakenOut held is_live s t xs ys r
  TakenOut-since s s' {r = r} same o = record {
    front = o.front;
    back = o.back;
    was_there = o.was_there;
    left = o.left;
    dead = ap is_live (sym (same r)) ∙ o.dead;
    references = o.references;
    deleted = o.deleted;
  }

  check-Round :
      (s : Applications) (xs : List Ptr) (r : Ptr)
      → Between held s xs r
      → Round s xs (check os is_live r s)
  unfolding check retained
  check-Round s xs r b = elim (Bool-cases (r == null)) [
    | inl e ↦
        rw e (xs, record { is_list = b.is_list; place = nowhere refl; shares = b.shares }, inl refl)
    | inr e ↦ elim (Bool-cases (is_live (s.application r).pid)) [
      | inl l ↦
          rw (e, l)
            (
              xs,
              record {
                is_list = b.is_list;
                place = b.place;
                shares = All-map xs (λ x h. retain-Share os held r s x h) b.shares;
              },
              inl refl,
            )
      | inr d ↦
          let (ys, sound, out) = dropped-TakenOut s xs r b (ground arith) d in
          rw (e, d) (ys, sound, inr (r, out))
    ]
  ]

  -- One round of the routine, where each application of the list is there and its references are the list's, those of the
  -- sockets, and one if the routine holds it: the same is true after the round. The list is as before, or it has lost
  -- exactly the application of a process that is gone, which keeps the references of the sockets and is
  -- deleted exactly if there are none.
  pub check_round-Round :
      (c : Ptr) (s : Applications) (xs : List Ptr)
      → Sound held c s xs
      → Round s xs (check_round os is_live c s)
  unfolding check_round
  check_round-Round c s xs h =
      let (r, s') = move_on os c s in
      let (ys, sound, what) =
        check-Round (count_down s') xs r
          (count_down-Between held s' xs r (move_on-Between os held c s xs h)) in
      (
        ys,
        sound,
        (elim what [
          | inl e ↦ inl e
          | inr (x, o) ↦ inr (
            x,
            TakenOut-since s (count_down s') (λ x. pid-count_down s' x ∙ pid-move_on os c s x) o,
          )
        ]),
      )
