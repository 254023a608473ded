-- ===== src/Applications/Sweep.antt =====
-- The rounds of CheckIsLiveRoutine (Kext/application.cpp) from the start of the list to an application whose process is gone.
use watchfirewall.Prelude.{
  ℕ, suc, ◌≡◌, ◌≢◌, inl, inr, refl, sym, subst, ap, ◌∙◌, Bool, true, false, List, [], ◌∷◌, ◌++◌,
  arith, All, length, ◌==◌, if◌then◌else◌, ==-ne, Bool-cases,
}
use mathlib.Core.List.{append_assoc}
use watchfirewall.Kernel.{Atomics}
use watchfirewall.Links.{Ptr, null}
use watchfirewall.Links.Segment.{Seg, Seg-append_left}
use watchfirewall.Links.Edit.{IsList}
use watchfirewall.Applications.{
  Applications, retained, move_on, count_down, check, check_round, check_rounds,
}
use watchfirewall.Applications.MoveOn.{
  Between, count_down-Between, pid-count_down, move_on-Between, pid-move_on,
}
use watchfirewall.Applications.Routine.{Sound, All-map, retain-Share}
use watchfirewall.Applications.Rounds.{TakenOut, TakenOut-since, dropped, dropped-TakenOut}

-- Where the routine stands: at the start, or behind the applications that it has checked.
pub data Behind (checked : Ptr) (front : List Ptr) : Type 0 where
  start : checked ≡ null → front ≡ [] → Behind checked front
  after :
      (before : List Ptr) → front ≡ before ++ checked ∷ [] → checked ≢ null → Behind checked front

module _ (os : Atomics) (held : Ptr → ℕ) (is_live : ℕ → Bool) where
  -- The next application is the first one that is not checked yet.
  move_on-first :
      (c : Ptr) (s : Applications) (front : List Ptr) (x : Ptr) (back : List Ptr)
      → Behind c front
      → IsList s.links (front ++ x ∷ back)
      → ((move_on os c s).0 ≡ x) × (x ≢ null)
  unfolding move_on
  move_on-first c s front x back (start z e) is =
      let chain = subst (λ l. Seg s.next s.root (l ++ x ∷ back) null) e is.chain in
      (rw z chain.0, chain.1)
  move_on-first c s front x back (after before e n) is =
      let whole = subst (λ l. Seg s.next s.root (l ++ x ∷ back) null) e is.chain in
      let (p, left, right) =
        Seg-append_left s.next s.root before (c ∷ x ∷ back) null
          (subst (λ l. Seg s.next s.root l null) (append_assoc before (c ∷ []) (x ∷ back)) whole) in
      (rw (==-ne c null n) right.2.0, right.2.1)

  -- What stands between moving on and checking.
  abbrev seen : Ptr → Applications → Applications
  seen c s = count_down (move_on os c s).1

  seen-Between :
      (c : Ptr) (s : Applications) (front : List Ptr) (x : Ptr) (back : List Ptr)
      → Behind c front
      → Sound held c s (front ++ x ∷ back)
      → Between held (seen c s) (front ++ x ∷ back) x
  seen-Between c s front x back p h =
      let first = (move_on-first c s front x back p h.is_list).0 in
      subst (Between held (seen c s) (front ++ x ∷ back)) first (
        count_down-Between held (move_on os c s).1 (front ++ x ∷ back) (move_on os c s).0
          (move_on-Between os held c s (front ++ x ∷ back) h))

  pid-seen :
      (c : Ptr) (s : Applications) (x : Ptr)
      → ((seen c s).application x).pid ≡ (s.application x).pid
  pid-seen c s x = pid-count_down (move_on os c s).1 x ∙ pid-move_on os c s x

  check_round-seen :
      (c : Ptr) (s : Applications) (front : List Ptr) (x : Ptr) (back : List Ptr)
      → Behind c front
      → Sound held c s (front ++ x ∷ back)
      → check_round os is_live c s ≡ (
          if is_live (s.application x).pid
          then (x, retained os x (seen c s))
          else (null, dropped os held is_live x (seen c s)))
  unfolding check_round check
  check_round-seen c s front x back p h =
      let (first, there) = move_on-first c s front x back p h.is_list in
      rw (first, ==-ne x null there, pid-seen c s x) refl

  pid-retained :
      (c : Ptr) (s : Applications) (x : Ptr)
      → ((retained os c s).application x).pid ≡ (s.application x).pid
  unfolding retained
  pid-retained c s x = elim (Bool-cases (c == x)) [
    | inl e ↦ let same : c ≡ x = ground arith in rw (e, same) refl
    | inr e ↦ rw e refl
  ]

  retained-Sound :
      (s : Applications) (xs : List Ptr) (x : Ptr)
      → Between held s xs x
      → Sound held x (retained os x s) xs
  unfolding retained
  retained-Sound s xs x b = record {
    is_list = b.is_list;
    place = b.place;
    shares = All-map xs (λ y h. retain-Share os held x s y h) b.shares;
  }

  abbrev pub Alive : Applications → Ptr → Type 0
  Alive s x = is_live (s.application x).pid ≡ true

  -- What the rounds come to that end at the application `r`, whose process is gone.
  abbrev pub Swept : Ptr → Applications → List Ptr → Ptr × Applications → Type 0
  Swept r s xs p =
      (p.0 ≡ null) × (ys : List Ptr) × Sound held null p.1 ys × TakenOut held is_live s p.1 xs ys r

  pid-next :
      (c : Ptr) (s : Applications) (r x : Ptr)
      → ((retained os r (seen c s)).application x).pid ≡ (s.application x).pid
  pid-next c s r x = pid-retained r (seen c s) x ∙ pid-seen c s x

  rounds :
      (live : List Ptr) (c : Ptr) (s : Applications) (front : List Ptr) (r : Ptr) (back : List Ptr)
      → Behind c front
      → Sound held c s (front ++ (live ++ r ∷ back))
      → All (Alive s) live
      → is_live (s.application r).pid ≡ false
      → Swept r s (front ++ (live ++ r ∷ back)) (check_rounds os is_live (suc (length live)) c s)
  unfolding check_rounds
  rounds [] c s front r back p h all dead =
      let (first, there) = move_on-first c s front r back p h.is_list in
      let (ys, sound, o) =
        dropped-TakenOut os held is_live (seen c s) (front ++ r ∷ back) r
          (seen-Between c s front r back p h) there (ap is_live (pid-seen c s r) ∙ dead) in
      rw (check_round-seen c s front r back p h, dead)
        (refl, ys, sound, TakenOut-since os held is_live s (seen c s) (pid-seen c s) o)
  rounds (x ∷ live) c s front r back p h all dead =
      let (first, there) = move_on-first c s front x (live ++ r ∷ back) p h.is_list in
      let t = retained os x (seen c s) in
      let xs = sym (append_assoc front (x ∷ []) (live ++ r ∷ back)) in
      let sound =
        retained-Sound (seen c s) (front ++ x ∷ (live ++ r ∷ back)) x
          (seen-Between c s front x (live ++ r ∷ back) p h) in
      let (z, ys, left, o) =
        rounds live x t (front ++ x ∷ []) r back (after front refl there)
          (subst (Sound held x t) xs sound)
          (All-map live (λ y a. ap is_live (pid-next c s x y) ∙ a) all.1)
          (ap is_live (pid-next c s x r) ∙ dead) in
      let step =
        check_round-seen c s front x (live ++ r ∷ back) p h
        ∙ ap (λ b. if b then (x, t) else (null, dropped os held is_live x (seen c s))) all.0 in
      subst (Swept r s (front ++ x ∷ (live ++ r ∷ back)))
        (ap (λ q. check_rounds os is_live (suc (length live)) q.0 q.1) (sym step))
        (
          z,
          ys,
          left,
          subst
              (λ l.
                TakenOut held is_live s (check_rounds os is_live (suc (length live)) x t).1 l ys r)
              (sym xs) (TakenOut-since os held is_live s t (pid-next c s x) o),
        )

  -- The thread starts with no application, and an application whose process is gone stands behind applications whose
  -- processes run. Each is there, and its references are the list's and those of the sockets. Then, if no other thread
  -- acts in between, after a round for
  -- each application in front and one more, exactly the application of the ended process has left the list, with the
  -- references of the sockets, deleted exactly if there are none. The thread holds no
  -- application then, and the list is well linked and its references are right.
  pub check_rounds-Swept :
      (s : Applications) (live : List Ptr) (r : Ptr) (back : List Ptr)
      → Sound held null s (live ++ r ∷ back)
      → All (Alive s) live
      → is_live (s.application r).pid ≡ false
      → Swept r s (live ++ r ∷ back) (check_rounds os is_live (suc (length live)) null s)
  check_rounds-Swept s live r back h all dead =
      rounds live null s [] r back (start refl refl) h all dead
