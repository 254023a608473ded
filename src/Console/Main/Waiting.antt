-- ===== src/Console/Main/Waiting.antt =====
-- What becomes of main of ConsoleTest/Console.cpp when it waits for the broadcast.
use watchfirewall.Prelude.{
  ℕ, zero, suc, ◌<◌, ◌⊎◌, inl, inr, arith, ◌≡◌, refl, sym, subst, ◌∙◌, Bool, true, false, ◌&&◌,
  if◌then◌else◌, Bool-cases,
}
use watchfirewall.Connection.{
  Connection, Calls, is_positive, open_connection, close_connection, end_thread,
}
use watchfirewall.Console.Main.{
  Pc, calling, opened, waiting, awake, sleeping, returned, Program, start, broadcast, Step, opens,
  refused, waits, wakes_spuriously, thread_ends, leaves, wakes_up, signal, count, Reach, here, next,
}

-- Whether main is between Open and the broadcast.
abbrev pub Connected : Pc → Type 0
Connected opened = Unit {0}
Connected waiting = Unit {0}
Connected _ = ⊥

-- Main is behind Open, and no thread receives.
pub record Stuck (s : Program) : Type 0 where
  pub connected : Connected s.pc
  pub no_thread : s.threads ≡ 0

Connected-to : {s : Program} {pc : Pc} → s.pc ≡ pc → Stuck s → Connected pc
Connected-to e k = subst Connected e k.connected

Step-Stuck : {b : Bool} {s t : Program} (n : ℕ) → Step b s t → Stuck s → (0 < count b n) ⊎ Stuck t
Step-Stuck n (opens k e o) u = absurd (Connected-to e u)
Step-Stuck n (refused k e o) u = absurd (Connected-to e u)
Step-Stuck n (waits e) u = inr (record { connected = tt; no_thread = u.no_thread })
Step-Stuck n (wakes_spuriously e) u = inl (omega arith)
Step-Stuck n (thread_ends e) u = absurd (let z = u.no_thread in omega arith)
Step-Stuck n (leaves e) u = absurd (Connected-to e u)
Step-Stuck n (wakes_up e) u = absurd (Connected-to e u)
Step-Stuck n (signal b z) u = inr (record { connected = u.connected; no_thread = u.no_thread })

positive_count : (b : Bool) (n : ℕ) → 0 < n → 0 < count b n
positive_count true n h = omega arith
positive_count false n h = h

-- From between Open and the broadcast with no thread that receives, only a spurious wake-up gets main on.
Reach-Stuck : {s : Program} {n : ℕ} {t : Program} → Stuck s → Reach s n t → (0 < n) ⊎ Stuck t
Reach-Stuck u here = inr u
Reach-Stuck u (next {n} {b} r st) = elim (Reach-Stuck u r) [
  | inl h ↦ inl (positive_count b n h)
  | inr k ↦ Step-Stuck n st k
]

abbrev Delegated : Pc → Connection → Type 0
Delegated pc c = Connected pc → c.closed_delegate ≡ true

closed_delegate-open_connection :
    (k : Calls) (c : Connection)
    → (open_connection k true true c).0 ≡ true
    → (open_connection k true true c).1.closed_delegate ≡ true
unfolding open_connection
closed_delegate-open_connection k c = elim (Bool-cases (is_positive k.socket)) [
  | inr e ↦ rw e (λ r. cc)
  | inl e ↦ elim (Bool-cases k.ioctl_works) [
    | inr f ↦ rw (e, f) (λ r. cc)
    | inl f ↦ elim (Bool-cases (k.connect && k.attr_init)) [
      | inr g ↦ rw (e, f, g) (λ r. cc)
      | inl g ↦ rw (e, f, g) (λ r. refl)
    ]
  ]
]

closed_delegate-close_connection :
    (b : Bool) (c : Connection) → (close_connection b c).1.closed_delegate ≡ c.closed_delegate
unfolding close_connection
closed_delegate-close_connection b c = elim (Bool-cases (is_positive c.g_socket)) [
  | inl e ↦ rw e refl
  | inr e ↦ rw e refl
]

Connected-broadcast :
    (b : Bool) (pc : Pc) → Connected (if b then broadcast pc else pc) → Connected pc
Connected-broadcast false pc c = c
Connected-broadcast true opened c = c
Connected-broadcast true waiting c = tt
Connected-broadcast true calling c = c
Connected-broadcast true awake c = c
Connected-broadcast true sleeping c = c
Connected-broadcast true returned c = c

Connected-leaves : (b : Bool) → ¬ Connected (if b then returned else sleeping)
Connected-leaves true c = c
Connected-leaves false c = c

Step-Delegated :
    {b : Bool} {s t : Program}
    → Step b s t
    → Delegated s.pc s.connection
    → Delegated t.pc t.connection
unfolding end_thread
Step-Delegated (opens {s} k e o) d c = closed_delegate-open_connection k s.connection o
Step-Delegated (refused k e o) d c = absurd c
Step-Delegated (waits e) d c = d (subst Connected (sym e) tt)
Step-Delegated (wakes_spuriously e) d c = absurd c
Step-Delegated (thread_ends {s} e) d c = d (Connected-broadcast s.connection.closed_delegate s.pc c)
Step-Delegated (leaves {s} e) d c = absurd (Connected-leaves s.user_closed c)
Step-Delegated (wakes_up e) d c = absurd c
Step-Delegated (signal {s} b z) d c = closed_delegate-close_connection b s.connection ∙ d c

Reach-Delegated : {n : ℕ} {t : Program} → Reach start n t → Delegated t.pc t.connection
Reach-Delegated here c = absurd c
Reach-Delegated (next r st) c = Step-Delegated st (Reach-Delegated r) c

-- What becomes of a main that waits: the end of a thread that receives wakes it, or no thread receives, and after any run
-- without a spurious wake-up that is so, and main has not got any further.
pub data Future (t : Program) : Type 0 where
  woken : (u : Program) → 0 < t.threads → Step false t u → u.pc ≡ awake → Future t
  stuck : t.threads ≡ 0 → ((n : ℕ) (u : Program) → Reach t n u → (0 < n) ⊎ Stuck u) → Future t

-- A main that waits for the broadcast is woken by the end of a thread that receives; where none does, because the thread
-- ended before main waited or was not created, nothing but a spurious wake-up of pthread_cond_wait gets main on, whatever
-- signals come.
pub Reach-Future : (n : ℕ) (t : Program) → Reach start n t → t.pc ≡ waiting → Future t
Reach-Future n t r e = finish t.threads refl
  where
    there : Connected t.pc
    there = subst Connected (sym e) tt

    finish : (k : ℕ) → t.threads ≡ k → Future t
    finish zero z =
        stuck z (λ m u run. Reach-Stuck (record { connected = there; no_thread = z }) run)
    finish (suc k) z =
        woken _ (omega arith) (thread_ends (omega arith)) (rw (Reach-Delegated r there, e) refl)
