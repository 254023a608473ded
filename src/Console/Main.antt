-- ===== src/Console/Main.antt =====
-- main, SignalHandler and CloseHandle of ConsoleTest/Console.cpp, with the connection that they share with ReceiveThread
-- (Shared/ServerConnection.cpp). pthread_cond_wait returns after a broadcast, or spuriously, without one.
pub mod Waiting
use watchfirewall.Prelude.{
  ℕ, zero, sym, suc, ◌+◌, ◌-◌, ◌<◌, ◌≤◌, ◌⊎◌, arith, ◌≡◌, ◌≢◌, inl, inr, refl, subst, Bool, true,
  false, if◌then◌else◌,
}
use watchfirewall.Connection.{
  Connection, Calls, new_connection, open_connection, close_connection, end_thread,
}

-- Where main is: before it calls Open, behind it, in pthread_cond_wait, behind that, in sleep, or at its end.
pub data Pc : Type 0 where
  calling opened waiting awake sleeping returned : Pc

pub record Program : Type 0 where
  pub pc : Pc
  pub connection : Connection
  pub user_closed : Bool
  -- How many threads run ReceiveThread.
  pub threads : ℕ

abbrev pub start : Program
start = record { pc = calling; connection = new_connection; user_closed = false; threads = 0 }

-- pthread_cond_broadcast, which CloseHandle calls: who does not wait yet misses it.
abbrev pub broadcast : Pc → Pc
broadcast waiting = awake
broadcast pc = pc

-- A step of main, of the end of ReceiveThread, or of SignalHandler, and whether it is a spurious wake-up.
pub data Step : (spurious : Bool) → Program → Program → Type 0 where
  opens :
      {s : Program} (k : Calls)
      → s.pc ≡ calling
      → (open_connection k true true s.connection).0 ≡ true
      → Step false s (record s {
        pc = opened;
        connection = (open_connection k true true s.connection).1;
        threads = if k.thread_starts then s.threads + 1 else s.threads;
      })
  refused :
      {s : Program} (k : Calls)
      → s.pc ≡ calling
      → (open_connection k true true s.connection).0 ≡ false
      → Step false s
          (record s { pc = sleeping; connection = (open_connection k true true s.connection).1 })
  waits : {s : Program} → s.pc ≡ opened → Step false s (record s { pc = waiting })
  wakes_spuriously : {s : Program} → s.pc ≡ waiting → Step true s (record s { pc = awake })
  -- closedDelegate is CloseHandle.
  thread_ends :
      {s : Program}
      → 0 < s.threads
      → Step false s (record s {
        pc = if s.connection.closed_delegate then broadcast s.pc else s.pc;
        connection = end_thread s.connection;
        threads = s.threads - 1;
      })
  leaves :
      {s : Program}
      → s.pc ≡ awake
      → Step false s (record s { pc = if s.user_closed then returned else sleeping })
  wakes_up : {s : Program} → s.pc ≡ sleeping → Step false s (record s { pc = calling })
  signal :
      {s : Program} (closes_well : Bool)
      → s.pc ≢ returned
      → Step false s (record s {
        user_closed = true;
        connection = (close_connection closes_well s.connection).1;
      })

abbrev pub count : Bool → ℕ → ℕ
count true n = suc n
count false n = n

-- A run with the number of its spurious wake-ups.
pub data Reach (s : Program) : (spurious : ℕ) → Program → Type 0 where
  here : Reach s 0 s
  next : {n : ℕ} {b : Bool} {t u : Program} → Reach s n t → Step b t u → Reach s (count b n) u

-- At most one thread that receives for each spurious wake-up, and one more between Open and the broadcast.
abbrev Allows : Pc → (n threads : ℕ) → (closed : Bool) → Type 0
Allows opened n threads closed = threads ≤ suc n
Allows waiting n threads closed = threads ≤ suc n
Allows returned n threads closed = (threads ≤ n) × (closed ≡ true)
Allows _ n threads closed = threads ≤ n

abbrev InOrder : ℕ → Program → Type 0
InOrder n s = Allows s.pc n s.threads s.user_closed

Allows-thread_ends :
    (pc : Pc) (delegate : Bool) (n threads : ℕ) (closed : Bool)
    → 0 < threads
    → Allows pc n threads closed
    → Allows (if delegate then broadcast pc else pc) n (threads - 1) closed
Allows-thread_ends opened true n threads closed e a = omega arith
Allows-thread_ends opened false n threads closed e a = omega arith
Allows-thread_ends waiting true n threads closed e a = omega arith
Allows-thread_ends waiting false n threads closed e a = omega arith
Allows-thread_ends calling true n threads closed e a = omega arith
Allows-thread_ends calling false n threads closed e a = omega arith
Allows-thread_ends awake true n threads closed e a = omega arith
Allows-thread_ends awake false n threads closed e a = omega arith
Allows-thread_ends sleeping true n threads closed e a = omega arith
Allows-thread_ends sleeping false n threads closed e a = omega arith
Allows-thread_ends returned true n threads closed e a = (let h = a.0 in omega arith, a.1)
Allows-thread_ends returned false n threads closed e a = (let h = a.0 in omega arith, a.1)

Allows-opens :
    (n threads : ℕ) (starts : Bool)
    → threads ≤ n
    → (if starts then threads + 1 else threads) ≤ suc n
Allows-opens n threads true h = omega arith
Allows-opens n threads false h = omega arith

Allows-leaves :
    (n threads : ℕ) (closed : Bool)
    → threads ≤ n
    → Allows (if closed then returned else sleeping) n threads closed
Allows-leaves n threads true h = (h, refl)
Allows-leaves n threads false h = h

Allows-signal :
    (pc : Pc) (n threads : ℕ) (closed : Bool)
    → Allows pc n threads closed
    → Allows pc n threads true
Allows-signal opened n threads closed a = a
Allows-signal waiting n threads closed a = a
Allows-signal returned n threads closed a = (a.0, refl)
Allows-signal calling n threads closed a = a
Allows-signal awake n threads closed a = a
Allows-signal sleeping n threads closed a = a

at_pc :
    (n : ℕ) (s : Program) {pc : Pc} → s.pc ≡ pc → InOrder n s → Allows pc n s.threads s.user_closed
at_pc n s e a = subst (λ p. Allows p n s.threads s.user_closed) e a

Step-InOrder : {b : Bool} {s t : Program} (n : ℕ) → Step b s t → InOrder n s → InOrder (count b n) t
Step-InOrder n (opens {s} k e o) a = Allows-opens n s.threads k.thread_starts (at_pc n s e a)
Step-InOrder n (refused {s} k e o) a = at_pc n s e a
Step-InOrder n (waits {s} e) a = at_pc n s e a
Step-InOrder n (wakes_spuriously {s} e) a = at_pc n s e a
Step-InOrder n (thread_ends {s} e) a =
    Allows-thread_ends s.pc s.connection.closed_delegate n s.threads s.user_closed e a
Step-InOrder n (leaves {s} e) a = Allows-leaves n s.threads s.user_closed (at_pc n s e a)
Step-InOrder n (wakes_up {s} e) a = at_pc n s e a
Step-InOrder n (signal {s} b z) a = Allows-signal s.pc n s.threads s.user_closed a

Reach-InOrder : {n : ℕ} {t : Program} → Reach start n t → InOrder n t
Reach-InOrder here = omega arith
Reach-InOrder (next {n} r st) = Step-InOrder n st (Reach-InOrder r)

-- Where main returns, the user has asked for it, and of the threads that receive at most as many still run as there were
-- spurious wake-ups: none, where there was no spurious wake-up.
pub Reach-returned :
    (n : ℕ) (t : Program)
    → Reach start n t
    → t.pc ≡ returned
    → (t.user_closed ≡ true) × (t.threads ≤ n)
Reach-returned n t r e = let a = at_pc n t e (Reach-InOrder r) in (a.1, a.0)
