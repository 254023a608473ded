-- ===== src/Firewall/Broadcast.antt =====
-- Firewall::Send (Kext/firewall.cpp): which clients a message is offered to, and how often.
use watchfirewall.Prelude.{
  ℕ, zero, suc, ◌<◌, ◌≡◌, ◌≢◌, refl, sym, subst, not, ap, ◌∙◌, List, [], ◌∷◌, Bool, true, false,
  some, ◌==◌, if◌then◌else◌, arith, length, Fresh, Distinct, ==-refl, ==-ne, Bool-cases, inl, inr,
  ◌||◌,
}
use watchfirewall.Links.{Ptr, null}
use watchfirewall.Links.Segment.{Seg}
use watchfirewall.Messages.{Message}
use watchfirewall.Client.{Client, send}
use watchfirewall.Firewall.{Firewall, Env, reply, send_loop, send_all}

abbrev pub member : Ptr → List Ptr → Bool
member p [] = false
member p (x ∷ xs) = x == p || member p xs

-- The clients of a list have been offered the message, each one once.
abbrev pub reached : Env → Message → List Ptr → Firewall → Firewall
reached env m xs fw = record fw {
  client = λ p. if member p xs then send (env.node p) m (fw.client p) else fw.client p;
}

-- The list of clients: a chain of distinct addresses from `clients` to NULL, under its lock.
pub record HasClients (fw : Firewall) (xs : List Ptr) : Type 0 where
  pub locked : fw.lock_clients_queue ≡ true
  pub chain : Seg fw.next fw.clients xs null
  pub distinct : Distinct xs

pub Fresh-member : (p : Ptr) (xs : List Ptr) → Fresh p xs → member p xs ≡ false
Fresh-member p [] f = refl
Fresh-member p (x ∷ xs) f = rw (==-ne x p (λ e. f.0 (sym e)), Fresh-member p xs f.1) refl

-- Offering to the first client and then to the others is offering to all.
reached_first :
    (env : Env) (m : Message) (x : Ptr) (xs : List Ptr) (fw : Firewall)
    → Fresh x xs
    → reached env m xs (reply env x m fw) ≡ reached env m (x ∷ xs) fw
unfolding reply
reached_first env m x xs fw f = ap (λ (k : Ptr → Client). record fw { client = k }) (λ i p. at p i)
  where
    at :
        (p : Ptr)
        → (reached env m xs (reply env x m fw)).client p ≡ (reached env m (x ∷ xs) fw).client p
    at p = elim (Bool-cases (x == p)) [
      | inl e ↦
          let same : x ≡ p = ground arith in rw (sym same, Fresh-member x xs f, ==-refl x) refl
      | inr e ↦ rw e refl
    ]

send_loop_step :
    (env : Env) (m : Message) (fuel : ℕ) (c : Ptr) (fw : Firewall)
    → c ≢ null
    → send_loop env m (suc fuel) c fw ≡ send_loop env m fuel (fw.next c) (reply env c m fw)
unfolding send_loop
send_loop_step env m fuel c fw h = rw (send_loop, ==-ne c null h) refl

send_loop-reached :
    (env : Env) (m : Message) (fuel : ℕ) (c : Ptr) (xs : List Ptr) (fw : Firewall)
    → Seg fw.next c xs null
    → Distinct xs
    → length xs < fuel
    → send_loop env m fuel c fw ≡ some (reached env m xs fw)
unfolding send_loop reply
send_loop-reached env m zero c xs fw s d h = absurd (omega arith)
send_loop-reached env m (suc fuel) c [] fw s d h =
    subst (λ p. send_loop env m (suc fuel) p fw ≡ some fw) (sym s) refl
send_loop-reached env m (suc fuel) c (x ∷ xs) fw s d h = rw s.0 (
    send_loop_step env m fuel x fw s.1
    ∙ send_loop-reached env m fuel (fw.next x) xs (reply env x m fw) s.2 d.1 (omega arith)
    ∙ ap some (reached_first env m x xs fw d.0))

-- A message sent to all is offered exactly once to each client of the list, and to no other
-- object; nothing else of the extension changes. The loop ends with fuel for one more than the clients.
pub send_all-reached :
    (env : Env) (m : Message) (fw : Firewall) (xs : List Ptr)
    → HasClients fw xs
    → length xs < env.fuel
    → send_all env m fw ≡ some (reached env m xs fw)
unfolding send_all
send_all-reached env m fw xs is h =
    subst
      (λ b.
        (if not b then some fw else send_loop env m env.fuel fw.clients fw)
        ≡ some (reached env m xs fw))
      (sym is.locked) (send_loop-reached env m env.fuel fw.clients xs fw is.chain is.distinct h)

-- The clients stay in the list when a message was offered to some of them.
pub HasClients-reached :
    (env : Env) (m : Message) (fw : Firewall) (xs ys : List Ptr)
    → HasClients fw xs
    → HasClients (reached env m ys fw) xs
HasClients-reached env m fw xs ys is = record {
  locked = is.locked;
  chain = is.chain;
  distinct = is.distinct;
}
