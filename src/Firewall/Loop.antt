-- ===== src/Firewall/Loop.antt =====
-- The loop of Firewall::KcSend (Kext/firewall.cpp): which buffers it gets to the end of.
use watchfirewall.Prelude.{
  ℕ, zero, suc, ◌+◌, ◌-◌, ◌%◌, ◌<◌, ◌≤◌, ◌≡◌, ◌≢◌, refl, sym, subst, ap, ◌∙◌, true, false, Option,
  some, none, ◌==◌, if◌then◌else◌, arith, inl, inr, ltb, ◌||◌, ==-ne, Option-cases,
}
use watchfirewall.Kernel.{Atomics, word}
use watchfirewall.Links.{Ptr, null}
use watchfirewall.Firewall.{Firewall, Env, Errno}
use watchfirewall.Firewall.Request.{Memory, message_size}
use watchfirewall.Firewall.Returns.{Limits, Ready, Ends}
use watchfirewall.Firewall.Adds.{limits, Ready-widen, handle_add_rule-Ends}
use watchfirewall.Firewall.Frames.{Frames, ended, message, adding, Allocates, Spared}
use watchfirewall.Firewall.Dispatch.{dispatch-Ends, dispatch_add}
use watchfirewall.Firewall.KcSend.{dispatch, kc_send_loop, kc_send}

pub straight_on : (p : ℕ) → p < word → p % word ≡ p
straight_on p h = omega arith

module _ (os : Atomics) (c : Ptr) (mem : Memory) where
  pub kc_send_loop-stop :
      (envs : ℕ → Env) (data_size fuel pos at : ℕ) (fw : Firewall)
      → data_size ≤ pos
      → kc_send_loop os c mem envs data_size (suc fuel) pos at fw ≡ some fw
  unfolding kc_send_loop
  kc_send_loop-stop envs data_size fuel pos at fw h = ground arith

  pub kc_send_loop-next :
      (envs : ℕ → Env) (data_size fuel pos at : ℕ) (fw done : Firewall)
      → pos < data_size
      → dispatch os c mem (envs at) at fw ≡ some done
      → kc_send_loop os c mem envs data_size (suc fuel) pos at fw
        ≡ kc_send_loop os c mem envs data_size fuel
            ((pos + message_size mem at) % word)
            (at + message_size mem at)
            done
  unfolding kc_send_loop
  kc_send_loop-next envs data_size fuel pos at fw done h e =
      let less : ltb pos data_size ≡ true = ground arith in rw (kc_send_loop, less, e) refl

  message_size-lt : ((p : ℕ) → mem p < 256) → (at : ℕ) → message_size mem at < 65536
  unfolding message_size
  message_size-lt bytes at = omega (arith, bytes at, bytes (at + 1))

module _ (os : Atomics) (c : Ptr) (mem : Memory) (envs : ℕ → Env) (data_size m : ℕ)
    (small : data_size + 65536 ≤ word) (bytes : (p : ℕ) → mem p < 256)
    (fuels : (at : ℕ) → m ≤ (envs at).fuel) (allocates : Allocates envs) where
  -- The limits at an offset, and those at the end, when all addresses are forgotten.
  abbrev at_most : (n : ℕ) → n < m → ℕ → Limits
  at_most n h at = limits m n h (Spared envs at)

  abbrev at_last : (n : ℕ) → n < m → Limits
  at_last n h = limits m n h (λ p. Unit {0})

  -- One round of the loop, and how the rest of it ends.
  onward :
      (l : Limits)
      → (fuel at : ℕ) (fw done : Firewall) → at < data_size
      → dispatch os c mem (envs at) at fw ≡ some done
      → Ends l (
          kc_send_loop os c mem envs data_size fuel
            (at + message_size mem at)
            (at + message_size mem at)
            done)
      → Ends l (kc_send_loop os c mem envs data_size (suc fuel) at at fw)
  onward l fuel at fw done less e (last, f, r) =
      let size = message_size mem at in
      let straight : (at + size) % word ≡ at + size =
        straight_on (at + size) (let z = message_size-lt os c mem bytes at in omega arith) in
      (
        last,
        kc_send_loop-next os c mem envs data_size fuel at at fw done less e
            ∙ ap (λ (p : ℕ). kc_send_loop os c mem envs data_size fuel p (at + size) done) straight
            ∙ f,
        r,
      )

  -- What is spared from an offset on is spared from a later one on.
  passed :
      (n at : ℕ) (h : n < m) (fw : Firewall)
      → Ready (at_most n h at) fw
      → Ready (at_most n h (at + message_size mem at)) fw
  passed n at h fw r =
      Ready-widen m n n h h (Spared envs at) (Spared envs (at + message_size mem at)) fw
        (omega arith) (λ p s k le. s k (omega arith)) r

  -- The loop at an offset within the data, where it has fuel for each byte that is left.
  kc_send_loop-Ends :
      (fuel n adds at : ℕ) (fw : Firewall) (h : n < m) (h' : n + adds < m)
      → Frames mem envs data_size adds at
      → Ready (at_most n h at) fw
      → data_size - at < fuel
      → Ends (at_last (n + adds) h') (kc_send_loop os c mem envs data_size fuel at at fw)
  kc_send_loop-Ends zero n adds at fw h h' f r left = absurd (omega arith)
  kc_send_loop-Ends (suc fuel) n _ at fw h h' (ended past) r left = (
    fw,
    kc_send_loop-stop os c mem envs data_size fuel at at fw past,
    Ready-widen m n (n + 0) h h' (Spared envs at) (λ p. Unit {0}) fw (omega arith) (λ p s. tt) r,
  )
  kc_send_loop-Ends (suc fuel) n adds at fw h h' (message less positive other rest) r left =
      let (done, e, r') =
        dispatch-Ends os c mem (at_most n h (at + message_size mem at)) (envs at) at fw (fuels at)
          other (passed n at h fw r) in
      onward _ fuel at fw done less e
        (kc_send_loop-Ends fuel n adds (at + message_size mem at) done h h' rest r' (omega arith))
  kc_send_loop-Ends (suc fuel) n _ at fw h h' (adding {adds} {request} less positive e read rest) r
        left =
      let size = message_size mem at in
      let more : suc n < m = omega arith in
      let (done, e', r') =
        handle_add_rule-Ends os (envs at) c m n h more (Spared envs at) (Spared envs (at + size))
          (fuels at) (λ p s. s at (omega arith)) (λ p s k le. s k (omega arith))
          (λ z k le. allocates at k (omega arith) z) request fw r in
      onward _ fuel at fw done less (dispatch_add os c mem (envs at) at request fw e read ∙ e') (
        let (last, f, r'') =
          kc_send_loop-Ends fuel (suc n) adds (at + size) done more (omega arith) rest r'
            (omega arith) in
        (
          last,
          f,
          Ready-widen m (suc n + adds) (n + suc adds) (omega arith) h' (λ p. Unit {0})
              (λ p. Unit {0}) last (omega arith) (λ p u. u) r'',
        ))

kc_send-runs :
    (os : Atomics) (c : Ptr) (mem : Memory) (envs : ℕ → Env) (fuel data_size : ℕ)
    (fw done : Firewall)
    → fw.closing ≡ false
    → c ≢ null
    → kc_send_loop os c mem envs data_size fuel 0 0 fw ≡ some done
    → kc_send os c mem envs fuel data_size fw ≡ some (Errno.kern_success, done)
unfolding kc_send
kc_send-runs os c mem envs fuel data_size fw done o n e =
    let stopped : Option (Errno × Firewall) = some (Errno.kern_terminated, fw) in
    let loop = kc_send_loop os c mem envs data_size fuel 0 0 fw in
    let run : Option (Errno × Firewall) = elim loop [
      | none ↦ none
      | some done ↦ some (Errno.kern_success, done)
    ] in
    subst (λ b. (if b || c == null then stopped else run) ≡ some (Errno.kern_success, done)) (sym o)
      (rw (==-ne c null n, e) refl)

-- KcSend from a client, while the extension is not closing, on a buffer that is a sequence of messages of which
-- none has size 0, in which the strings of each rule to add end within what the reading of them gets to, and that is
-- shorter than 2^32 - 65536 bytes, where `new Rule` gives for each message NULL or
-- an address of its own, at which no rule of the list is: it succeeds, and the list of clients and
-- that of rules are in order afterwards, each rule's `prev` field being NULL or right, with at most one
-- rule more for each message that adds one. The loop ends with fuel for more than the bytes of the buffer, and the
-- searches in it with fuel for more than the clients, and than the rules and those that are added.
pub kc_send-Ready :
    (os : Atomics) (c : Ptr) (mem : Memory) (envs : ℕ → Env) (fuel data_size m n adds : ℕ)
    (fw : Firewall) (h : n < m) (h' : n + adds < m)
    → Ready (limits m n h (λ p. (k : ℕ) → (envs k).rule ≢ p)) fw
    → fw.closing ≡ false
    → c ≢ null
    → data_size < fuel
    → data_size + 65536 ≤ word
    → ((p : ℕ) → mem p < 256)
    → ((at : ℕ) → m ≤ (envs at).fuel)
    → Allocates envs
    → Frames mem envs data_size adds 0
    → (done : Firewall) × (kc_send os c mem envs fuel data_size fw
        ≡ some (Errno.kern_success, done))
      × Ready (limits m (n + adds) h' (λ p. Unit {0})) done
kc_send-Ready os c mem envs fuel data_size m n adds fw h h' r o nn more small bytes fuels allocates
      frames =
    let (done, e, r') =
      kc_send_loop-Ends os c mem envs data_size m small bytes fuels allocates fuel n adds 0 fw h h'
        frames
        (Ready-widen m n n h h (λ p. (k : ℕ) → (envs k).rule ≢ p) (Spared envs 0) fw (omega arith)
          (λ p s k le. s k) r)
        (omega arith) in
    (done, kc_send-runs os c mem envs fuel data_size fw done o nn e, r')

same_place :
    (os : Atomics) (c : Ptr) (mem : Memory) (envs : ℕ → Env) (data_size fuel pos at : ℕ)
    (fw : Firewall)
    → message_size mem at ≡ 0
    → pos < word
    → kc_send_loop os c mem envs data_size fuel pos at fw ≡ none
    → kc_send_loop os c mem envs data_size fuel
        ((pos + message_size mem at) % word)
        (at + message_size mem at)
        fw
      ≡ none
same_place os c mem envs data_size fuel pos at fw z i e =
    let same : (pos + message_size mem at) % word ≡ pos = omega (arith, z) in
    let back : at + message_size mem at ≡ at = omega (arith, z) in
    subst (λ p. kc_send_loop os c mem envs data_size fuel p (at + message_size mem at) fw ≡ none)
      (sym same)
      (subst (λ p. kc_send_loop os c mem envs data_size fuel pos p fw ≡ none) (sym back) e)

-- A message of size 0 that starts within the data, at a position below 2^32, is handled again
-- and again: the loop does not end, however much fuel it is given, whatever the type of the
-- message and whatever the extension's state.
pub kc_send_loop-zero_size :
    (os : Atomics) (c : Ptr) (mem : Memory) (envs : ℕ → Env) (data_size fuel pos at : ℕ)
    (fw : Firewall)
    → message_size mem at ≡ 0
    → pos < data_size
    → pos < word
    → kc_send_loop os c mem envs data_size fuel pos at fw ≡ none
unfolding kc_send_loop
kc_send_loop-zero_size os c mem envs data_size zero pos at fw z h i = refl
kc_send_loop-zero_size os c mem envs data_size (suc fuel) pos at fw z h i =
    elim (Option-cases (dispatch os c mem (envs at) at fw)) [
      | inl e ↦
          let less : ltb pos data_size ≡ true = ground arith in rw (kc_send_loop, less, e) refl
      | inr (done, e) ↦
          kc_send_loop-next os c mem envs data_size fuel pos at fw done h e
          ∙ same_place os c mem envs data_size fuel pos at done z i
              (kc_send_loop-zero_size os c mem envs data_size fuel pos at done z h i)
    ]
