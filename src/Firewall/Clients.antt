-- ===== src/Firewall/Clients.antt =====
-- Firewall::KcConnect and KcDisconnect (Kext/firewall.cpp): the list of clients after each.
use watchfirewall.Prelude.{
  bit_and, ℕ, zero, suc, ◌+◌, ◌%◌, ◌<◌, ◌≡◌, ◌≢◌, refl, sym, ap, ◌∙◌, List, [], ◌∷◌, ◌++◌, Bool,
  true, false, some, if◌then◌else◌, arith, length, last, Fresh, update, ==-refl, ==-ne,
  Fresh-append_left, Distinct-drop, Distinct-last, Distinct-append_left, Distinct-middle,
}
use watchfirewall.Kernel.{Atomics, word}
use watchfirewall.SimpleBase.{release}
use watchfirewall.Links.{Ptr, null}
use watchfirewall.Links.Segment.{
  Seg, Seg-update, Seg-append_left, Seg-append, Seg-redirect, last-ne_null,
}
use watchfirewall.Queue.{Queue}
use watchfirewall.Queue.Contents.{IsQueue, items, enqueue-IsQueue, items-enqueue}
use watchfirewall.Messages.{Message}
use watchfirewall.Messages.Types.{message_class_firewall, message_class_common}
use watchfirewall.Client.{Client, close_signal, free, init_with_client, send}
use watchfirewall.Client.Receive.{Takes, send-Takes}
use watchfirewall.Firewall.{
  Firewall, Errno, kc_connect, kc_disconnect, disconnect_loop, disconnect_at,
}
use watchfirewall.Firewall.Broadcast.{HasClients}

-- A client whose queue is empty, which takes the messages of some classes and no others.
pub record Receives (classes : ℕ) (c : Client) : Type 0 where
  pub nothing_waits : IsQueue c.queue []
  pub takes :
      (node : Ptr) (m : Message)
      → node ≢ null
      → bit_and m.type classes ≢ 0
      → IsQueue (send node m c).queue (node ∷ [])
        × (items (send node m c).queue (node ∷ []) ≡ m ∷ [])
  pub refuses : (node : Ptr) (m : Message) → bit_and m.type classes ≡ 0 → send node m c ≡ c

new_client : ℕ → Queue Message → Client
new_client unit q = record {
  unit = unit;
  registred_message_clases = message_class_firewall + message_class_common;
  exit_state = 0;
  references = 1;
  queue = record q { head = null; last = null };
}

new_client-Receives :
    (unit : ℕ) (q : Queue Message)
    → Receives (message_class_firewall + message_class_common) (new_client unit q)
unfolding new_client send
new_client-Receives unit q =
    let c = new_client unit q in
    let empty : IsQueue c.queue [] = record { chain = refl; distinct = tt; ends = refl } in
    record {
      nothing_waits = empty;
      takes = λ node m n h.
          (let t : Takes c node m = record { not_closing = refl; has_class = h; has_node = n } in
            (
              rw (send-Takes node m c t) (enqueue-IsQueue node m c.queue n [] tt empty),
              rw (send-Takes node m c t) (items-enqueue node m c.queue n [] tt),
            ));
      refuses = λ node m e. rw e refl;
    }

-- KcConnect while the extension is not closing, where the object, its locks and its thread are
-- made and the object is none of the connected clients: it succeeds, and the new client is the
-- first of the list, has one reference and the given unit, is not told to close, and has an empty queue, which takes the
-- messages of the classes Firewall and Common and no others. The other clients are as before, and the count of
-- subscribers for debug messages is one higher, in 32 bits.
pub kc_connect-HasClients :
    (os : Atomics) (c : Ptr) (unit : ℕ) (fw : Firewall) (xs : List Ptr)
    → fw.closing ≡ false
    → c ≢ null
    → Fresh c xs
    → HasClients fw xs
    → let (code, done) = kc_connect os c true true true unit fw in
      (code ≡ Errno.kern_success)
      × HasClients done (c ∷ xs)
      × ((done.client c).references ≡ 1)
      × ((done.client c).exit_state ≡ 0)
      × ((done.client c).unit ≡ unit)
      × (done.live c ≡ true)
      × Receives (message_class_firewall + message_class_common) (done.client c)
      × ((p : Ptr) → p ≢ c → done.client p ≡ fw.client p)
      × (done.count_subscribers_for_debug ≡ (fw.count_subscribers_for_debug + 1) % word)
unfolding kc_connect watchfirewall.Client.init_with_client new_client
kc_connect-HasClients os c unit fw xs o n f is =
    rw (o, ==-ne c null n)
      (
        refl,
        record {
          locked = is.locked;
          chain = (
            refl,
            n,
            rw (==-refl c) (Seg-update fw.next c fw.clients fw.clients xs null f is.chain),
          );
          distinct = (f, is.distinct);
        },
        rw (==-refl c) refl,
        rw (==-refl c) refl,
        rw (==-refl c) refl,
        rw (==-refl c) refl,
        rw (==-refl c) (new_client-Receives unit (fw.client c).queue),
        λ p z. rw (==-ne c p (λ e. z (sym e))) refl,
        ap (λ (r : ℕ × ℕ). r.1) (os.increment_lem fw.count_subscribers_for_debug),
      )

-- Where KcConnect does not succeed, the extension is as before.
pub kc_connect_refused :
    (os : Atomics) (c : Ptr) (lock_queue lock_work_thread thread : Bool) (unit : ℕ) (fw : Firewall)
    → (kc_connect os c lock_queue lock_work_thread thread unit fw).0 ≢ Errno.kern_success
    → (kc_connect os c lock_queue lock_work_thread thread unit fw).1 ≡ fw
unfolding kc_connect init_with_client
kc_connect_refused os c lock_queue lock_work_thread thread unit fw h = ground arith

-- Where the loop of KcDisconnect finds the client, behind `front`.
disconnect_loop-found :
    (os : Atomics) (fuel : ℕ) (c prev curr : Ptr) (front back : List Ptr) (fw : Firewall)
    → Seg fw.next curr (front ++ c ∷ back) null
    → Fresh c front
    → length front < fuel
    → disconnect_loop os fuel c prev curr fw ≡ some (disconnect_at os (last prev front) c fw)
unfolding disconnect_loop
disconnect_loop-found os zero c prev curr front back fw s f h = absurd (omega arith)
disconnect_loop-found os (suc fuel) c prev curr [] back fw s f h =
    rw (s.0) (rw (disconnect_loop, ==-ne c null s.1, ==-refl c) refl)
disconnect_loop-found os (suc fuel) c prev curr (x ∷ front) back fw s f h = rw s.0 (
    rw (disconnect_loop, ==-ne x null s.1, ==-ne x c (λ e. f.0 (sym e)))
      (disconnect_loop-found os fuel c x (fw.next x) front back fw s.2 f.1 (omega arith)))

closed_exit :
    (b : Bool) (c : Client) (n : ℕ)
    → (if b then free (record c { references = n }) else record c { references = n }).exit_state
      ≡ c.exit_state
unfolding free
closed_exit true c n = refl
closed_exit false c n = refl

-- The client that is taken out is told to close.
exit_state-disconnect_at :
    (os : Atomics) (prev c : Ptr) (fw : Firewall)
    → ((disconnect_at os prev c fw).client c).exit_state ≡ ((fw.client c).exit_state + 1) % word
unfolding disconnect_at close_signal
exit_state-disconnect_at os prev c fw = rw (==-refl c) (
    closed_exit _ (close_signal os (fw.client c))
      (release os (close_signal os (fw.client c)).references).0
    ∙ ap (λ (r : ℕ × ℕ). r.1) (os.increment_lem (fw.client c).exit_state))

-- Taking a client that stands behind `front` out of the list.
disconnect_at-HasClients :
    (os : Atomics) (c : Ptr) (front back : List Ptr) (fw : Firewall)
    → HasClients fw (front ++ c ∷ back)
    → HasClients (disconnect_at os (last null front) c fw) (front ++ back)
unfolding disconnect_at
disconnect_at-HasClients os c [] back fw is = record {
  locked = is.locked;
  chain = is.chain.2;
  distinct = is.distinct.1;
}
disconnect_at-HasClients os c (a ∷ front) back fw is =
    let (m, left, right) =
      Seg-append_left fw.next fw.clients (a ∷ front) (c ∷ back) null is.chain in
    let fresh = Distinct-last a front (c ∷ back) is.distinct in
    let inside = Distinct-append_left (a ∷ front) (c ∷ back) is.distinct in
    rw (==-ne (last a front) null (last-ne_null fw.next fw.clients a front m left)) (record {
      locked = is.locked;
      chain =
          Seg-append (update fw.next (last a front) (fw.next c)) fw.clients (a ∷ front) back
            (fw.next c) null (Seg-redirect fw.next fw.clients a front m (fw.next c) inside left)
            (Seg-update fw.next (last a front) (fw.next c) (fw.next c) back null fresh.1 right.2);
      distinct = Distinct-drop c (a ∷ front) back is.distinct;
    })

pub kc_disconnect-found :
    (os : Atomics) (fuel : ℕ) (c : Ptr) (front back : List Ptr) (fw : Firewall)
    → HasClients fw (front ++ c ∷ back)
    → c ≢ null
    → length front < fuel
    → kc_disconnect os fuel c fw ≡ some (disconnect_at os (last null front) c fw)
unfolding kc_disconnect
kc_disconnect-found os fuel c front back fw is n h =
    let fresh = Fresh-append_left c front back (Distinct-middle c front back is.distinct) in
    rw (==-ne c null n)
      (disconnect_loop-found os fuel c null fw.clients front back fw is.chain fresh h)

-- KcDisconnect of a connected client takes it out of the list, whatever its place, leaves the
-- other clients in their order, and tells the client to close. The loop ends with fuel for
-- more than the clients before it.
pub kc_disconnect-HasClients :
    (os : Atomics) (fuel : ℕ) (c : Ptr) (front back : List Ptr) (fw : Firewall)
    → HasClients fw (front ++ c ∷ back)
    → c ≢ null
    → length front < fuel
    → (done : Firewall) × (kc_disconnect os fuel c fw ≡ some done)
      × HasClients done (front ++ back)
      × ((done.client c).exit_state ≡ ((fw.client c).exit_state + 1) % word)
kc_disconnect-HasClients os fuel c front back fw is n h = (
  disconnect_at os (last null front) c fw,
  kc_disconnect-found os fuel c front back fw is n h,
  disconnect_at-HasClients os c front back fw is,
  exit_state-disconnect_at os (last null front) c fw,
)
