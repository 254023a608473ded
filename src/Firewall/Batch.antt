-- ===== src/Firewall/Batch.antt =====
-- KcSend (Kext/firewall.cpp) on a buffer of requests, and the handlers of these requests one after the other.
use watchfirewall.Prelude.{
  ℕ, zero, suc, ◌+◌, ◌%◌, ◌<◌, ◌≤◌, ◌≡◌, ◌≢◌, refl, sym, subst, ap, ◌∙◌, true, false, List, [], ◌∷◌,
  ◌++◌, All, Option, none, some, arith, ltb, ◌==◌, ◌||◌, if◌then◌else◌, ==-ne, length,
  length-append, Option-cases, inl, inr,
}
use watchfirewall.Kernel.{Atomics, word}
use watchfirewall.Links.{Ptr, null}
use watchfirewall.Messages.Types.{
  message_type_activate_firewall, message_type_activate_rule, message_type_deactivate_firewall,
  message_type_deactivate_rule, message_type_delete_rule,
  message_type_subscribe_asa_provider_of_rules, message_type_subscribe_to_info_rules,
  message_type_subscribe_to_info_sockets, message_type_unsubscribe_asa_provider_of_rules,
  message_type_unsubscribe_from_info_rules, message_type_unsubscribe_from_info_sockets,
}
use watchfirewall.Messages.Requests.{
  Request, delete_rule, activate_rule, deactivate_rule, activate_firewall, deactivate_firewall,
  subscribe_asa_provider_of_rules, unsubscribe_asa_provider_of_rules, subscribe_to_info_rules,
  unsubscribe_from_info_rules, subscribe_to_info_sockets, unsubscribe_from_info_sockets, encode,
  bytes_32, action_size, rule_action_size,
}
use watchfirewall.Firewall.{Firewall, Env, Errno}
use watchfirewall.Firewall.Request.{Memory, message_size}
use watchfirewall.Firewall.KcSend.{dispatch, kc_send_loop, kc_send}
use watchfirewall.Firewall.Loop.{kc_send_loop-stop, kc_send_loop-next, straight_on}
use watchfirewall.Firewall.Reads.{Stands, Stands-left, Stands-right}
use watchfirewall.Firewall.Requests.{InRange, run, dispatch-run, reads_size}

message_size-encode :
    (mem : Memory) (at : ℕ) (r : Request)
    → Stands mem at (encode r)
    → message_size mem at ≡ length (encode r)
message_size-encode mem at (delete_rule id r) h =
    reads_size mem at rule_action_size message_type_delete_rule id (bytes_32 r) h (omega arith)
message_size-encode mem at (activate_rule id r) h =
    reads_size mem at rule_action_size message_type_activate_rule id (bytes_32 r) h (omega arith)
message_size-encode mem at (deactivate_rule id r) h =
    reads_size mem at rule_action_size message_type_deactivate_rule id (bytes_32 r) h (omega arith)
message_size-encode mem at (activate_firewall id) h =
    reads_size mem at action_size message_type_activate_firewall id [] h (omega arith)
message_size-encode mem at (deactivate_firewall id) h =
    reads_size mem at action_size message_type_deactivate_firewall id [] h (omega arith)
message_size-encode mem at (subscribe_asa_provider_of_rules id) h =
    reads_size mem at action_size message_type_subscribe_asa_provider_of_rules id [] h (omega arith)
message_size-encode mem at (unsubscribe_asa_provider_of_rules id) h =
    reads_size mem at action_size message_type_unsubscribe_asa_provider_of_rules id [] h
      (omega arith)
message_size-encode mem at (subscribe_to_info_rules id) h =
    reads_size mem at action_size message_type_subscribe_to_info_rules id [] h (omega arith)
message_size-encode mem at (unsubscribe_from_info_rules id) h =
    reads_size mem at action_size message_type_unsubscribe_from_info_rules id [] h (omega arith)
message_size-encode mem at (subscribe_to_info_sockets id) h =
    reads_size mem at action_size message_type_subscribe_to_info_sockets id [] h (omega arith)
message_size-encode mem at (unsubscribe_from_info_sockets id) h =
    reads_size mem at action_size message_type_unsubscribe_from_info_sockets id [] h (omega arith)

length-encode : (r : Request) → (7 < length (encode r)) × (length (encode r) < 13)
length-encode (delete_rule id r) = (omega arith, omega arith)
length-encode (activate_rule id r) = (omega arith, omega arith)
length-encode (deactivate_rule id r) = (omega arith, omega arith)
length-encode (activate_firewall id) = (omega arith, omega arith)
length-encode (deactivate_firewall id) = (omega arith, omega arith)
length-encode (subscribe_asa_provider_of_rules id) = (omega arith, omega arith)
length-encode (unsubscribe_asa_provider_of_rules id) = (omega arith, omega arith)
length-encode (subscribe_to_info_rules id) = (omega arith, omega arith)
length-encode (unsubscribe_from_info_rules id) = (omega arith, omega arith)
length-encode (subscribe_to_info_sockets id) = (omega arith, omega arith)
length-encode (unsubscribe_from_info_sockets id) = (omega arith, omega arith)

-- The buffer of a client that sends requests one behind the other.
abbrev pub encode_all : List Request → List ℕ
encode_all [] = []
encode_all (r ∷ rs) = encode r ++ encode_all rs

module _ (os : Atomics) (c : Ptr) (envs : ℕ → Env) where
  -- The handlers of some requests, one after the other; `envs` says what the kernel does at each offset.
  abbrev pub run_all : ℕ → List Request → Firewall → Option Firewall
  run_all at [] fw = some fw
  run_all at (r ∷ rs) fw = elim (run os c (envs at) r fw) [
    | none ↦ none
    | some done ↦ run_all (at + length (encode r)) rs done
  ]

  module _ (mem : Memory) (n : ℕ) (small : n + 65536 ≤ word) where
    kc_send_loop-none :
        (fuel at : ℕ) (fw : Firewall)
        → ltb at n ≡ true
        → dispatch os c mem (envs at) at fw ≡ none
        → kc_send_loop os c mem envs n (suc fuel) at at fw ≡ none
    unfolding kc_send_loop
    kc_send_loop-none fuel at fw less e = rw (kc_send_loop, less, e) refl

    kc_send_loop-run_all :
        (fuel at : ℕ) (rs : List Request) (fw : Firewall)
        → All InRange rs
        → Stands mem at (encode_all rs)
        → n ≡ at + length (encode_all rs)
        → length rs < fuel
        → kc_send_loop os c mem envs n fuel at at fw ≡ run_all at rs fw
    unfolding kc_send_loop
    kc_send_loop-run_all zero at rs fw i h e l = absurd (omega arith)
    kc_send_loop-run_all (suc fuel) at [] fw i h e l =
        kc_send_loop-stop os c mem envs n fuel at at fw (omega arith)
    kc_send_loop-run_all (suc fuel) at (r ∷ rs) fw i h e l =
        let whole = length-append (encode r) (encode_all rs) in
        let mine = Stands-left mem at (encode r) (encode_all rs) h in
        let rest = Stands-right mem at (encode r) (encode_all rs) h in
        let size = message_size-encode mem at r mine in
        let step = dispatch-run os c mem (envs at) at r fw i.0 mine in
        let within : at < n = omega (arith, whole, (length-encode r).0) in
        let goes_on : Option Firewall → Option Firewall =
          λ o. elim o [ none ↦ none | some done ↦ run_all (at + length (encode r)) rs done ] in
        elim (Option-cases (run os c (envs at) r fw)) [
          | inl stuck ↦
              let less : ltb at n ≡ true = ground arith in
              kc_send_loop-none fuel at fw less (step ∙ stuck) ∙ ap goes_on (sym stuck)
          | inr (done, ends) ↦
              let straight : (at + length (encode r)) % word ≡ at + length (encode r) =
                straight_on (at + length (encode r)) (omega (arith, (length-encode r).1)) in
              kc_send_loop-next os c mem envs n fuel at at fw done within (step ∙ ends)
              ∙ ap (λ k. kc_send_loop os c mem envs n fuel ((at + k) % word) (at + k) done) size
              ∙ ap (λ p. kc_send_loop os c mem envs n fuel p (at + length (encode r)) done) straight
              ∙ kc_send_loop-run_all fuel (at + length (encode r)) rs done i.1 rest
                  (omega (arith, whole)) (omega arith)
              ∙ ap goes_on (sym ends)
        ]

-- What KcSend returns where its loop comes to an end.
abbrev pub succeeded : Option Firewall → Option (Errno × Firewall)
succeeded none = none
succeeded (some done) = some (Errno.kern_success, done)

-- KcSend of a client, while the extension is not closing, on the bytes of a sequence of requests, each as its Init makes it,
-- in a buffer of less than 2^32 - 65536 bytes: it does exactly what the handlers of the requests do, one after the other, each
-- with the ids of its request, and then returns KERN_SUCCESS. One round of fuel more than the requests is
-- enough for the loop.
pub kc_send-run_all :
    (os : Atomics) (c : Ptr) (envs : ℕ → Env) (mem : Memory) (fuel : ℕ) (rs : List Request)
    (fw : Firewall)
    → fw.closing ≡ false
    → c ≢ null
    → All InRange rs
    → Stands mem 0 (encode_all rs)
    → length (encode_all rs) + 65536 ≤ word
    → length rs < fuel
    → kc_send os c mem envs fuel (length (encode_all rs)) fw ≡ succeeded (run_all os c envs 0 rs fw)
unfolding kc_send
kc_send-run_all os c envs mem fuel rs fw o n i h small l =
    let stopped : Option (Errno × Firewall) = some (Errno.kern_terminated, fw) in
    let run : Option (Errno × Firewall) =
      succeeded (kc_send_loop os c mem envs (length (encode_all rs)) fuel 0 0 fw) in
    let loop =
      kc_send_loop-run_all os c envs mem (length (encode_all rs)) small fuel 0 rs fw i h
        (omega arith) l in
    subst (λ b. (if b || c == null then stopped else run) ≡ succeeded (run_all os c envs 0 rs fw))
      (sym o) (rw (==-ne c null n) (ap succeeded loop))
