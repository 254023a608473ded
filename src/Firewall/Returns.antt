-- ===== src/Firewall/Returns.antt =====
-- What the loops need to end, and that the answers keep it, for Firewall::KcSend (Kext/firewall.cpp).
use watchfirewall.Prelude.{
  ℕ, ◌<◌, ◌≤◌, ◌≡◌, refl, sym, subst, ap, List, Option, some, none, arith, length,
}
use watchfirewall.Kernel.{Atomics}
use watchfirewall.Links.{Ptr}
use watchfirewall.Rules.{Rules, Code}
use watchfirewall.Rules.Loose.{Holds, Holds-links}
use watchfirewall.Rules.Activate.{Activation, absent, already, activated}
use watchfirewall.Messages.{Message}
use watchfirewall.Firewall.{Firewall, Env, reply, send_all}
use watchfirewall.Firewall.Broadcast.{HasClients, send_all-reached}
use watchfirewall.Firewall.Handlers.{answer, answer_delete}

-- How many rules there are at most, fewer than what each search gets to, and what is claimed of the
-- address of each rule.
pub record Limits : Type 1 where
  pub searches : ℕ
  pub rules : ℕ
  pub within : rules < searches
  pub allowed : Ptr → Type 0

-- Both lists of the extension are in order and within the limits.
pub record Ready (b : Limits) (fw : Firewall) : Type 0 where
  pub client_list : List Ptr
  pub has_clients : HasClients fw client_list
  pub few_clients : length client_list < b.searches
  pub has_rules : Holds b.allowed b.rules fw.rules

-- A run that ends with both lists in order.
abbrev pub Ends : Limits → Option Firewall → Type 0
Ends b o = (done : Firewall) × (o ≡ some done) × Ready b done

-- What else changes in the extension does not matter to the two lists.
pub Ready-copy :
    (b : Limits) (fw done : Firewall)
    → Ready b fw
    → done.lock_clients_queue ≡ fw.lock_clients_queue
    → done.clients ≡ fw.clients
    → done.next ≡ fw.next
    → done.rules ≡ fw.rules
    → Ready b done
Ready-copy b fw done r l c x s = record {
  client_list = r.client_list;
  has_clients = record {
    locked = rw l r.has_clients.locked;
    chain = rw (c, x) r.has_clients.chain;
    distinct = r.has_clients.distinct;
  };
  has_rules = rw s r.has_rules;
  few_clients = r.few_clients;
}

pub with_rules :
    (b : Limits) (fw : Firewall) (t : Rules)
    → Ready b fw
    → Holds b.allowed b.rules t
    → Ready b (record fw { rules = t })
with_rules b fw t r h = record {
  client_list = r.client_list;
  has_clients = record {
    locked = r.has_clients.locked;
    chain = r.has_clients.chain;
    distinct = r.has_clients.distinct;
  };
  few_clients = r.few_clients;
  has_rules = h;
}

module _ (os : Atomics) (b : Limits) (env : Env) (c : Ptr) (enough : b.searches ≤ env.fuel) where
  pub reply-Ready : (m : Message) (fw : Firewall) → Ready b fw → Ready b (reply env c m fw)
  unfolding reply
  reply-Ready m fw r = Ready-copy b fw _ r refl refl refl refl

  pub send_all-Ends : (m : Message) (fw : Firewall) → Ready b fw → Ends b (send_all env m fw)
  send_all-Ends m fw r = (
    _,
    send_all-reached env m fw r.client_list r.has_clients (let h = r.few_clients in omega arith),
    Ready-copy b fw _ r refl refl refl refl,
  )

  pub answer-Ends :
      (code : Code) (m : Message) (fw : Firewall) → Ready b fw → Ends b (answer os env c code m fw)
  answer-Ends Code.minus_one m fw r = (_, refl, reply-Ready _ fw r)
  answer-Ends Code.naught m fw r = send_all-Ends m fw r
  answer-Ends Code.one m fw r = (_, refl, reply-Ready _ fw r)

  pub answer_delete-Ends :
      (code : Code) (m : Message) (fw : Firewall)
      → Ready b fw
      → Ends b (answer_delete os env c code m fw)
  answer_delete-Ends Code.minus_one m fw r = (_, refl, r)
  answer_delete-Ends Code.naught m fw r = send_all-Ends m fw r
  answer_delete-Ends Code.one m fw r = (_, refl, reply-Ready _ fw r)

  -- An answer that is not allocated leaves the extension as it is.
  pub allocated-Ends :
      (o : Option Message) (k : Message → Option Firewall) (fw : Firewall)
      → Ready b fw
      → ((m : Message) → Ends b (k m))
      → Ends b (elim o [ none ↦ some fw | some m ↦ k m ])
  allocated-Ends none k fw r e = (_, refl, r)
  allocated-Ends (some m) k fw r e = e m

  pub coded_Ends :
      (k : Code → Message → Firewall → Option Firewall) (o : Option (Code × Rules)) (code : Code)
      (t : Rules) (m : Message) (fw : Firewall)
      → o ≡ some (code, t)
      → Ends b (k code m (record fw { rules = t }))
      → Ends b
          (elim o [ none ↦ none | some (code, rules) ↦ k code m (record fw { rules = rules }) ])
  coded_Ends k none code t m fw e r = absurd (cc)
  coded_Ends k (some a) code t m fw e r =
      subst
        (λ o.
          Ends b
            (elim o [ none ↦ none | some (code, rules) ↦ k code m (record fw { rules = rules }) ]))
        (sym e) r

links-Activation :
    {s t : Rules} {xs : List Ptr} {rule_id now : ℕ} {c : Code}
    → Activation s xs rule_id now c t
    → t.links ≡ s.links
links-Activation (absent a e same) = ap (λ (k : Rules). k.links) same
links-Activation (already x front back split a i st e same) = ap (λ (k : Rules). k.links) same
links-Activation (activated x front back split a i st e new others links live time) = links

pub Activation-Holds :
    (P : Ptr → Type 0) (n : ℕ) (s : Rules) (h : Holds P n s) (rule_id now : ℕ) (c : Code)
    (t : Rules)
    → Activation s h.list rule_id now c t
    → Holds P n t
Activation-Holds P n s h rule_id now c t a = Holds-links P s t (links-Activation a) h
