-- ===== src/Tests/Rules.antt =====
-- The rules of Kext/rule.cpp at two rules, named "c" and "a".
use watchfirewall.Prelude.{
  inl, All, ℕ, ◌≡◌, refl, List, [], ◌∷◌, true, none, some, arith, update, ◌==◌, if◌then◌else◌,
}
use watchfirewall.Kernel.{plain_atomics}
use watchfirewall.Links.{Ptr, null}
use watchfirewall.Links.Edit.{IsList, IsLoose, IsList-IsLoose}
use watchfirewall.Rule.{
  Rule, AddRuleMessage, InitMemory, init, initialised, strcmp, compare_rule, rule_state_active,
  rule_state_inactive,
}
use watchfirewall.Rules.{
  free_rules, Rules, Code, Query, find_rule, delete_rule, activate_rule, deactivate_rule, add_rule,
  retain_rule,
}
use watchfirewall.Rules.Free.{Released, free_rules-Released}
use watchfirewall.Rules.Walk.{First}
use watchfirewall.Rules.Find.{Applies, find_rule-First}
use watchfirewall.Rules.Delete.{LooseDeletion, delete_rule-LooseDeletion}
use watchfirewall.Rules.Activate.{Activation, activations_lem}
use watchfirewall.Rules.Answer.{Answer}
use watchfirewall.Rules.Order.{SortedAfter, add_rule-IsSorted}
use watchfirewall.Rules.Sorted.{LooseAfter, add_rule-LooseAfter}
use watchfirewall.Rules.Lost.{add_rule-delete_rule}

abbrev rule_for : ℕ → List ℕ → ℕ → Rule
rule_for id name state = record {
  id = id;
  process_name = name;
  file_path = [];
  sock_domain = 0;
  sock_type = 0;
  sock_protocol = 0;
  from_sock_address = none;
  direction = 3;
  allow = 1;
  state = state;
  references = 1;
}

abbrev message_for : ℕ → List ℕ → AddRuleMessage
message_for id name = record {
  message_id = 1;
  id = id;
  process_name = name;
  file_path = [];
  sock_domain = 0;
  sock_type = 0;
  sock_protocol = 0;
  from_sock_address = none;
  to_sock_address = none;
  direction = 3;
  allow = 1;
  state = rule_state_active;
}

abbrev pub enough : InitMemory
enough = record { name_fits = true; path_fits = true; address_fits = true }

abbrev pub two_rules : Rules
two_rules = record {
  links = record { root = 1; next = update (λ p. null) 1 2; prev = update (λ p. null) 2 1 };
  last_changed_time = 10;
  rule =
      update (λ p. rule_for 7 (b'a' ∷ []) rule_state_inactive) 1
        (rule_for 5 (b'c' ∷ []) rule_state_active);
  live = λ p. true;
}

pub two_rules-IsList : IsList two_rules.links (1 ∷ 2 ∷ [])
two_rules-IsList = record {
  forward = record {
    chain = (refl, omega arith, (refl, omega arith, refl));
    distinct = omega arith;
  };
  backs = (refl, (refl, tt));
}

pub two_rules-IsLoose : IsLoose two_rules.links (1 ∷ 2 ∷ [])
two_rules-IsLoose = IsList-IsLoose (1 ∷ 2 ∷ []) two_rules-IsList

abbrev asked : Query
asked = record {
  process_name = some (b'a' ∷ []);
  file_path = none;
  sock_domain = 2;
  sock_type = 1;
  sock_protocol = 6;
  direction = 1;
}

find_rule-First_example :
    (r : Ptr) × (find_rule plain_atomics 3 asked two_rules
      ≡ some (r, if r == null then two_rules else retain_rule plain_atomics r two_rules))
    × First (Applies asked) two_rules.rule (1 ∷ 2 ∷ []) r
find_rule-First_example =
    find_rule-First plain_atomics asked two_rules 3 (1 ∷ 2 ∷ []) two_rules-IsList.forward
      (omega arith)

activations_lem_example :
    ((c : Code) × (t : Rules) × (activate_rule 3 20 7 two_rules ≡ some (c, t))
      × Activation two_rules (1 ∷ 2 ∷ []) 7 20 c t)
    × ((c : Code) × (t : Rules) × (deactivate_rule 3 20 7 two_rules ≡ some (c, t))
        × Activation two_rules (1 ∷ 2 ∷ []) 7 20 c t)
activations_lem_example =
    activations_lem two_rules 7 20 3 (1 ∷ 2 ∷ []) two_rules-IsList.forward (omega arith)

-- The second rule was appended: nothing leads back from it.
abbrev appended_rules : Rules
appended_rules = record two_rules {
  links = record { root = 1; next = update (λ p. null) 1 2; prev = λ p. null };
}

appended_rules-IsLoose : IsLoose appended_rules.links (1 ∷ 2 ∷ [])
appended_rules-IsLoose = record {
  forward = record {
    chain = (refl, omega arith, (refl, omega arith, refl));
    distinct = omega arith;
  };
  backs = (inl refl, (inl refl, tt));
}

delete_rule-LooseDeletion_example :
    (c : Code) × (t : Rules) × (delete_rule 3 20 7 appended_rules ≡ some (c, t))
    × LooseDeletion appended_rules (1 ∷ 2 ∷ []) 7 20 c t
delete_rule-LooseDeletion_example =
    delete_rule-LooseDeletion appended_rules 7 20 3 (1 ∷ 2 ∷ []) appended_rules-IsLoose
      (omega arith)

add_rule-IsSorted_example :
    (c : Code) × (p : Ptr) × (t : Rules) × (add_rule plain_atomics 3 20 4 enough
        (message_for 6 (b'b' ∷ []))
        two_rules
      ≡ some (c, p, t))
    × SortedAfter 4 (1 ∷ 2 ∷ []) c t
    × Answer plain_atomics two_rules 4 (initialised (message_for 6 (b'b' ∷ []))) (1 ∷ 2 ∷ []) c p t
unfolding init compare_rule strcmp
add_rule-IsSorted_example =
    add_rule-IsSorted plain_atomics 3 20 4 enough (message_for 6 (b'b' ∷ [])) two_rules (1 ∷ 2 ∷ [])
      (initialised (message_for 6 (b'b' ∷ []))) (omega arith) refl (omega arith) two_rules-IsList
      ((refl, tt), (tt, tt)) (omega arith)

add_rule-LooseAfter_example :
    (c : Code) × (p : Ptr) × (t : Rules) × (add_rule plain_atomics 3 20 4 enough
        (message_for 6 (b'b' ∷ []))
        appended_rules
      ≡ some (c, p, t))
    × LooseAfter appended_rules 4 (1 ∷ 2 ∷ []) c t
    × Answer plain_atomics appended_rules 4
        (initialised (message_for 6 (b'b' ∷ [])))
        (1 ∷ 2 ∷ [])
        c
        p
        t
unfolding init compare_rule strcmp
add_rule-LooseAfter_example =
    add_rule-LooseAfter plain_atomics 3 20 4 enough (message_for 6 (b'b' ∷ [])) appended_rules
      (1 ∷ 2 ∷ []) (initialised (message_for 6 (b'b' ∷ []))) (omega arith) refl (omega arith)
      appended_rules-IsLoose ((refl, tt), (tt, tt)) (omega arith)

add_rule-delete_rule_example :
    (t u : Rules) × (add_rule plain_atomics 3 20 4 enough (message_for 8 (b'A' ∷ [])) two_rules
      ≡ some (Code.naught, 4, t))
    × (t.last_changed_time ≡ 10)
    × (delete_rule 3 30 8 t ≡ some (Code.naught, u))
    × (u.root ≡ null)
unfolding init compare_rule strcmp
add_rule-delete_rule_example =
    add_rule-delete_rule plain_atomics 3 20 30 4 enough (message_for 8 (b'A' ∷ [])) two_rules
      (1 ∷ 2 ∷ []) (initialised (message_for 8 (b'A' ∷ []))) (omega arith) refl (omega arith)
      two_rules-IsList.forward (omega arith) (refl, (refl, tt)) (omega arith)

free_rules-Released_example :
    (t : Rules) × (free_rules plain_atomics 3 two_rules ≡ some t)
    × (t.root ≡ null)
    × All (Released plain_atomics two_rules t) (1 ∷ 2 ∷ [])
free_rules-Released_example =
    free_rules-Released plain_atomics 3 two_rules (1 ∷ 2 ∷ []) two_rules-IsLoose (omega arith)
