-- ===== src/Rules.antt =====
-- Kext/rule.h and Kext/rule.cpp: the list of rules. A `Rule*` is an address, and `rule` holds the
-- fields of the object at each address. The loops take fuel, and `none` means that it ran out. The
-- mutex `lock` is held over each method's accesses to the list, so a method is one step of the
-- program.
pub mod Walk
pub mod Find
pub mod Delete
pub mod Activate
pub mod Add
pub mod Answer
pub mod Order
pub mod Sorted
pub mod Loose
pub mod Lost
pub mod Free
use watchfirewall.Prelude.{
  ℕ, zero, suc, List, [], ◌∷◌, Option, none, some, Bool, true, false, ltb, ◌==◌, ◌&&◌, ◌||◌,
  bit_and, if◌then◌else◌, update, Ordering,
}
use watchfirewall.Kernel.{Atomics}
use watchfirewall.SimpleBase.{retain, release}
use watchfirewall.Links.{Ptr, null, Links, unlink, insert_before, append_after}
use watchfirewall.Rule.{
  Rule, AddRuleMessage, InitMemory, init, compare_rule, rule_state_active, rule_state_inactive,
  rule_state_deleted,
}

pub record Rules : Type 0 where
  pub links : Links
  pub open links use *
  pub last_changed_time : ℕ
  pub rule : Ptr → Rule
  -- Whether there is an object at the address: `new` makes one, Free deletes it.
  pub live : Ptr → Bool

-- The `int` that the methods return: -1, 0 or 1.
pub data Code : Type 0 where
  minus_one naught one : Code

-- RemoveFromChain: unlink, then `rule->prev = rule->next = NULL`.
unfoldable pub remove_from_chain : Ptr → Links → Links
remove_from_chain r l =
    let l' = unlink r l in record l' { next = update l'.next r null; prev = update l'.prev r null }

unfoldable pub is_rules_changed : ℕ → Rules → Bool
is_rules_changed from_time s = ltb from_time s.last_changed_time

abbrev pub set_rule : Ptr → Rule → Rules → Rules
set_rule r v s = record s { rule = update s.rule r v }

unfoldable pub retain_rule : Atomics → Ptr → Rules → Rules
retain_rule os r s =
    set_rule r (record (s.rule r) { references = retain os (s.rule r).references }) s

-- Release, which deletes the rule with its strings when the count reaches 0.
unfoldable pub release_rule : Atomics → Ptr → Rules → Rules
release_rule os r s =
    let (left, freed) = release os (s.rule r).references in
    let s' = set_rule r (record (s.rule r) { references = left }) s in
    if freed then record s' { live = update s'.live r false } else s'

-- The arguments of FindRule. A NULL string equals no string; the address is not used.
pub record Query : Type 0 where
  pub process_name : Option (List ℕ)
  pub file_path : Option (List ℕ)
  pub sock_domain : ℕ
  pub sock_type : ℕ
  pub sock_protocol : ℕ
  pub direction : ℕ

unfoldable pub bytes_equal : List ℕ → List ℕ → Bool
bytes_equal [] [] = true
bytes_equal [] (y ∷ ys) = false
bytes_equal (x ∷ xs) [] = false
bytes_equal (x ∷ xs) (y ∷ ys) = x == y && bytes_equal xs ys

-- `s->getLength() == 0 || s->isEqualTo(name)`
abbrev pub name_fits : List ℕ → Option (List ℕ) → Bool
name_fits [] name = true
name_fits (x ∷ xs) none = false
name_fits (x ∷ xs) (some name) = bytes_equal (x ∷ xs) name

abbrev pub number_fits : ℕ → ℕ → Bool
number_fits own asked = own == 0 || own == asked

unfoldable pub applies : Rule → Query → Bool
applies r q =
    name_fits r.process_name q.process_name
    && (name_fits r.file_path q.file_path
        && (number_fits r.sock_domain q.sock_domain
            && (number_fits r.sock_type q.sock_type
                && (number_fits r.sock_protocol q.sock_protocol
                    && ltb 0 (bit_and r.direction q.direction)))))

-- The loops that look for the first rule with a property: its address, or NULL.
unfoldable pub walk : (Rule → Bool) → ℕ → Ptr → Rules → Option Ptr
walk test zero current s = none
walk test (suc fuel) current s =
    let rest = walk test fuel (s.next current) s in
    if current == null then some null else if test (s.rule current) then some current else rest

unfoldable pub find_rule : Atomics → ℕ → Query → Rules → Option (Ptr × Rules)
find_rule os fuel q s = elim (walk (λ r. applies r q) fuel s.root s) [
  | none ↦ none
  | some current ↦ some (current, if current == null then s else retain_rule os current s)
]

-- `now` is what clock_get_uptime gives.
abbrev pub deleted_at : ℕ → Ptr → Rules → Rules
deleted_at now r s = record s {
  rule = update s.rule r (record (s.rule r) { state = rule_state_deleted });
  links = remove_from_chain r s.links;
  last_changed_time = now;
}

unfoldable pub delete_rule : ℕ → ℕ → ℕ → Rules → Option (Code × Rules)
delete_rule fuel now rule_id s = elim (walk (λ r. r.id == rule_id) fuel s.root s) [
  | none ↦ none
  | some work ↦
      some (if work == null then (Code.minus_one, s) else (Code.naught, deleted_at now work s))
]

abbrev pub activated_at : ℕ → Ptr → Rules → Code × Rules
activated_at now r s =
    if (s.rule r).state == rule_state_inactive
    then (
      Code.naught,
      record s {
        rule = update s.rule r (record (s.rule r) { state = rule_state_active });
        last_changed_time = now;
      },
    )
    else (Code.one, s)

unfoldable pub activate_rule : ℕ → ℕ → ℕ → Rules → Option (Code × Rules)
activate_rule fuel now rule_id s = elim (walk (λ r. r.id == rule_id) fuel s.root s) [
  | none ↦ none
  | some work ↦ some (if work == null then (Code.minus_one, s) else activated_at now work s)
]

-- The body is that of ActivateRule: it tests for an inactive rule and makes it active.
unfoldable pub deactivate_rule : ℕ → ℕ → ℕ → Rules → Option (Code × Rules)
deactivate_rule fuel now rule_id s = elim (walk (λ r. r.id == rule_id) fuel s.root s) [
  | none ↦ none
  | some work ↦ some (if work == null then (Code.minus_one, s) else activated_at now work s)
]

-- A rule made by `new` at address `w`: its links are NULL.
unfoldable pub new_rule : Ptr → Rule → Rules → Rules
new_rule w r s = record s {
  links = record (s.links) { next = update s.next w null; prev = update s.prev w null };
  rule = update s.rule w r;
  live = update s.live w true;
}

unfoldable pub inserted_before : Atomics → ℕ → Ptr → Ptr → Rules → Rules
inserted_before os now w current s =
    retain_rule os w (record s { links = insert_before w current s.links; last_changed_time = now })

unfoldable pub appended_after : Atomics → Ptr → Ptr → Rules → Rules
appended_after os w prev s = retain_rule os w (record s { links = append_after prev w s.links })

-- The loop of AddRule and what follows it, over its variables `prev` and `current`: the result,
-- `*rule` and the rules.
unfoldable pub add_loop : Atomics → ℕ → ℕ → Ptr → Ptr → Ptr → Rules → Option (Code × Ptr × Rules)
add_loop os zero now w prev current s = none
add_loop os (suc fuel) now w prev current s = elim (current == null) [
  | true ↦ some (Code.naught, w, appended_after os w prev s)
  | false ↦ elim (compare_rule (s.rule w) (s.rule current)) [
    | Ordering.eq ↦ some (Code.one, current, retain_rule os current (release_rule os w s))
    | Ordering.gt ↦ some (Code.naught, w, inserted_before os now w current s)
    | Ordering.lt ↦ add_loop os fuel now w current (s.next current) s
  ]
]

-- `w` is what `new Rule()` gives, NULL on failure; a rule that Init refuses is deleted again.
unfoldable pub add_rule :
    Atomics → ℕ → ℕ → Ptr → InitMemory → AddRuleMessage → Rules → Option (Code × Ptr × Rules)
add_rule os fuel now w mem message s =
    if w == null then some (Code.minus_one, null, s) else elim (init mem message) [
      | none ↦ some (Code.minus_one, null, s)
      | some r ↦ add_loop os fuel now w null s.root (new_rule w r s)
    ]

-- The loop of Free: while(root) RemoveFromChain(root)->Release();
unfoldable pub free_rules : Atomics → ℕ → Rules → Option Rules
free_rules os zero s = none
free_rules os (suc fuel) s = elim (s.root == null) [
  | true ↦ some s
  | false ↦
      free_rules os fuel
        (release_rule os s.root (record s { links = remove_from_chain s.root s.links }))
]
