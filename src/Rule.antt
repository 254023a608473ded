-- ===== src/Rule.antt =====
-- Kext/rule.h and Kext/rule.cpp: one rule, how a message fills it, and how rules are ordered.
-- An OSString and a C string are their bytes, without the final 0; `timespec` fields, the data
-- size and the lock of a rule are never set, and left out.
pub mod Order
pub mod Compare
use watchfirewall.Prelude.{
  ℕ, List, [], ◌∷◌, Option, none, some, Bool, true, false, compare, Ordering,
}

-- RuleState.
abbrev pub rule_state_active : ℕ
rule_state_active = 1

abbrev pub rule_state_inactive : ℕ
rule_state_inactive = 2

abbrev pub rule_state_deleted : ℕ
rule_state_deleted = 3

pub record Rule : Type 0 where
  pub id : ℕ
  pub process_name : List ℕ
  pub file_path : List ℕ
  pub sock_domain : ℕ
  pub sock_type : ℕ
  pub sock_protocol : ℕ
  pub from_sock_address : Option (List ℕ)
  pub direction : ℕ
  pub allow : ℕ
  pub state : ℕ
  pub references : ℕ

-- The message of RawMessageAddRule, with what its getters return.
pub record AddRuleMessage : Type 0 where
  pub message_id : ℕ
  pub id : ℕ
  pub process_name : List ℕ
  pub file_path : List ℕ
  pub sock_domain : ℕ
  pub sock_type : ℕ
  pub sock_protocol : ℕ
  pub from_sock_address : Option (List ℕ)
  pub to_sock_address : Option (List ℕ)
  pub direction : ℕ
  pub allow : ℕ
  pub state : ℕ

-- Which of the allocations of Rule::Init succeed.
pub record InitMemory : Type 0 where
  pub name_fits : Bool
  pub path_fits : Bool
  pub address_fits : Bool

abbrev pub initialised : AddRuleMessage → Rule
initialised m = record {
  id = m.id;
  process_name = m.process_name;
  file_path = m.file_path;
  sock_domain = m.sock_domain;
  sock_type = m.sock_type;
  sock_protocol = m.sock_protocol;
  from_sock_address = m.from_sock_address;
  direction = m.direction;
  allow = m.allow;
  state = m.state;
  references = 1;
}

-- `if((t && this->fromSockAddress) || !t)`
abbrev address_ready : Option (List ℕ) → Bool → Bool
address_ready none fits = true
address_ready (some t) fits = fits

-- `none` is the result false; what it leaves in the object is deleted by the caller.
unfoldable pub init : InitMemory → AddRuleMessage → Option Rule
init mem m = elim mem.name_fits [
  | false ↦ none
  | true ↦ elim mem.path_fits [
    | false ↦ none
    | true ↦ elim (address_ready m.from_sock_address mem.address_fits) [
      | false ↦ none
      | true ↦ some (initialised m)
    ]
  ]
]

-- Of the `int` that strcmp and Compare return the program reads the sign only.
unfoldable pub strcmp : List ℕ → List ℕ → Ordering
strcmp [] [] = Ordering.eq
strcmp [] (y ∷ ys) = Ordering.lt
strcmp (x ∷ xs) [] = Ordering.gt
strcmp (x ∷ xs) (y ∷ ys) =
    let rest = strcmp xs ys in
    elim (compare x y) [
      | Ordering.lt ↦ Ordering.lt
      | Ordering.eq ↦ rest
      | Ordering.gt ↦ Ordering.gt
    ]

-- `if(result != 0) return result;`
abbrev pub or_else : Ordering → Ordering → Ordering
or_else Ordering.lt next = Ordering.lt
or_else Ordering.eq next = next
or_else Ordering.gt next = Ordering.gt

unfoldable pub compare_rule : Rule → Rule → Ordering
compare_rule r t = or_else (strcmp r.process_name t.process_name) (
    or_else (strcmp r.file_path t.file_path) (
      or_else (compare r.sock_domain t.sock_domain) (
        or_else (compare r.sock_type t.sock_type) (
          or_else (compare r.sock_protocol t.sock_protocol)
            (or_else (compare r.direction t.direction) (compare r.allow t.allow))))))
