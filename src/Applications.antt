-- ===== src/Applications.antt =====
-- Kext/application.h and Kext/application.cpp: the processes that open sockets, one object for each. `lock` is held
-- over Get, AddLocked, a round of CheckIsLiveRoutine and the loop of Free, so each is one step. Loops take fuel,
-- and `none` means that it ran out. The names, ids and times that are copied from the process and the file are
-- left out.
pub mod Get
pub mod Routine
pub mod MoveOn
pub mod Rounds
pub mod Sweep
pub mod Free
use watchfirewall.Prelude.{
  ℕ, zero, suc, ◌+◌, ◌-◌, ◌%◌, ◌^◌, Bool, true, false, not, ltb, ◌&&◌, Option, none, some, ◌==◌,
  if◌then◌else◌, update,
}
use watchfirewall.Kernel.{Atomics, word}
use watchfirewall.SimpleBase.{retain, release}
use watchfirewall.Links.{Ptr, null, Links, unlink, push_front}

pub record Application : Type 0 where
  pub pid : ℕ
  pub references : ℕ

pub record Applications : Type 0 where
  pub links : Links
  pub open links use *
  pub closing : ℕ
  pub count_processes_to_check : ℕ
  pub application : Ptr → Application
  -- Whether there is an object at the address: `new` makes one, Free deletes it.
  pub live : Ptr → Bool

unfoldable pub remove : Ptr → Applications → Applications
remove a s = record s { links = unlink a s.links }

unfoldable pub retained : Atomics → Ptr → Applications → Applications
retained os a s = record s {
  application =
      update s.application a
        (record (s.application a) { references = retain os (s.application a).references });
}

-- Release, which deletes the object with its strings when the count reaches 0.
unfoldable pub release_application : Atomics → Ptr → Applications → Applications
release_application os a s =
    let (left, freed) = release os (s.application a).references in
    record s {
      application = update s.application a (record (s.application a) { references = left });
      live = if freed then update s.live a false else s.live;
    }

-- `a` is what `new Application()` gives, of fields that are 0, and `pid` is proc_selfpid(). The result is
-- the object, or NULL.
unfoldable pub add : Atomics → Ptr → (pid : ℕ) → Applications → Ptr × Applications
add os a pid s = if not (s.closing == 0) then (null, s) else if a == null then (null, s) else (
  a,
  record s {
    links = push_front a s.links;
    application = update s.application a (record { pid = pid; references = retain os 0 });
    live = update s.live a true;
    count_processes_to_check = (s.count_processes_to_check + 1) % word;
  },
)

-- The loop of Get: the first application of the process, or NULL.
unfoldable pub search : ℕ → (pid : ℕ) → Ptr → Applications → Option Ptr
search zero pid p s = none
search (suc fuel) pid p s = elim (p == null) [
  | true ↦ some null
  | false ↦ elim ((s.application p).pid == pid) [
    | true ↦ some p
    | false ↦ search fuel pid (s.next p) s
  ]
]

-- The object that Add gives gets a second reference, for the caller.
abbrev pub get_new : Atomics → Ptr × Applications → Ptr × Applications
get_new os (new, s) = (new, if new == null then s else retained os new s)

unfoldable pub get : Atomics → ℕ → Ptr → (pid : ℕ) → Applications → Option (Ptr × Applications)
get os fuel a pid s =
    if not (s.closing == 0) then some (null, s) else elim (search fuel pid s.root s) [
      | none ↦ none
      | some p ↦ some (if p == null then get_new os (add os a pid s) else (p, retained os p s))
    ]

-- The loop of Free: while(head) Remove(head)->Release();
unfoldable pub free_applications : Atomics → ℕ → Applications → Option Applications
free_applications os zero s = none
free_applications os (suc fuel) s = elim (s.root == null) [
  | true ↦ some s
  | false ↦ free_applications os fuel (release_application os s.root (remove s.root s))
]

-- One round of CheckIsLiveRoutine behind its sleep: the next application to check. `checked` is the one that the
-- last round left a reference to, or NULL.
unfoldable pub move_on : Atomics → Ptr → Applications → Ptr × Applications
move_on os checked s =
    if checked == null then (s.root, s) else (s.next checked, release_application os checked s)

-- countProcessesToCheck, an SInt32, is lowered if it is positive.
unfoldable pub count_down : Applications → Applications
count_down s =
    let n = s.count_processes_to_check in
    if ltb 0 n && ltb n (2 ^ 31) then record s { count_processes_to_check = n - 1 } else s

-- `is_live` is whether proc_find finds the process.
unfoldable pub check : Atomics → (is_live : ℕ → Bool) → Ptr → Applications → Ptr × Applications
check os is_live checked s =
    if checked == null
    then (null, s)
    else if is_live (s.application checked).pid
    then (checked, retained os checked s)
    else let s' = release_application os checked (remove checked s) in
      (null, record s' { count_processes_to_check = (s'.count_processes_to_check + 1) % word })

unfoldable pub check_round :
    Atomics → (is_live : ℕ → Bool) → Ptr → Applications → Ptr × Applications
check_round os is_live checked s =
    let (next_one, s') = move_on os checked s in check os is_live next_one (count_down s')

-- The loop of CheckIsLiveRoutine, for some rounds while `closing` is 0.
unfoldable pub check_rounds :
    Atomics → (is_live : ℕ → Bool) → ℕ → Ptr → Applications → Ptr × Applications
check_rounds os is_live zero checked s = (checked, s)
check_rounds os is_live (suc n) checked s =
    let (next_one, s') = check_round os is_live checked s in check_rounds os is_live n next_one s'
