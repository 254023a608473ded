-- ===== src/Firewall/Frames.antt =====
-- What Firewall::KcSend (Kext/firewall.cpp) relies on: that the buffer holds whole messages, and what `new Rule` gives.
use watchfirewall.Prelude.{ℕ, suc, ◌+◌, ◌<◌, ◌≤◌, ◌≡◌, ◌≢◌, some}
use watchfirewall.Links.{Ptr, null}
use watchfirewall.Rule.{AddRuleMessage}
use watchfirewall.Messages.Types.{message_type_add_rule}
use watchfirewall.Firewall.{Env}
use watchfirewall.Firewall.Request.{Memory, message_size, message_type, read_add_rule}

-- From an offset the data are messages up to their end, of which `adds` add a rule: each has a size, and
-- the strings of a rule end within what the reading of them gets to.
pub data Frames (mem : Memory) (envs : ℕ → Env) (data_size : ℕ) : (adds at : ℕ) → Type 0 where
  ended : {at : ℕ} → data_size ≤ at → Frames mem envs data_size 0 at
  message :
      {adds at : ℕ}
      → at < data_size
      → 0 < message_size mem at
      → message_type mem at ≢ message_type_add_rule
      → Frames mem envs data_size adds (at + message_size mem at)
      → Frames mem envs data_size adds at
  adding :
      {adds at : ℕ} {request : AddRuleMessage}
      → at < data_size
      → 0 < message_size mem at
      → message_type mem at ≡ message_type_add_rule
      → read_add_rule (envs at).fuel mem at ≡ some request
      → Frames mem envs data_size adds (at + message_size mem at)
      → Frames mem envs data_size (suc adds) at

-- `new Rule` gives NULL, or an address that it gives for no other message.
abbrev pub Allocates : (ℕ → Env) → Type 0
Allocates envs = (j k : ℕ) → j < k → (envs j).rule ≢ null → (envs k).rule ≢ (envs j).rule

-- From the message at an offset on, `new Rule` does not give the address.
abbrev pub Spared : (ℕ → Env) → ℕ → Ptr → Type 0
Spared envs at p = (k : ℕ) → at ≤ k → (envs k).rule ≢ p
