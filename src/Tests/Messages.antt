-- ===== src/Tests/Messages.antt =====
-- The reference counts of Kext/simpleBase.h and the messages of Kext/messages.cpp at concrete inputs.
use watchfirewall.Messages.{Message, Payload}
use watchfirewall.Messages.Text.{Vsnprintf, Formats, create_text, text_allocated, create_text_lem}
use watchfirewall.Prelude.{
  ℕ, zero, suc, ◌-◌, List, ◌++◌, ◌↔◌, refl, true, ◌≡◌, ◌≤◌, ◌+◌, [], ◌∷◌, some, none, length, arith,
}
use watchfirewall.Messages.Address.{take, SockAddress, copied, get_local, get_remote}
use watchfirewall.Messages.Layout.{end_of}
use watchfirewall.Messages.Debug.{accept_fields, accept_needed_size, accept_data}
use watchfirewall.Messages.Fits.{IsGood, accept_round_trip}

-- An address of four bytes, of the family AF_INET.
abbrev small_address : SockAddress
small_address = record { len = 4; family = 2; tail = 0 ∷ 80 ∷ [] }

small_address-IsGood : IsGood (some small_address)
small_address-IsGood = (record { counted = omega arith }, omega arith)

accept_round_trip_example :
    (end_of 0 (accept_fields []) + length (accept_data (some small_address) none)
      ≤ accept_needed_size (some small_address) none)
    × (get_local (accept_data (some small_address) none) ≡ copied (some small_address))
    × (get_remote (accept_data (some small_address) none) ≡ copied none)
accept_round_trip_example = accept_round_trip (some small_address) none small_address-IsGood tt

abbrev repeated : ℕ → List ℕ
repeated zero = []
repeated (suc n) = 65 ∷ repeated n

-- vsnprintf for a text of 300 bytes.
abbrev long_text : List ℕ
long_text = repeated 300

vsnprintf_long : Vsnprintf
vsnprintf_long size = (take (size - 1) long_text ++ 0 ∷ [], length long_text)

long_text-Formats : Formats vsnprintf_long long_text
unfolding vsnprintf_long
long_text-Formats = record { writes = λ size h. refl; tells = λ size. refl }

create_text_lem_example :
    (m : Message) × (create_text true true vsnprintf_long ≡ some m)
    × (m.payload ≡ Payload.text (take 253 long_text ++ 0 ∷ []))
    × (m.size ≡ length long_text + 5)
    × ((m.size ≤ text_allocated) ↔ (length long_text ≤ 254))
create_text_lem_example = create_text_lem vsnprintf_long long_text long_text-Formats (omega arith)
