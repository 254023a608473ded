-- ===== src/Console/Stream.antt =====
-- The way of messages from the extension (Kext/messages.cpp) over ReceiveThread (Shared/ServerConnection.cpp) to the console
-- (ConsoleTest/Console.cpp).
use watchfirewall.Prelude.{
  ℕ, ◌+◌, ◌<◌, ◌≡◌, refl, sym, subst, ap, ◌∙◌, Bool, true, false, Bool-cases, inl, inr, Option,
  some, none, List, [], ◌∷◌, ◌++◌, map, All, length, length-append, if◌then◌else◌, ◌==◌, arith,
}
use watchfirewall.Firewall.Request.{Memory, message_size, message_type}
use watchfirewall.Firewall.Reads.{Stands, Stands-left, Stands-to}
use watchfirewall.Messages.Types.{message_type_firewall_closing}
use watchfirewall.Connection.{receive_loop}
use watchfirewall.Connection.Receive.{Packed, ended, message, up_to_closing, receive_loop-Packed}
use watchfirewall.Wire.{raw_bytes, fields, tail}
use watchfirewall.Wire.Sizes.{length-raw_bytes}
use watchfirewall.Console.Names.{Headers}
use watchfirewall.Console.Handler.{Call, receive_message_handler}
use watchfirewall.Console.Fields.{laid-size, laid-type}
use watchfirewall.Console.Events.{Event, InRange, is_closing, event_bytes}
use watchfirewall.Console.Sent.{created-Sent}
use watchfirewall.Console.Report.{report}
use watchfirewall.Console.Prints.{raw-written, receive_message_handler-report}

-- The bytes of some messages, each with what `new` found where it was made.
abbrev pub stream : List (Memory × Event) → List ℕ
stream [] = []
stream ((found, e) ∷ es) = event_bytes found e ++ stream es

-- The reports of the messages up to the first that tells that the extension closes, and whether there is one.
abbrev pub reports : Headers → List (Memory × Event) → List (List Call) × Bool
reports h [] = ([], false)
reports h ((found, e) ∷ es) =
    let (lines, closing) = reports h es in
    if is_closing e then (report h e ∷ [], true) else (report h e ∷ lines, closing)

module _ (h : Headers) (fuel : ℕ) (mem : Memory) where
  -- receiveDelegate is called with each message that the loop of ReceiveThread finds.
  abbrev pub handled : List ℕ × Bool → List (List Call) × Bool
  handled (ats, closing) = (map (receive_message_handler h fuel mem) ats, closing)

  abbrev pub console : Option (List ℕ × Bool) → Option (List (List Call) × Bool)
  console none = none
  console (some r) = some (handled r)

  record Packs (n at : ℕ) (es : List (Memory × Event)) : Type 0 where
    ats : List ℕ
    packed : Packed mem n at ats
    printed : handled (up_to_closing mem ats) ≡ reports h es

  printed_first :
      (at : ℕ) (e : Event) (ats : List ℕ) (es : List (Memory × Event)) (found : Memory)
      → receive_message_handler h fuel mem at ≡ report h e
      → (message_type mem at == message_type_firewall_closing) ≡ is_closing e
      → handled (up_to_closing mem ats) ≡ reports h es
      → handled (up_to_closing mem (at ∷ ats)) ≡ reports h ((found, e) ∷ es)
  printed_first at e ats es found p t r = elim (Bool-cases (is_closing e)) [
    | inl y ↦ rw (t, y, p) refl
    | inr y ↦ rw (t, y, p) (ap (λ q. (report h e ∷ q.0, q.1)) r)
  ]

  stream-Packs :
      (n at : ℕ) (es : List (Memory × Event))
      → 254 < fuel
      → All (λ p. InRange h p.1) es
      → Stands mem at (stream es)
      → n ≡ at + length (stream es)
      → Packs n at es
  stream-Packs n at [] l i s e = record { ats = []; packed = ended (omega arith); printed = refl }
  stream-Packs n at ((found, e) ∷ es) l i s z =
      let s' = created-Sent h e i.0 in
      let m = s'.sent_message in
      let same = ap (λ o. elim o [ none ↦ [] | some m ↦ raw_bytes found m ]) s'.is_created in
      let mine = Stands-left mem at (event_bytes found e) (stream es) s in
      let front = raw-written mem found at m (subst (Stands mem at) same mine) in
      let size =
        laid-size mem found at m.size m.type (fields m.payload) (tail m.payload) front
          s'.sendable.small in
      let type =
        laid-type mem found at m.size m.type (fields m.payload) (tail m.payload) front
          s'.sendable.typed in
      let long : length (event_bytes found e) ≡ message_size mem at =
        ap length same ∙ length-raw_bytes found m s'.sendable.room ∙ sym size in
      let test : (message_type mem at == message_type_firewall_closing) ≡ is_closing e =
        ap (λ t. t == message_type_firewall_closing) type ∙ s'.closes in
      let prints = receive_message_handler-report h fuel mem found at e i.0 l mine in
      let next = at + message_size mem at in
      let rest =
        stream-Packs n next es l i.1
          (Stands-to mem at (event_bytes found e) (stream es) s next (omega (arith, long)))
          (omega (arith, z, long, length-append (event_bytes found e) (stream es))) in
      record {
        ats = at ∷ rest.ats;
        packed =
            message
              (omega (
                arith,
                z,
                long,
                size,
                s'.sendable.positive,
                length-append (event_bytes found e) (stream es),
              ))
              (omega (arith, size, s'.sendable.positive)) rest.packed;
        printed = printed_first at e rest.ats es found prints test rest.printed;
      }

  -- The extension sends messages one behind the other, and ReceiveThread gets all their bytes at once. Then the console prints what
  -- the calls that created the messages were about, each message once, in order, up to the first that tells that the
  -- extension closes, and the thread ends exactly if there is one. Fuel for more than the bytes is enough.
  pub console-reports :
      (n loops : ℕ) (es : List (Memory × Event))
      → 254 < fuel
      → All (λ p. InRange h p.1) es
      → Stands mem 0 (stream es)
      → n ≡ length (stream es)
      → n < loops
      → console (receive_loop mem n loops 0) ≡ some (reports h es)
  console-reports n loops es l i s z less =
      let packs = stream-Packs n 0 es l i s (omega (arith, z)) in
      ap console (receive_loop-Packed mem n loops 0 packs.ats packs.packed (omega (arith, less)))
      ∙ ap some packs.printed
