-- ===== src/Client/Thread/Channel.antt =====
-- What a client's queue and its thread (Kext/client.cpp) promise together: a channel, from which messages leave
-- one at a time, in the order in which they were accepted.
use watchfirewall.Prelude.{◌≡◌, refl, sym, subst, ap, ◌∙◌, List, [], ◌∷◌, ◌++◌, map}
use mathlib.Core.List.{append_assoc, append-nil, map-append}
use watchfirewall.Messages.{Message}
use watchfirewall.Client.Thread.{Fate, cleared, all_cleared}

pub record Channel : Type 0 where
  pub accepted : List Message
  pub waiting : List Message
  pub finished : List (Message × Fate)

-- Accepting a message, or being done with the first that waits.
pub data Act (c : Channel) : Channel → Type 0 where
  accept :
      (m : Message)
      → Act c (record c { accepted = c.accepted ++ m ∷ []; waiting = c.waiting ++ m ∷ [] })
  finish :
      (m : Message) (f : Fate) (ms : List Message)
      → c.waiting ≡ m ∷ ms
      → Act c (record c { waiting = ms; finished = c.finished ++ (m, f) ∷ [] })

pub data Acts (c : Channel) : Channel → Type 0 where
  none_left : Acts c c
  act : {d e : Channel} → Acts c d → Act d e → Acts c e

pub one : {c d : Channel} → Act c d → Acts c d
one a = act none_left a

pub Acts-trans : {c d e : Channel} → Acts c d → Acts d e → Acts c e
Acts-trans r none_left = r
Acts-trans r (act s a) = act (Acts-trans r s) a

-- Nothing is lost, doubled or overtaken: the accepted messages are those that are done with, in
-- order, and then those that wait.
abbrev pub InOrder : Channel → Type 0
InOrder c = c.accepted ≡ map (λ p. p.0) c.finished ++ c.waiting

pub Act-InOrder : {c d : Channel} → Act c d → InOrder c → InOrder d
Act-InOrder {c} (accept m) h =
    ap (λ ms. ms ++ m ∷ []) h ∙ append_assoc (map (λ p. p.0) c.finished) c.waiting (m ∷ [])
Act-InOrder {c} (finish m f ms e) h =
    h
    ∙ ap (λ w. map (λ p. p.0) c.finished ++ w) e
    ∙ sym (append_assoc (map (λ p. p.0) c.finished) (m ∷ []) ms)
    ∙ ap (λ l. l ++ ms) (sym (map-append (λ (p : Message × Fate). p.0) c.finished ((m, f) ∷ [])))

pub Acts-InOrder : {c d : Channel} → Acts c d → InOrder c → InOrder d
Acts-InOrder none_left h = h
Acts-InOrder (act r a) h = Act-InOrder a (Acts-InOrder r h)

-- Being done with several at once.
pub finish_all :
    (c : Channel) (ms rest : List Message)
    → c.waiting ≡ ms ++ rest
    → Acts c (record c { waiting = rest; finished = c.finished ++ all_cleared ms })
finish_all c [] rest e =
    subst (λ d. Acts c d)
      (λ i. record c { waiting = e i; finished = sym (append-nil c.finished) i }) none_left
finish_all c (m ∷ ms) rest e =
    let d : Channel = record c {
      waiting = ms ++ rest;
      finished = c.finished ++ (m, cleared) ∷ [];
    } in
    let together : (c.finished ++ (m, cleared) ∷ []) ++ all_cleared ms
        ≡ c.finished ++ all_cleared (m ∷ ms) =
      append_assoc c.finished ((m, cleared) ∷ []) (all_cleared ms) in
    Acts-trans (one (finish m cleared (ms ++ rest) e)) (
      subst (λ fs. Acts d (record c { waiting = rest; finished = fs })) together
        (finish_all d ms rest refl))
