-- ===== src/Kafka/PerKey.antt =====
-- internal/broker/kafka.go: the messages of a partition, from the claim to the workers of their keys.
use howk.Prelude.{◌≡◌, Bool, true, false, List, [], ◌∷◌, ◌++◌}
use howk.Kafka.Dispatch.{Message, Run, receiving, taken, sending, returned, panicked, Processor}

-- The message that `run` has taken and not sent.
abbrev pub unsent : Run → List Message
unsent receiving = []
unsent (taken m) = m ∷ []
unsent (sending m late) = m ∷ []
unsent (returned ms) = ms
unsent (panicked m) = m ∷ []

-- Whether `run` is about to send to a late channel.
abbrev pub is_late : Run → Bool
is_late receiving = false
is_late (taken m) = false
is_late (sending m late) = late
is_late (returned ms) = false
is_late (panicked m) = false

-- The messages were sent in the order of the claim, those to the late channels last; and nothing
-- goes to a late channel before the others are closed.
pub record InTurn (p : Processor) : Type 0 where
  pub in_turn : p.received ≡ (p.sent false ++ p.sent true) ++ unsent p.run
  pub none_late : p.closed ≡ false → p.sent true ≡ []
  pub closed_first : is_late p.run ≡ true → p.closed ≡ true
