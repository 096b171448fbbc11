-- ===== src/DevMode/Tests.antt =====
-- internal/devmode/broker.go: a replay that begins between two messages.
use howk.Prelude.{[], ◌∷◌, List, arith, All}
use howk.Prelude.Text.{codes}
use howk.Script.{Message}
use howk.DevMode.{Event, publishes, subscribes, replays, reads, run, new_topic}
use howk.DevMode.Complete.{IsComplete, readers_miss_nothing}

abbrev note : Message
note = record { key = codes "k"; value = codes "v"; headers = [] }

abbrev events : List Event
events = publishes note ∷ replays ∷ publishes note ∷ reads 0 ∷ subscribes ∷ []

readers_miss_nothing_example :
    All (IsComplete (run events new_topic).history 0) (run events new_topic).readers
readers_miss_nothing_example = readers_miss_nothing events (omega arith)
