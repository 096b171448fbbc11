-- ===== src/DevMode.antt =====
-- internal/devmode/broker.go: the broker in memory, one topic at a time (topics share nothing but the flag
-- that `Close` sets). `read` is what a reader has handed to its handler, whose errors are only
-- logged; `skipped` is what a subscriber came too late for.
pub mod Complete
mod Tests
use howk.Prelude.{
  ℕ, zero, suc, Bool, true, false, List, [], ◌∷◌, ◌++◌, Option, none, some, ltb, if◌then◌else◌,
  length, map,
}
use howk.Prelude.Text.{Bytes}
use howk.Script.{Message}

abbrev pub channel_buffer : ℕ
channel_buffer = 1000

abbrev pub history_limit : ℕ
history_limit = 10000

-- A call of `Subscribe` or `Replay`: what is left of its snapshot, and its channel.
pub record Reader : Type 0 where
  pub skipped : List Message
  pub snapshot : List Message
  pub channel : List Message
  pub read : List Message

pub record Topic : Type 0 where
  pub readers : List Reader
  pub history : List Message
  pub closed : Bool

abbrev pub new_topic : Topic
new_topic = record { readers = []; history = []; closed = false }

-- A full channel drops the message.
unfoldable pub offer : Message → Reader → Reader
offer m r =
    if ltb (length r.channel) channel_buffer then record r { channel = r.channel ++ m ∷ [] } else r

abbrev pub offer_all : Message → List Reader → List Reader
offer_all m [] = []
offer_all m (r ∷ rs) = offer m r ∷ offer_all m rs

-- A message that comes when the history is full is not kept in it.
abbrev pub published : Message → Topic → Topic
published m t = record t {
  history = if ltb (length t.history) history_limit then t.history ++ m ∷ [] else t.history;
  readers = offer_all m t.readers;
}

-- `Publish` of one message, and whether it succeeds.
unfoldable pub publish : Message → Topic → Bool × Topic
unfolding offer
publish m t = if t.closed then (false, t) else (true, published m t)

unfoldable pub publish_all : List Message → Topic → Bool × Topic
unfolding publish
publish_all [] t = (true, t)
publish_all (m ∷ ms) t = if t.closed then (false, t) else publish_all ms (publish m t).1

-- The start of `Subscribe`.
unfoldable pub subscribe : Topic → Topic
subscribe t = record t {
  readers = record { skipped = t.history; snapshot = []; channel = []; read = [] } ∷ t.readers;
}

abbrev pub replayed : Topic → Topic
replayed t = record t {
  readers = record { skipped = []; snapshot = t.history; channel = []; read = [] } ∷ t.readers;
}

-- The start of `Replay`: the snapshot and the channel are made under one lock.
unfoldable pub replay : Topic → Bool × Topic
replay t = if t.closed then (false, t) else (true, replayed t)

abbrev pub read_from : List Message → List Message → Reader → Reader
read_from (m ∷ ms) c r = record r { snapshot = ms; channel = c; read = r.read ++ m ∷ [] }
read_from [] (m ∷ ms) r = record r { snapshot = []; channel = ms; read = r.read ++ m ∷ [] }
read_from [] [] r = record r { snapshot = []; channel = [] }

-- A reader handles its next message, of the snapshot first.
unfoldable pub read_one : Reader → Reader
read_one r = read_from r.snapshot r.channel r

unfoldable pub read_at : ℕ → List Reader → List Reader
unfolding read_one
read_at n [] = []
read_at zero (r ∷ rs) = read_one r ∷ rs
read_at (suc n) (r ∷ rs) = r ∷ read_at n rs

pub data Event : Type 0 where
  publishes : Message → Event
  subscribes replays closes : Event
  reads : ℕ → Event

unfoldable pub step : Event → Topic → Topic
unfolding publish subscribe replay read_at
step (publishes m) t = (publish m t).1
step subscribes t = subscribe t
step replays t = (replay t).1
step closes t = record t { closed = true }
step (reads n) t = record t { readers = read_at n t.readers }

-- Any interleaving of publishers and readers.
unfoldable pub run : List Event → Topic → Topic
unfolding step
run [] t = t
run (e ∷ es) t = run es (step e t)
