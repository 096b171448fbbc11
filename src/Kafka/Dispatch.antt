-- ===== src/Kafka/Dispatch.antt =====
-- internal/broker/kafka.go: `partitionProcessor`, as the steps of its goroutines. `run` takes the
-- messages of the claim and sends each to the channel of its key; the workers of a channel take
-- from it and handle what they take. Once the context is cancelled, `keyChannelManager` closes all
-- channels and empties the map, once; a message that `run` still takes then makes a second channel
-- for its key, with workers of its own. So a channel is its key and whether it is such a late one.
-- `received`, `sent`, `started`, `finished`, `returns`, `marks` and `commits` record what has
-- happened so far. A worker that has left is one that takes no more.
use howk.Prelude.{
  ℕ, zero, suc, ◌<◌, ◌≡◌, Bool, true, false, not, ◌&&◌, List, [], ◌∷◌, ◌++◌, Option, none, some,
  if◌then◌else◌, length,
}
use howk.Prelude.Int.{ℤ, pos, negsuc, pos_part, max_int64}
use howk.Prelude.Text.{Bytes, codes, bytes_eq}
use howk.Kafka.{OffsetTracker, new_offset_tracker, receive, process_message}

pub record Message : Type 0 where
  pub key : Bytes
  pub value : Bytes
  pub offset : ℤ

-- How far a worker is with its message: in the handler, past a handler that returned nil, or past
-- `MarkCompleted`, with what there is for `MarkOffset`.
pub data Phase : Type 0 where
  handling : Phase
  handled : Phase
  marked : ℤ → Phase

pub record Task : Type 0 where
  pub message : Message
  pub phase : Phase

-- A channel and its workers: what waits in it, and what they are busy with.
pub record Lane : Type 0 where
  pub queue : List Message
  pub busy : List Task
  pub started : List Message
  pub finished : List Message

-- Where `run` is: at the head of its loop, with a message, with a message and its channel (late or
-- not), returned (with a message that it did not send, perhaps), or in a panic.
pub data Run : Type 0 where
  receiving : Run
  taken : Message → Run
  sending : Message → Bool → Run
  returned : List Message → Run
  panicked : Message → Run

pub record Processor : Type 0 where
  pub lanes : Bool → Bytes → Lane
  pub run : Run
  pub tracker : OffsetTracker
  pub cancelled : Bool
  pub closed : Bool
  pub received : List Message
  pub sent : Bool → List Message
  pub returns : List (ℤ × Bool)
  pub marks : List (ℤ × Bool)
  pub commits : List ℤ

abbrev pub channel_buffer : ℕ
channel_buffer = 100

-- Messages without a key share one channel.
unfoldable pub channel_key : Bytes → Bytes
channel_key [] = codes "__no_key__"
channel_key (c ∷ s) = c ∷ s

-- How many workers `getOrCreateKeyChannel` starts for a channel.
unfoldable pub workers : ℤ → ℕ
workers (pos zero) = 1
workers (pos (suc n)) = suc n
workers (negsuc n) = 1

abbrev empty_lane : Lane
empty_lane = record { queue = []; busy = []; started = []; finished = [] }

-- `ConsumeClaim` up to the call of `run`.
unfoldable pub new_processor : ℤ → Processor
unfolding new_offset_tracker
new_processor initial = record {
  lanes = λ late k. empty_lane;
  run = receiving;
  tracker = new_offset_tracker initial;
  cancelled = false;
  closed = false;
  received = [];
  sent = λ late. [];
  returns = [];
  marks = [];
  commits = [];
}

abbrev pub same_channel : Bool → Bytes → Bool → Bytes → Bool
same_channel g k h j = (if g then h else not h) && bytes_eq k j

abbrev pub set_lane : (Bool → Bytes → Lane) → Bool → Bytes → Lane → Bool → Bytes → Lane
set_lane lanes g k l h j = if same_channel g k h j then l else lanes h j

-- The next message of the claim.
unfoldable pub take_message : Message → Processor → Processor
take_message m p = record p {
  run = taken m;
  tracker = receive p.tracker m.offset;
  received = p.received ++ m ∷ [];
}

-- `getOrCreateKeyChannel`: the channel in the map, which is a late one after the map was emptied.
unfoldable pub find_channel : Message → Processor → Processor
find_channel m p = record p { run = sending m p.closed }

abbrev pub sent_on : (Bool → List Message) → Bool → Message → Bool → List Message
sent_on sent late m g = if (if late then g else not g) then sent g ++ m ∷ [] else sent g

-- `ch <- km`.
unfoldable pub send_message : Message → Bool → Processor → Processor
unfolding channel_key
send_message m late p =
    let k = channel_key m.key in
    let l = p.lanes late k in
    record p {
      run = receiving;
      lanes = set_lane p.lanes late k (record l { queue = l.queue ++ m ∷ [] });
      sent = sent_on p.sent late m;
    }

-- A worker takes the first message from its channel; `rest` stays there.
unfoldable pub start_message : Bool → Bytes → Message → List Message → Processor → Processor
start_message late k m rest p =
    let l = p.lanes late k in
    record p {
      lanes = set_lane p.lanes late k (record l {
        queue = rest;
        busy = l.busy ++ record { message = m; phase = handling } ∷ [];
        started = l.started ++ m ∷ [];
      });
    }

-- The tasks of a channel.
abbrev pub set_busy : Bool → Bytes → List Task → Processor → Processor
set_busy late k ts p = record p {
  lanes = set_lane p.lanes late k (record (p.lanes late k) { busy = ts });
}

-- A worker is back at its channel; the others are at `others`.
abbrev pub set_finished : Bool → Bytes → Message → List Task → Processor → Processor
set_finished late k m others p =
    let l = p.lanes late k in
    record p {
      lanes = set_lane p.lanes late k (record l { busy = others; finished = l.finished ++ m ∷ [] });
    }

-- A handler returns an error, and the worker goes back to its channel.
unfoldable pub fail_message : Bool → Bytes → Message → List Task → Processor → Processor
fail_message late k m others p =
    set_finished late k m others (record p { returns = (m.offset, false) ∷ p.returns })

-- A handler returns nil.
unfoldable pub succeed_message :
    Bool → Bytes → Message → List Task → List Task → Processor → Processor
succeed_message late k m before after p =
    set_busy late k (before ++ record { message = m; phase = handled } ∷ after)
      (record p { returns = (m.offset, true) ∷ p.returns })

-- What the worker does next with the result of `MarkCompleted`.
abbrev pub after_mark :
    Bool → Bytes → Message → List Task → List Task → Option ℤ → Processor → Processor
after_mark late k m before after none p = set_finished late k m (before ++ after) p
after_mark late k m before after (some c) p =
    set_busy late k (before ++ record { message = m; phase = marked c } ∷ after) p

-- `MarkCompleted`.
unfoldable pub mark_message : Bool → Bytes → Message → List Task → List Task → Processor → Processor
mark_message late k m before after p =
    let (o, t) = process_message p.tracker m.offset true in
    after_mark late k m before after o
      (record p { tracker = t; marks = (m.offset, true) ∷ p.marks })

-- `MarkOffset`.
unfoldable pub commit_message : Bool → Bytes → Message → ℤ → List Task → Processor → Processor
commit_message late k m c others p =
    set_finished late k m others (record p { commits = c ∷ p.commits })

-- The steps with that `perKeyParallelism`. Kafka gives no message the largest `int64` as its
-- offset. A send on a closed channel panics; when the context is cancelled too, `select` may take
-- either way. A closed channel still gives what waits in it.
pub data Step (parallelism : ℤ) (p : Processor) : Processor → Type 0 where
  takes :
      (m : Message)
      → p.run ≡ receiving
      → pos_part m.offset < max_int64
      → Step parallelism p (take_message m p)
  finds : (m : Message) → p.run ≡ taken m → Step parallelism p (find_channel m p)
  sends :
      (m : Message) (late : Bool)
      → p.run ≡ sending m late
      → (p.closed && not late) ≡ false
      → length (p.lanes late (channel_key m.key)).queue < channel_buffer
      → Step parallelism p (send_message m late p)
  panics :
      (m : Message)
      → p.run ≡ sending m false
      → p.closed ≡ true
      → Step parallelism p (record p { run = panicked m })
  gives_up :
      (m : Message) (late : Bool)
      → p.run ≡ sending m late
      → p.cancelled ≡ true
      → Step parallelism p (record p { run = returned (m ∷ []) })
  ends : p.run ≡ receiving → Step parallelism p (record p { run = returned []; cancelled = true })
  cancels : Step parallelism p (record p { cancelled = true })
  closes : p.cancelled ≡ true → p.closed ≡ false → Step parallelism p (record p { closed = true })
  starts :
      (late : Bool) (k : Bytes) (m : Message) (rest : List Message)
      → (p.lanes late k).queue ≡ m ∷ rest
      → length (p.lanes late k).busy < workers parallelism
      → Step parallelism p (start_message late k m rest p)
  fails :
      (late : Bool) (k : Bytes) (m : Message) (before after : List Task)
      → (p.lanes late k).busy ≡ before ++ record { message = m; phase = handling } ∷ after
      → Step parallelism p (fail_message late k m (before ++ after) p)
  succeeds :
      (late : Bool) (k : Bytes) (m : Message) (before after : List Task)
      → (p.lanes late k).busy ≡ before ++ record { message = m; phase = handling } ∷ after
      → Step parallelism p (succeed_message late k m before after p)
  completes :
      (late : Bool) (k : Bytes) (m : Message) (before after : List Task)
      → (p.lanes late k).busy ≡ before ++ record { message = m; phase = handled } ∷ after
      → Step parallelism p (mark_message late k m before after p)
  marks_offset :
      (late : Bool) (k : Bytes) (m : Message) (c : ℤ) (before after : List Task)
      → (p.lanes late k).busy ≡ before ++ record { message = m; phase = marked c } ∷ after
      → Step parallelism p (commit_message late k m c (before ++ after) p)

-- A panic ends the process.
abbrev pub IsAlive : Run → Type 0
IsAlive receiving = Unit {0}
IsAlive (taken m) = Unit {0}
IsAlive (sending m late) = Unit {0}
IsAlive (returned ms) = Unit {0}
IsAlive (panicked m) = ⊥

pub data Reach (parallelism initial : ℤ) : Processor → Type 0 where
  begun : Reach parallelism initial (new_processor initial)
  later :
      {p q : Processor}
      → Reach parallelism initial p
      → IsAlive p.run
      → Step parallelism p q
      → Reach parallelism initial q
