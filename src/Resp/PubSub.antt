-- ===== src/Resp/PubSub.antt =====
-- internal/server/resp/pubsub.go and handlers_pubsub.go: the tables of subscriptions, and what PUBLISH
-- delivers. A connection is named by a text, for its pointer; `subCh` is the queue of its messages.
pub mod Delivery
pub mod Commands
use cache_pot.Prelude.{
  ℕ, zero, suc, ◌+◌, Bool, true, false, not, ◌&&◌, Option, none, some, List, [], ◌∷◌, ◌++◌, Bytes,
  codes, is_empty, is_some, ltb, length, if◌then◌else◌, ℤ, pos, drop,
}
use cache_pot.GoMap.{GoMap, lookup, has, put, remove, size, keys}
use cache_pot.Vector.{or_empty}
use cache_pot.Memory.Store.{put_at}
use cache_pot.Resp.Patterns.{glob_match}
use cache_pot.Resp.Wire.{
  WireReply, WireReplies, int_reply, bulk, null_bulk, items, no_items, item_then,
}
use cache_pot.Resp.Handlers.{arg, int_of}

-- Message; the pattern is empty for a channel's own subscribers
pub record Message : Type 0 where
  pub channel : Bytes
  pub pattern : Bytes
  pub payload : Bytes

-- The subscribers of each channel or pattern.
abbrev pub Table : Type 0
Table = GoMap (GoMap (Unit {0}))

-- PubSub, and of every connection the fields Subscriptions, PSubscriptions and subCh: none where
-- the channel is not made.
pub record Subscriber : Type 0 where
  pub subscriptions : GoMap (Unit {0})
  pub psubscriptions : GoMap (Unit {0})
  pub queue : List Message

pub record PubSub : Type 0 where
  pub channels : Table
  pub patterns : Table
  pub subscribers : GoMap Subscriber

-- Subscribe and SubscribePattern, on one table
unfoldable pub subscribe_in : Bytes → Bytes → Table → Table
subscribe_in cs channel table = put_at channel cs tt table

-- Unsubscribe and UnsubscribePattern, on one table: a channel with no subscriber is deleted
unfoldable pub unsubscribe_in : Bytes → Bytes → Table → Table
unsubscribe_in cs channel table = elim (lookup channel table) [
  | none ↦ table
  | some subs ↦
      let left = remove cs subs in
      if is_empty left then remove channel table else put channel left table
]

-- UnsubscribeAll, on one table
unfoldable pub unsubscribe_all_in : Bytes → Table → Table
unsubscribe_all_in cs [] = []
unsubscribe_all_in cs ((channel, subs) ∷ table) =
    let rest = unsubscribe_all_in cs table in
    let left = remove cs subs in if is_empty left then rest else (channel, left) ∷ rest

-- UnsubscribeAll
unfoldable pub unsubscribe_all : Bytes → PubSub → PubSub
unfolding unsubscribe_all_in
unsubscribe_all cs p = record p {
  channels = unsubscribe_all_in cs p.channels;
  patterns = unsubscribe_all_in cs p.patterns;
}

-- delivery: the connection and the pattern
abbrev pub Target : Type 0
Target = Bytes × Bytes

abbrev pub targets_for : Bytes → List Bytes → List Target
targets_for pattern [] = []
targets_for pattern (cs ∷ l) = (cs, pattern) ∷ targets_for pattern l

-- The second loop of Publish
unfoldable pub pattern_targets : Bytes → Table → List Target
pattern_targets channel [] = []
pattern_targets channel ((pattern, subs) ∷ table) =
    let rest = pattern_targets channel table in
    if glob_match pattern channel then targets_for pattern (keys subs) ++ rest else rest

-- The targets that Publish collects under the lock
unfoldable pub targets : Bytes → PubSub → List Target
unfolding pattern_targets
targets channel p =
    targets_for [] (keys (or_empty (lookup channel p.channels)))
    ++ pattern_targets channel p.patterns

abbrev pub queue_bound : ℕ
queue_bound = 64

abbrev pub message : Bytes → Bytes → Bytes → Message
message channel pattern payload = record { channel = channel; pattern = pattern; payload = payload }

-- `subCh <- msg`
abbrev pub enqueue : Message → Subscriber → Subscriber
enqueue m s = record s { queue = s.queue ++ m ∷ [] }

-- The body of the last loop of Publish: no channel and a full one drop the message.
unfoldable pub deliver : Bytes → Bytes → Target → GoMap Subscriber → Bool × GoMap Subscriber
deliver channel payload (cs, pattern) subs = elim (lookup cs subs) [
  | none ↦ (false, subs)
  | some s ↦
      if ltb (length s.queue) queue_bound
      then (true, put cs (enqueue (message channel pattern payload) s) subs)
      else (false, subs)
]

unfoldable pub deliver_loop :
    Bytes → Bytes → List Target → ℕ → GoMap Subscriber → ℕ × GoMap Subscriber
unfolding deliver
deliver_loop channel payload [] delivered subs = (delivered, subs)
deliver_loop channel payload (t ∷ l) delivered subs =
    let (sent, subs1) = deliver channel payload t subs in
    deliver_loop channel payload l (if sent then delivered + 1 else delivered) subs1

-- Publish
unfoldable pub publish : Bytes → Bytes → PubSub → ℕ × PubSub
unfolding deliver_loop targets
publish channel payload p =
    let (n, subs) = deliver_loop channel payload (targets channel p) 0 p.subscribers in
    (n, record p { subscribers = subs })
