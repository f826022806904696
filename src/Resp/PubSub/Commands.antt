-- ===== src/Resp/PubSub/Commands.antt =====
-- internal/server/resp/handlers_pubsub.go: what each command changes and what it writes, one reply after
-- another.
use cache_pot.Prelude.{ℕ, ◌+◌, Option, none, some, List, [], ◌∷◌, Bytes, codes, drop}
use cache_pot.GoMap.{GoMap, lookup, put, remove, size, keys}
use cache_pot.Resp.Wire.{WireReply, bulk, null_bulk, items, no_items, item_then}
use cache_pot.Resp.Handlers.{arg, int_of}
use cache_pot.Resp.PubSub.{
  Subscriber, PubSub, subscribe_in, unsubscribe_in, unsubscribe_all, publish,
}

abbrev pub new_subscriber : Subscriber
new_subscriber = record { subscriptions = []; psubscriptions = []; queue = [] }

abbrev pub or_new_subscriber : Option Subscriber → Subscriber
or_new_subscriber none = new_subscriber
or_new_subscriber (some s) = s

-- ensureSubscriberState
unfoldable pub ensure_subscriber_state : Bytes → PubSub → PubSub
ensure_subscriber_state cs p = record p {
  subscribers = put cs (or_new_subscriber (lookup cs p.subscribers)) p.subscribers;
}

-- len(cs.Subscriptions) + len(cs.PSubscriptions)
abbrev pub count_of : Subscriber → ℕ
count_of s = size s.subscriptions + size s.psubscriptions

-- One line of the answer: what was done, to which channel, and the count.
abbrev pub notice : Bytes → WireReply → ℕ → WireReply
notice what channel n =
    items (item_then (bulk what) (item_then channel (item_then (int_of n) no_items)))

-- The round of handleSubscribe on one channel.
unfoldable pub subscribe_one : Bytes → Bytes → PubSub → WireReply × PubSub
subscribe_one cs channel p =
    let s = or_new_subscriber (lookup cs p.subscribers) in
    let s1 : Subscriber = record s { subscriptions = put channel tt s.subscriptions } in
    (
      notice (codes "subscribe") (bulk channel) (count_of s1),
      record p {
        channels = subscribe_in cs channel p.channels;
        subscribers = put cs s1 p.subscribers;
      },
    )

-- The round of handlePSubscribe on one pattern.
unfoldable pub psubscribe_one : Bytes → Bytes → PubSub → WireReply × PubSub
psubscribe_one cs pattern p =
    let s = or_new_subscriber (lookup cs p.subscribers) in
    let s1 : Subscriber = record s { psubscriptions = put pattern tt s.psubscriptions } in
    (
      notice (codes "psubscribe") (bulk pattern) (count_of s1),
      record p {
        patterns = subscribe_in cs pattern p.patterns;
        subscribers = put cs s1 p.subscribers;
      },
    )

-- The round of handleUnsubscribe on one channel: a connection that never subscribed has no state.
unfoldable pub unsubscribe_one : Bytes → Bytes → PubSub → WireReply × PubSub
unsubscribe_one cs channel p = elim (lookup cs p.subscribers) [
  | none ↦ (notice (codes "unsubscribe") (bulk channel) 0, p)
  | some s ↦
      let s1 : Subscriber = record s { subscriptions = remove channel s.subscriptions } in
      (
        notice (codes "unsubscribe") (bulk channel) (count_of s1),
        record p {
          channels = unsubscribe_in cs channel p.channels;
          subscribers = put cs s1 p.subscribers;
        },
      )
]

-- The round of handlePUnsubscribe on one pattern.
unfoldable pub punsubscribe_one : Bytes → Bytes → PubSub → WireReply × PubSub
punsubscribe_one cs pattern p = elim (lookup cs p.subscribers) [
  | none ↦ (notice (codes "punsubscribe") (bulk pattern) 0, p)
  | some s ↦
      let s1 : Subscriber = record s { psubscriptions = remove pattern s.psubscriptions } in
      (
        notice (codes "punsubscribe") (bulk pattern) (count_of s1),
        record p {
          patterns = unsubscribe_in cs pattern p.patterns;
          subscribers = put cs s1 p.subscribers;
        },
      )
]

-- The loop of the four handlers.
unfoldable pub rounds :
    (Bytes → PubSub → WireReply × PubSub) → List Bytes → PubSub → List WireReply × PubSub
rounds round [] p = ([], p)
rounds round (channel ∷ l) p =
    let (r, p1) = round channel p in let (rs, q) = rounds round l p1 in (r ∷ rs, q)

-- handleSubscribe and handlePSubscribe
unfoldable pub handle_subscribe : Bytes → List Bytes → PubSub → List WireReply × PubSub
unfolding ensure_subscriber_state rounds subscribe_one
handle_subscribe cs args p = rounds (subscribe_one cs) (drop 1 args) (ensure_subscriber_state cs p)

unfoldable pub handle_psubscribe : Bytes → List Bytes → PubSub → List WireReply × PubSub
unfolding ensure_subscriber_state rounds psubscribe_one
handle_psubscribe cs args p =
    rounds (psubscribe_one cs) (drop 1 args) (ensure_subscriber_state cs p)

-- The named channels, or else all that the connection has; with none of them, one answer with the count.
abbrev pub unsubscribe_from :
    Bytes
    → (Bytes → PubSub → WireReply × PubSub)
    → List Bytes
    → ℕ
    → PubSub
    → List WireReply × PubSub
unsubscribe_from what round [] n p = (notice what null_bulk n ∷ [], p)
unsubscribe_from what round (channel ∷ l) n p = rounds round (channel ∷ l) p

abbrev pub or_all : List Bytes → GoMap (Unit {0}) → List Bytes
or_all [] m = keys m
or_all (channel ∷ l) m = channel ∷ l

-- handleUnsubscribe
unfoldable pub handle_unsubscribe : Bytes → List Bytes → PubSub → List WireReply × PubSub
unfolding rounds unsubscribe_one
handle_unsubscribe cs args p =
    let s = or_new_subscriber (lookup cs p.subscribers) in
    unsubscribe_from (codes "unsubscribe") (unsubscribe_one cs)
      (or_all (drop 1 args) s.subscriptions) (count_of s) p

-- handlePUnsubscribe
unfoldable pub handle_punsubscribe : Bytes → List Bytes → PubSub → List WireReply × PubSub
unfolding rounds punsubscribe_one
handle_punsubscribe cs args p =
    let s = or_new_subscriber (lookup cs p.subscribers) in
    unsubscribe_from (codes "punsubscribe") (punsubscribe_one cs)
      (or_all (drop 1 args) s.psubscriptions) (count_of s) p

-- handlePublish
unfoldable pub handle_publish : List Bytes → PubSub → WireReply × PubSub
unfolding publish
handle_publish args p = let (n, q) = publish (arg args 1) (arg args 2) p in (int_of n, q)

-- cleanupSubscriptions, at the end of a connection
unfoldable pub cleanup_subscriptions : Bytes → PubSub → PubSub
unfolding unsubscribe_all
cleanup_subscriptions cs p = elim (lookup cs p.subscribers) [
  | none ↦ p
  | some s ↦ let q = unsubscribe_all cs p in record q { subscribers = remove cs q.subscribers }
]
