-- ===== src/Resp/PubSub/Delivery.antt =====
-- Who gets a message that internal/server/resp/pubsub.go publishes.
use mathlib.Core.Path.{subst}
use cache_pot.Prelude.{
  ap, sym, ◌∙◌, ◌≡◌, refl, arith, ℕ, suc, Bool, true, false, not, ◌&&◌, inl, inr, Option, none,
  some, List, [], ◌∷◌, ◌++◌, Bytes, beq, beq_iff, beq_refl, Bool-cases, Option-cases, length, ltb,
}
use cache_pot.GoMap.{GoMap, lookup, has, put, remove, keys, member}
use cache_pot.GoMap.Laws.{lookup-put, lookup-remove, member-keys}
use cache_pot.Vector.{or_empty}
use cache_pot.Sorting.Laws.{At-append, At-end, At}
use cache_pot.Resp.PubSub.{
  Message, message, enqueue, Table, Subscriber, PubSub, unsubscribe_all_in, unsubscribe_all, Target,
  targets_for, pattern_targets, targets, queue_bound, deliver, deliver_loop, publish,
}

-- No target is the connection.
abbrev avoids : Bytes → List Target → Bool
avoids cs [] = true
avoids cs (t ∷ l) = not (beq t.0 cs) && avoids cs l

avoids-append :
    (cs : Bytes) (l k : List Target)
    → avoids cs l ≡ true
    → avoids cs k ≡ true
    → avoids cs (l ++ k) ≡ true
avoids-append cs [] k h g = g
avoids-append cs (t ∷ l) k h g = ground (arith, h, g, avoids-append cs l k)

avoids-targets_for :
    (cs pattern : Bytes) (l : List Bytes)
    → member cs l ≡ false
    → avoids cs (targets_for pattern l) ≡ true
unfolding member
avoids-targets_for cs pattern [] h = refl
avoids-targets_for cs pattern (k ∷ l) h = ground (arith, h, avoids-targets_for cs pattern l)

-- After UnsubscribeAll a table names the connection nowhere.
gone-lookup :
    (cs channel : Bytes) (table : Table)
    → has cs (or_empty (lookup channel (unsubscribe_all_in cs table))) ≡ false
unfolding unsubscribe_all_in lookup
gone-lookup cs channel [] = refl
gone-lookup cs channel ((k, subs) ∷ table) =
    ground (arith, gone-lookup cs channel table, lookup-remove cs cs subs, beq_refl cs)

avoids-pattern_targets :
    (cs channel : Bytes) (table : Table)
    → avoids cs (pattern_targets channel (unsubscribe_all_in cs table)) ≡ true
unfolding unsubscribe_all_in pattern_targets
avoids-pattern_targets cs channel [] = refl
avoids-pattern_targets cs channel ((k, subs) ∷ table) = ground (
  arith,
  avoids-pattern_targets cs channel table,
  avoids-append cs (targets_for k (keys (remove cs subs)))
      (pattern_targets channel (unsubscribe_all_in cs table))
      (avoids-targets_for cs k (keys (remove cs subs))
        (member-keys cs (remove cs subs) ∙ ground (arith, lookup-remove cs cs subs, beq_refl cs))),
)

lookup-deliver :
    (cs channel payload : Bytes) (t : Target) (subs : GoMap Subscriber)
    → beq t.0 cs ≡ false
    → lookup cs (deliver channel payload t subs).1 ≡ lookup cs subs
unfolding deliver
lookup-deliver cs channel payload (k, pattern) subs h = elim (Option-cases (lookup k subs)) [
  | inl closed ↦ ground (arith, closed)
  | inr (s, found) ↦
      ground (arith, found, h, lookup-put k cs (enqueue (message channel pattern payload) s) subs)
]

lookup-deliver_loop :
    (cs channel payload : Bytes) (l : List Target) (n : ℕ) (subs : GoMap Subscriber)
    → avoids cs l ≡ true
    → lookup cs (deliver_loop channel payload l n subs).1 ≡ lookup cs subs
unfolding deliver_loop
lookup-deliver_loop cs channel payload [] n subs h = refl
lookup-deliver_loop cs channel payload (t ∷ l) n subs h =
    lookup-deliver_loop cs channel payload l _ (deliver channel payload t subs).1
      (ground (arith, h))
    ∙ lookup-deliver cs channel payload t subs (ground (arith, h))

-- After UnsubscribeAll of a connection no PUBLISH, of any channel, reaches it: what it has in its queue stays
-- as it is.
pub publish-unsubscribe_all :
    (cs channel payload : Bytes) (p : PubSub)
    → lookup cs (publish channel payload (unsubscribe_all cs p)).1.subscribers
      ≡ lookup cs p.subscribers
unfolding publish targets unsubscribe_all
publish-unsubscribe_all cs channel payload p =
    let subs = or_empty (lookup channel (unsubscribe_all_in cs p.channels)) in
    lookup-deliver_loop cs channel payload (targets channel (unsubscribe_all cs p)) 0 p.subscribers
      (avoids-append cs (targets_for [] (keys subs)) _
        (avoids-targets_for cs [] (keys subs)
          (member-keys cs subs ∙ gone-lookup cs channel p.channels))
        (avoids-pattern_targets cs channel p.patterns))

-- A connection's queue has a message in it.
abbrev pub Holds : Message → Option Subscriber → Type 0
Holds m none = 0 ≡ suc 0
Holds m (some s) = At s.queue m

lookup-put_same :
    (cs k : Bytes) (s : Subscriber) (subs : GoMap Subscriber)
    → beq k cs ≡ true
    → lookup cs (put k s subs) ≡ some s
lookup-put_same cs k s subs same = lookup-put k cs s subs ∙ ground (arith, same)

Holds-put :
    (cs k : Bytes) (s : Subscriber) (x m : Message) (subs : GoMap Subscriber)
    → lookup k subs ≡ some s
    → Holds m (lookup cs subs)
    → Holds m (lookup cs (put k (enqueue x s) subs))
Holds-put cs k s x m subs found h = elim (Bool-cases (beq k cs)) [
  | inl same ↦
      let there : lookup cs subs ≡ some s =
        ap (λ i. lookup i subs) (sym ((beq_iff k cs).0 same)) ∙ found in
      let queued : At s.queue m = subst (Holds m) there h in
      subst (Holds m) (sym (lookup-put_same cs k (enqueue x s) subs same))
        (At-append s.queue m x queued)
  | inr other ↦ subst (Holds m) (sym (lookup-put k cs (enqueue x s) subs ∙ ground (arith, other))) h
]

Holds-deliver :
    (cs channel payload : Bytes) (m : Message) (t : Target) (subs : GoMap Subscriber)
    → Holds m (lookup cs subs)
    → Holds m (lookup cs (deliver channel payload t subs).1)
unfolding deliver
Holds-deliver cs channel payload m (k, pattern) subs h = elim (Option-cases (lookup k subs)) [
  | inl closed ↦ rw (closed, deliver) h
  | inr (s, found) ↦ elim (Bool-cases (ltb (length s.queue) queue_bound)) [
    | inr full ↦ rw (found, deliver, full) h
    | inl room ↦
        rw (found, deliver, room)
          (Holds-put cs k s (message channel pattern payload) m subs found h)
  ]
]

Holds-deliver_loop :
    (cs channel payload : Bytes) (m : Message) (l : List Target) (n : ℕ) (subs : GoMap Subscriber)
    → Holds m (lookup cs subs)
    → Holds m (lookup cs (deliver_loop channel payload l n subs).1)
unfolding deliver_loop
Holds-deliver_loop cs channel payload m [] n subs h = h
Holds-deliver_loop cs channel payload m (t ∷ l) n subs h =
    Holds-deliver_loop cs channel payload m l _ (deliver channel payload t subs).1
      (Holds-deliver cs channel payload m t subs h)

module _ (cs channel payload : Bytes) (s : Subscriber)
    (room : ltb (length s.queue) queue_bound ≡ true) where
  -- The target that is the connection gets the message.
  Holds-delivered :
      (k : Bytes) (subs : GoMap Subscriber)
      → beq k cs ≡ true
      → lookup cs subs ≡ some s
      → Holds (message channel [] payload) (lookup cs (deliver channel payload (k, []) subs).1)
  unfolding deliver
  Holds-delivered k subs same found =
      let there : lookup k subs ≡ some s =
        ap (λ i. lookup i subs) ((beq_iff k cs).0 same) ∙ found in
      rw (there, deliver, room)
        (subst (Holds (message channel [] payload))
          (sym (lookup-put_same cs k (enqueue (message channel [] payload) s) subs same))
          (At-end s.queue (message channel [] payload)))

  Holds-reached :
      (l : List Bytes) (r : List Target) (n : ℕ) (subs : GoMap Subscriber)
      → member cs l ≡ true
      → lookup cs subs ≡ some s
      → Holds
          (message channel [] payload)
          (lookup cs (deliver_loop channel payload (targets_for [] l ++ r) n subs).1)
  unfolding deliver_loop member
  Holds-reached [] r n subs h found = ground arith
  Holds-reached (k ∷ l) r n subs h found = elim (Bool-cases (beq k cs)) [
    | inl same ↦
        Holds-deliver_loop cs channel payload (message channel [] payload) (targets_for [] l ++ r) _
          _ (Holds-delivered k subs same found)
    | inr other ↦
        Holds-reached l r _ (deliver channel payload (k, []) subs).1 (ground (arith, h, other))
          (lookup-deliver cs channel payload (k, []) subs other ∙ found)
  ]

  -- A subscriber of the channel whose queue has room has the message in its queue after PUBLISH.
  pub publish-subscribers :
      (p : PubSub)
      → has cs (or_empty (lookup channel p.channels)) ≡ true
      → lookup cs p.subscribers ≡ some s
      → Holds (message channel [] payload) (lookup cs (publish channel payload p).1.subscribers)
  unfolding publish targets
  publish-subscribers p h found =
      let subs = or_empty (lookup channel p.channels) in
      Holds-reached (keys subs) (pattern_targets channel p.patterns) 0 p.subscribers
        (member-keys cs subs ∙ h) found
