-- ===== src/Resp/Transactions.antt =====
-- The transactions of internal/server/resp: what EXEC answers after WATCH and after an error in the
-- block, and how deep the dispatch calls itself.
use cache_pot.Prelude.{
  drop, ◌||◌, ap, ℕ, suc, Bool, true, false, Option, none, some, List, [], ◌∷◌, ◌≡◌, ◌≢◌, refl, sym,
  ◌∙◌, arith, Bytes, beq, beq_iff, ◌==◌, if◌then◌else◌, Bool-cases, inl, inr,
}
use mathlib.Core.Path.{subst}
use cache_pot.GoMap.{GoMap, lookup, member}
use cache_pot.GoMap.Laws.{lookup-put}
use cache_pot.Resp.Session.{
  Reply, Replies, Client, Command, Server, Handler, multi, exec, discard, watch, unwatch, ordinary,
  Run, null_array, exec_abort, error, unknown_command, reset, to_upper, reply_then, watch_loop,
  handle_watch, all_unmoved, handle_exec, invoke, handle_found, handle_named, handle, run_queue,
}

queued_ordinary : (a b : Bool) → (a || b) ≡ true → a ≡ false → b ≡ true
queued_ordinary a b h k = ground (arith, h, k)

differ : (a b : ℕ) → a ≢ b → (a == b) ≡ false
differ a b h = ground (arith, h)

module _ {W : Type 0} where
  -- The loop of WATCH remembers, for every key that it names, the version that it reads.
  lookup-watch_loop :
      (srv : Server W) (workspace : Bytes) (w : W) (key : Bytes) (key_list : List Bytes)
      (m : GoMap ℕ)
      → lookup key (watch_loop srv workspace w key_list m)
        ≡ (if member key key_list then some (srv.watch_version workspace key w) else lookup key m)
  unfolding watch_loop member
  lookup-watch_loop srv workspace w key [] m = refl
  lookup-watch_loop srv workspace w key (k ∷ rest) m = elim (Bool-cases (beq k key)) [
    | inl same ↦
        lookup-watch_loop srv workspace w key rest _
        ∙ ground (
          arith,
          same,
          (beq_iff k key).0 same,
          lookup-put k key (srv.watch_version workspace k w) m,
        )
    | inr other ↦
        lookup-watch_loop srv workspace w key rest _
        ∙ ground (arith, other, lookup-put k key (srv.watch_version workspace k w) m)
  ]

  -- One key that has moved is enough for EXEC to see it.
  all_unmoved_moved :
      (srv : Server W) (workspace : Bytes) (w : W) (key : Bytes) (ver : ℕ) (m : GoMap ℕ)
      → lookup key m ≡ some ver
      → (srv.watch_version workspace key w == ver) ≡ false
      → all_unmoved srv workspace w m ≡ false
  unfolding all_unmoved lookup
  all_unmoved_moved srv workspace w key ver [] found moved = ground arith
  all_unmoved_moved srv workspace w key ver ((k, v) ∷ m) found moved =
      elim (Bool-cases (beq k key)) [
        | inl same ↦
            ap
              (λ n.
                if srv.watch_version workspace k w == n
                then all_unmoved srv workspace w m
                else false)
              {x = v} {y = ver} (ground (arith, same))
            ∙ ap (λ b. if b then all_unmoved srv workspace w m else false)
                (ap (λ x. srv.watch_version workspace x w == ver) ((beq_iff k key).0 same) ∙ moved)
        | inr other ↦ ground (arith, other, all_unmoved_moved srv workspace w key ver m, moved)
      ]

  -- A connection sent WATCH outside a transaction, and sends EXEC inside one without an error in its queue, in
  -- the same workspace, and with the watched versions exactly as that WATCH left them. Where the version of a
  -- key that the WATCH named is another one by then, EXEC answers the null array, runs nothing and ends the
  -- transaction.
  pub handle_exec-handle_watch :
      (run : Run W) (srv : Server W) (key_list : List Bytes) (key : Bytes) (cs cs' : Client)
      (w w' : W)
      → cs.in_multi ≡ false
      → member key key_list ≡ true
      → cs'.in_multi ≡ true
      → cs'.multi_error ≡ false
      → cs'.workspace ≡ cs.workspace
      → cs'.watched ≡ (handle_watch srv key_list cs w).1.watched
      → srv.watch_version cs.workspace key w' ≢ srv.watch_version cs.workspace key w
      → handle_exec run srv cs' w' ≡ (null_array, reset cs', w')
  unfolding handle_watch handle_exec
  handle_exec-handle_watch run srv key_list key cs cs' w w' outside named inside clean
        same_workspace same_watched moved =
      let seen =
        ap (λ (m : GoMap ℕ). lookup key m) (same_watched ∙ rw outside refl)
        ∙ lookup-watch_loop srv cs.workspace w key key_list cs.watched
        ∙ rw named refl in
      let stale =
        all_unmoved_moved srv cs'.workspace w' key (srv.watch_version cs.workspace key w)
          cs'.watched seen
          (ap (λ x. srv.watch_version x key w' == srv.watch_version cs.workspace key w)
              same_workspace
            ∙ differ _ _ moved) in
      rw (inside, clean, stale) refl

  -- A command that is queued: it is known, and not one that runs at once.
  abbrev pub Queueable : Server W → List Bytes → Type 0
  Queueable srv [] = Unit
  Queueable srv (name ∷ args) =
      (cmd : Command W) × (srv.commands (to_upper name) ≡ some cmd) × (cmd.no_queue ≡ false)

  abbrev pub IsQueue : Server W → List (List Bytes) → Type 0
  IsQueue srv [] = Unit
  IsQueue srv (args ∷ rest) = Queueable srv args × IsQueue srv rest

  abbrev pub is_ordinary : Handler W → Bool
  is_ordinary (ordinary f) = true
  is_ordinary _ = false

  -- No command of RegisterTx can be queued: it is registered with NoQueue.
  abbrev pub QueuesOrdinary : Option (Command W) → Type 0
  QueuesOrdinary none = Unit
  QueuesOrdinary (some cmd) = (cmd.no_queue || is_ordinary cmd.handler) ≡ true

  invoke_ordinary :
      (run run' : Run W) (srv : Server W) (h : Handler W) (args : List Bytes) (cs : Client) (w : W)
      → is_ordinary h ≡ true
      → invoke run srv h args cs w ≡ invoke run' srv h args cs w
  unfolding invoke
  invoke_ordinary run run' srv (ordinary f) args cs w h = refl
  invoke_ordinary run run' srv multi args cs w h = refl
  invoke_ordinary run run' srv discard args cs w h = refl
  invoke_ordinary run run' srv watch args cs w h = absurd (ground (arith, h))
  invoke_ordinary run run' srv unwatch args cs w h = refl
  invoke_ordinary run run' srv exec args cs w h = absurd (ground (arith, h))

  handle_found_cong :
      (run run' : Run W) (srv : Server W) (cmd : Command W) (args : List Bytes) (cs : Client)
      (w : W)
      → invoke run srv cmd.handler args cs w ≡ invoke run' srv cmd.handler args cs w
      → handle_found run srv cmd args cs w ≡ handle_found run' srv cmd args cs w
  unfolding handle_found
  handle_found_cong run run' srv cmd args cs w same = rw same refl

  pub named_known :
      (run : Run W) (srv : Server W) (name : Bytes) (args : List Bytes) (cs : Client) (w : W)
      (cmd : Command W)
      → srv.commands (to_upper name) ≡ some cmd
      → handle_named run srv name args cs w ≡ handle_found run srv cmd args cs w
  unfolding handle_named
  named_known run srv name args cs w cmd h = rw (h, handle_named) refl

  pub named_unknown :
      (run : Run W) (srv : Server W) (name : Bytes) (args : List Bytes) (cs : Client) (w : W)
      → srv.commands (to_upper name) ≡ none
      → handle_named run srv name args cs w ≡ (
        error (unknown_command name (drop 1 args)),
        (if cs.in_multi then record cs { multi_error = true } else cs),
        w,
      )
  unfolding handle_named
  named_unknown run srv name args cs w h = rw (h, handle_named) refl

  -- What the fuel decides is what EXEC runs, so a queued command takes one unit of it.
  handle-Queueable :
      (srv : Server W) (f : ℕ) (args : List Bytes) (cs : Client) (w : W)
      → ((name : Bytes) → QueuesOrdinary (srv.commands name))
      → Queueable srv args
      → handle (suc f) srv args cs w ≡ handle 1 srv args cs w
  unfolding handle handle_named
  handle-Queueable srv f [] cs w registered q = refl
  handle-Queueable srv f (name ∷ args) cs w registered (cmd, found, queued) =
      named_known _ srv name (name ∷ args) cs w cmd found
      ∙ handle_found_cong _ _ srv cmd (name ∷ args) cs w (
          invoke_ordinary _ _ srv cmd.handler (name ∷ args) cs w (
            queued_ordinary cmd.no_queue (is_ordinary cmd.handler)
              (subst (λ o. QueuesOrdinary o) found (registered (to_upper name))) queued))
      ∙ sym (named_known (handle 0 srv) srv name (name ∷ args) cs w cmd found)

  combine : Reply → Replies × Client × W → Replies × Client × W
  combine r (rs, cs, w) = (reply_then r rs, cs, w)

  run_queue_fuel :
      (srv : Server W) (f : ℕ) (q : List (List Bytes)) (cs : Client) (w : W)
      → ((name : Bytes) → QueuesOrdinary (srv.commands name))
      → IsQueue srv q
      → run_queue (handle (suc f) srv) q cs w ≡ run_queue (handle 1 srv) q cs w
  unfolding run_queue combine
  run_queue_fuel srv f [] cs w registered q = refl
  run_queue_fuel srv f (args ∷ rest) cs w registered (first, q) =
      ap (λ (x : Reply × Client × W). combine x.0 (run_queue (handle (suc f) srv) rest x.1 x.2))
        (handle-Queueable srv f args cs w registered first)
      ∙ ap (combine (handle 1 srv args cs w).0) (run_queue_fuel srv f rest _ _ registered q)

  handle_exec_fuel :
      (srv : Server W) (f : ℕ) (cs : Client) (w : W)
      → ((name : Bytes) → QueuesOrdinary (srv.commands name))
      → IsQueue srv cs.queued
      → handle_exec (handle (suc f) srv) srv cs w ≡ handle_exec (handle 1 srv) srv cs w
  unfolding handle_exec
  handle_exec_fuel srv f cs w registered q =
      rw (run_queue_fuel srv f cs.queued (reset cs) w registered q) refl

  invoke_fuel :
      (srv : Server W) (f : ℕ) (h : Handler W) (args : List Bytes) (cs : Client) (w : W)
      → ((name : Bytes) → QueuesOrdinary (srv.commands name))
      → IsQueue srv cs.queued
      → invoke (handle (suc f) srv) srv h args cs w ≡ invoke (handle 1 srv) srv h args cs w
  unfolding invoke
  invoke_fuel srv f exec args cs w registered q = handle_exec_fuel srv f cs w registered q
  invoke_fuel srv f (ordinary g) args cs w registered q = refl
  invoke_fuel srv f multi args cs w registered q = refl
  invoke_fuel srv f discard args cs w registered q = refl
  invoke_fuel srv f watch [] cs w registered q = refl
  invoke_fuel srv f watch (a ∷ args) cs w registered q = refl
  invoke_fuel srv f unwatch args cs w registered q = refl

  handle_named_fuel :
      (srv : Server W) (f : ℕ) (o : Option (Command W)) (name : Bytes) (args : List Bytes)
      (cs : Client) (w : W)
      → srv.commands (to_upper name) ≡ o
      → ((n : Bytes) → QueuesOrdinary (srv.commands n))
      → IsQueue srv cs.queued
      → handle_named (handle (suc f) srv) srv name args cs w
        ≡ handle_named (handle 1 srv) srv name args cs w
  unfolding handle_named
  handle_named_fuel srv f none name args cs w at registered q =
      named_unknown _ srv name args cs w at ∙ sym (named_unknown _ srv name args cs w at)
  handle_named_fuel srv f (some cmd) name args cs w at registered q =
      named_known _ srv name args cs w cmd at
      ∙ handle_found_cong _ _ srv cmd args cs w
          (invoke_fuel srv f cmd.handler args cs w registered q)
      ∙ sym (named_known _ srv name args cs w cmd at)

  -- Where only commands of other files can be queued, and only such are in the queue, the dispatch
  -- calls itself no deeper than from EXEC to the queued commands: two units of fuel are enough, and
  -- any more give the same answer, connection and world.
  pub handle_fuel :
      (srv : Server W) (f : ℕ) (args : List Bytes) (cs : Client) (w : W)
      → ((name : Bytes) → QueuesOrdinary (srv.commands name))
      → IsQueue srv cs.queued
      → handle (suc (suc f)) srv args cs w ≡ handle 2 srv args cs w
  unfolding handle
  handle_fuel srv f [] cs w registered q = refl
  handle_fuel srv f (name ∷ args) cs w registered q =
      handle_named_fuel srv f (srv.commands (to_upper name)) name (name ∷ args) cs w refl registered
        q

  -- A command in a transaction that is not known makes the EXEC after it answer EXECABORT and run
  -- nothing.
  pub handle_exec-unknown :
      (srv : Server W) (f : ℕ) (name : Bytes) (args : List Bytes) (cs : Client) (w : W)
      → cs.in_multi ≡ true
      → srv.commands (to_upper name) ≡ none
      → handle_exec (handle f srv) srv (handle (suc f) srv (name ∷ args) cs w).1 w
        ≡ (error exec_abort, reset cs, w)
  unfolding handle handle_named handle_exec
  handle_exec-unknown srv f name args cs w inside unknown =
      ap (λ (p : Reply × Client × W). handle_exec (handle f srv) srv p.1 w)
        (named_unknown (handle f srv) srv name (name ∷ args) cs w unknown)
      ∙ rw inside refl
