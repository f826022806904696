-- ===== src/Resp/Queue.antt =====
-- What stands in the queue of a transaction in internal/server/resp.
use cache_pot.Prelude.{
  ℕ, zero, suc, Bool, true, false, ◌&&◌, not, Option, none, some, List, [], ◌∷◌, ◌++◌, ◌≡◌, refl,
  sym, arith, Bytes, if◌then◌else◌, Option-cases, inl, inr, length,
}
use mathlib.Core.Path.{subst}
use cache_pot.Resp.Session.{
  Reply, Client, Command, Server, Handler, multi, exec, discard, watch, unwatch, ordinary, Run,
  reset, to_upper, handle_multi, handle_discard, handle_watch, handle_exec, invoke, handle_found,
  handle_named, handle, run_queue, arity_ok, all_unmoved,
}
use cache_pot.Resp.Transactions.{Queueable, IsQueue, named_known, named_unknown}

IsQueue-append :
    {W : Type 0} (srv : Server W) (q : List (List Bytes)) (args : List Bytes)
    → IsQueue srv q
    → Queueable srv args
    → IsQueue srv (q ++ args ∷ [])
IsQueue-append srv [] args all one = (one, tt)
IsQueue-append srv (a ∷ q) args all one = (all.0, IsQueue-append srv q args all.1 one)

module _ {W : Type 0} where
  -- A handler of another file does not touch the queue.
  abbrev pub LeavesQueue : Option (Command W) → Type 0
  LeavesQueue none = Unit
  LeavesQueue (some cmd) = elim cmd.handler [
    | ordinary f ↦ (args : List Bytes) (cs : Client) (w : W) → (f args cs w).1.queued ≡ cs.queued
    | multi ↦ Unit
    | exec ↦ Unit
    | discard ↦ Unit
    | watch ↦ Unit
    | unwatch ↦ Unit
  ]

  module _ (srv : Server W) (leaves : (name : Bytes) → LeavesQueue (srv.commands name)) where
    Good : Reply × Client × W → Type 0
    Good p = IsQueue srv p.1.queued

    if-Good :
        (b : Bool) (x y : Reply × Client × W)
        → (b ≡ true → Good x)
        → (b ≡ false → Good y)
        → Good (if b then x else y)
    if-Good true x y f g = f refl
    if-Good false x y f g = g refl

    KeepsGood : Run W → Type 0
    KeepsGood run =
        (args : List Bytes) (cs : Client) (w : W) → IsQueue srv cs.queued → Good (run args cs w)

    run_queue-IsQueue :
        (run : Run W)
        → KeepsGood run
        → (q : List (List Bytes)) (cs : Client) (w : W) → IsQueue srv cs.queued
        → IsQueue srv (run_queue run q cs w).1.queued
    unfolding run_queue KeepsGood Good
    run_queue-IsQueue run keeps [] cs w h = h
    run_queue-IsQueue run keeps (args ∷ rest) cs w h =
        run_queue-IsQueue run keeps rest _ _ (keeps args cs w h)

    handle_exec-Good :
        (run : Run W)
        → KeepsGood run
        → (cs : Client) (w : W) → IsQueue srv cs.queued
        → Good (handle_exec run srv cs w)
    unfolding handle_exec Good
    handle_exec-Good run keeps cs w h =
        if-Good (not cs.in_multi) _ _ (λ e. h)
          (λ e.
            if-Good cs.multi_error _ _ (λ d. tt)
              (λ d.
                if-Good (not (all_unmoved srv cs.workspace w cs.watched)) _ _ (λ a. tt)
                  (λ a. run_queue-IsQueue run keeps cs.queued (reset cs) w tt)))

    if-queued :
        (b : Bool) (x y : Reply × Client)
        → IsQueue srv x.1.queued
        → IsQueue srv y.1.queued
        → IsQueue srv (if◌then◌else◌ {A = Reply × Client} b x y).1.queued
    if-queued true x y f g = f
    if-queued false x y f g = g

    handle_multi-IsQueue :
        (cs : Client) → IsQueue srv cs.queued → IsQueue srv (handle_multi cs).1.queued
    unfolding handle_multi
    handle_multi-IsQueue cs q = if-queued cs.in_multi _ _ q tt

    handle_discard-IsQueue :
        (cs : Client) → IsQueue srv cs.queued → IsQueue srv (handle_discard cs).1.queued
    unfolding handle_discard
    handle_discard-IsQueue cs q = if-queued (not cs.in_multi) _ _ q tt

    handle_watch-IsQueue :
        (key_list : List Bytes) (cs : Client) (w : W)
        → IsQueue srv cs.queued
        → IsQueue srv (handle_watch srv key_list cs w).1.queued
    unfolding handle_watch
    handle_watch-IsQueue key_list cs w q = if-queued cs.in_multi _ _ q q

    invoke-Good :
        (run : Run W)
        → KeepsGood run
        → (name : Bytes) (cmd : Command W) (h : Handler W) (args : List Bytes) (cs : Client) (w : W)
        → elim h as (λ _. Type 0) [
          | ordinary f ↦
              (args : List Bytes) (cs : Client) (w : W) → (f args cs w).1.queued ≡ cs.queued
          | multi ↦ Unit
          | exec ↦ Unit
          | discard ↦ Unit
          | watch ↦ Unit
          | unwatch ↦ Unit
        ]
        → IsQueue srv cs.queued
        → Good (invoke run srv h args cs w)
    unfolding invoke Good
    invoke-Good run keeps name cmd multi args cs w l q = handle_multi-IsQueue cs q
    invoke-Good run keeps name cmd exec args cs w l q = handle_exec-Good run keeps cs w q
    invoke-Good run keeps name cmd discard args cs w l q = handle_discard-IsQueue cs q
    invoke-Good run keeps name cmd watch [] cs w l q = handle_watch-IsQueue [] cs w q
    invoke-Good run keeps name cmd watch (a ∷ args) cs w l q = handle_watch-IsQueue args cs w q
    invoke-Good run keeps name cmd unwatch args cs w l q = q
    invoke-Good run keeps name cmd (ordinary f) args cs w l q =
        subst (λ k. IsQueue srv k) (sym (l args cs w)) q

    handle_found-Good :
        (run : Run W)
        → KeepsGood run
        → (name : Bytes) (cmd : Command W) (args : List Bytes) (cs : Client) (w : W)
        → srv.commands (to_upper name) ≡ some cmd
        → IsQueue srv cs.queued
        → Good (handle_found run srv cmd (name ∷ args) cs w)
    unfolding handle_found Good
    handle_found-Good run keeps name cmd args cs w found q =
        if-Good (srv.auth_required && not cs.authenticated && not cmd.allowed_no_auth) _ _ (λ e. q)
          (λ e.
            if-Good (cs.in_multi && not cmd.no_queue) _ _
              (λ inside.
                if-Good (not (arity_ok cmd (length (name ∷ args)))) _ _ (λ d. q)
                  (λ d.
                    IsQueue-append srv cs.queued (name ∷ args) q
                      (cmd, found, ground (arith, inside))))
              (λ outside.
                if-Good (not (arity_ok cmd (length (name ∷ args)))) _ _ (λ d. q)
                  (λ d.
                    invoke-Good run keeps name cmd cmd.handler (name ∷ args) cs w
                      (subst (λ o. LeavesQueue o) found (leaves (to_upper name))) q)))

    after_unknown :
        (b : Bool) (cs : Client)
        → IsQueue srv cs.queued
        → IsQueue srv (if b then record cs { multi_error = true } else cs).queued
    after_unknown true cs q = q
    after_unknown false cs q = q

    handle_named-Good :
        (run : Run W)
        → KeepsGood run
        → (name : Bytes) (args : List Bytes) (cs : Client) (w : W) → IsQueue srv cs.queued
        → Good (handle_named run srv name (name ∷ args) cs w)
    unfolding Good
    handle_named-Good run keeps name args cs w q =
        elim (Option-cases (srv.commands (to_upper name))) [
          | inl unknown ↦
              subst (λ (p : Reply × Client × W). IsQueue srv p.1.queued)
                (sym (named_unknown run srv name (name ∷ args) cs w unknown))
                (after_unknown cs.in_multi cs q)
          | inr (cmd, found) ↦
              subst (λ (p : Reply × Client × W). IsQueue srv p.1.queued)
                (sym (named_known run srv name (name ∷ args) cs w cmd found))
                (handle_found-Good run keeps name cmd args cs w found q)
        ]

    handle-Good : (f : ℕ) → KeepsGood (handle f srv)
    unfolding handle KeepsGood Good
    handle-Good zero args cs w q = q
    handle-Good (suc f) [] cs w q = q
    handle-Good (suc f) (name ∷ args) cs w q =
        handle_named-Good (handle f srv) (handle-Good f) name args cs w q

    -- Every command that the dispatch handles, EXEC and what it runs included, leaves a queue in
    -- which each command is known and not one that runs at once, where the handlers of the other
    -- files do not touch the queue.
    pub handle-IsQueue :
        (f : ℕ) (args : List Bytes) (cs : Client) (w : W)
        → IsQueue srv cs.queued
        → IsQueue srv (handle f srv args cs w).1.queued
    unfolding KeepsGood Good
    handle-IsQueue f args cs w q = handle-Good f args cs w q
