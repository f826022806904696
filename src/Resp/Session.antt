-- ===== src/Resp/Session.antt =====
-- internal/server/resp/dispatch.go and handlers_tx.go: what one connection keeps, and what a
-- command does to it and to the world `W` behind it (the engine and the other stores).
use cache_pot.Prelude.{
  drop, ℕ, zero, suc, ◌-◌, Bool, true, false, ◌&&◌, not, Option, none, some, List, [], ◌∷◌, ◌++◌,
  Bytes, leb, ltb, ◌==◌, if◌then◌else◌, length, map, ℤ, pos, negsuc,
}
use cache_pot.GoMap.{GoMap, put}

-- The error messages of these two files, by what they report.
pub data ReplyError : Type 0 where
  unknown_command : Bytes → List Bytes → ReplyError
  wrong_number_of_args : Bytes → ReplyError
  no_auth nested_multi discard_without_multi exec_without_multi watch_inside_multi exec_abort :
      ReplyError

mutual
  pub data Reply : Type 0 where
    nothing ok_status queued_status null_array : Reply
    error : ReplyError → Reply
    payload : Bytes → Reply
    array : Replies → Reply

  pub data Replies : Type 0 where
    no_more : Replies
    reply_then : Reply → Replies → Replies

-- The fields of ClientState that the dispatch and the transactions use; a nil map is the empty one.
pub record Client : Type 0 where
  pub authenticated : Bool
  pub workspace : Bytes
  pub in_multi : Bool
  pub multi_error : Bool
  pub queued : List (List Bytes)
  pub watched : GoMap ℕ

-- strings.ToUpper, on ASCII
abbrev pub to_upper : Bytes → Bytes
to_upper s = map (λ c. if leb b'a' c && leb c b'z' then c - 32 else c) s

-- What a command does: one of the five of RegisterTx, or the handler of another file.
pub data Handler (W : Type 0) : Type 0 where
  multi exec discard watch unwatch : Handler W
  ordinary : (List Bytes → Client → W → Reply × Client × W) → Handler W

pub record Command (W : Type 0) : Type 0 where
  pub name : Bytes
  pub min_args : ℕ
  pub max_args : ℤ
  pub allowed_no_auth : Bool
  pub no_queue : Bool
  pub handler : Handler W

-- The registry, by the upper-case name, and whether the server asks for a password.
pub record Server (W : Type 0) : Type 0 where
  pub commands : Bytes → Option (Command W)
  pub auth_required : Bool
  pub watch_version : Bytes → Bytes → W → ℕ

-- handleMulti
unfoldable pub handle_multi : Client → Reply × Client
handle_multi cs =
    if cs.in_multi
    then (error nested_multi, cs)
    else (ok_status, record cs { in_multi = true; multi_error = false; queued = [] })

-- handleDiscard
unfoldable pub handle_discard : Client → Reply × Client
handle_discard cs =
    if not cs.in_multi
    then (error discard_without_multi, cs)
    else (ok_status, record cs { in_multi = false; multi_error = false; queued = []; watched = [] })

-- handleUnwatch
abbrev pub handle_unwatch : Client → Reply × Client
handle_unwatch cs = (ok_status, record cs { watched = [] })

abbrev pub Run : Type 0 → Type 0
Run W = List Bytes → Client → W → Reply × Client × W

-- The state after the four assignments of handleExec.
abbrev pub reset : Client → Client
reset cs = record cs { in_multi = false; multi_error = false; queued = []; watched = [] }

module _ {W : Type 0} where
  -- arityOK; a negative maximum means no bound
  unfoldable pub arity_ok : Command W → ℕ → Bool
  arity_ok cmd n =
      if ltb n cmd.min_args then false else elim cmd.max_args [ pos m ↦ leb n m | negsuc m ↦ true ]

  -- The loop of handleWatch
  unfoldable pub watch_loop : Server W → Bytes → W → List Bytes → GoMap ℕ → GoMap ℕ
  watch_loop srv workspace w [] m = m
  watch_loop srv workspace w (key ∷ rest) m =
      watch_loop srv workspace w rest (put key (srv.watch_version workspace key w) m)

  -- handleWatch, on the arguments behind the name
  unfoldable pub handle_watch : Server W → List Bytes → Client → W → Reply × Client
  handle_watch srv keys cs w =
      if cs.in_multi
      then (error watch_inside_multi, cs)
      else (ok_status, record cs { watched = watch_loop srv cs.workspace w keys cs.watched })

  -- The loop of handleExec over the watched keys: whether all versions are those remembered.
  unfoldable pub all_unmoved : Server W → Bytes → W → GoMap ℕ → Bool
  all_unmoved srv workspace w [] = true
  all_unmoved srv workspace w ((key, ver) ∷ m) =
      let rest = all_unmoved srv workspace w m in
      if srv.watch_version workspace key w == ver then rest else false

  -- The function that handleExec gives to Engine.Exec: every queued command, in order.
  unfoldable pub run_queue : Run W → List (List Bytes) → Client → W → Replies × Client × W
  run_queue run [] cs w = (no_more, cs, w)
  run_queue run (args ∷ rest) cs w =
      let (r, cs1, w1) = run args cs w in
      let (rs, cs2, w2) = run_queue run rest cs1 w1 in (reply_then r rs, cs2, w2)

  -- handleExec; `run` is Registry.Handle
  unfoldable pub handle_exec : Run W → Server W → Client → W → Reply × Client × W
  unfolding all_unmoved
  handle_exec run srv cs w =
      let (rs, cs1, w1) = run_queue run cs.queued (reset cs) w in
      if not cs.in_multi
      then (error exec_without_multi, cs, w)
      else if cs.multi_error
      then (error exec_abort, reset cs, w)
      else if not (all_unmoved srv cs.workspace w cs.watched)
      then (null_array, reset cs, w)
      else (array rs, cs1, w1)

  -- cmd.Handler(cs, args)
  unfoldable pub invoke :
      Run W → Server W → Handler W → List Bytes → Client → W → Reply × Client × W
  unfolding handle_multi handle_discard handle_watch handle_exec
  invoke run srv multi args cs w = let (r, cs1) = handle_multi cs in (r, cs1, w)
  invoke run srv exec args cs w = handle_exec run srv cs w
  invoke run srv discard args cs w = let (r, cs1) = handle_discard cs in (r, cs1, w)
  invoke run srv watch [] cs w = let (r, cs1) = handle_watch srv [] cs w in (r, cs1, w)
  invoke run srv watch (a ∷ keys) cs w = let (r, cs1) = handle_watch srv keys cs w in (r, cs1, w)
  invoke run srv unwatch args cs w = let (r, cs1) = handle_unwatch cs in (r, cs1, w)
  invoke run srv (ordinary f) args cs w = f args cs w

  -- The rest of Handle, once the command is found.
  unfoldable pub handle_found :
      Run W → Server W → Command W → List Bytes → Client → W → Reply × Client × W
  unfolding invoke arity_ok
  handle_found run srv cmd args cs w =
      if srv.auth_required && not cs.authenticated && not cmd.allowed_no_auth
      then (error no_auth, cs, w)
      else if cs.in_multi && not cmd.no_queue
      then if not (arity_ok cmd (length args))
        then (error (wrong_number_of_args cmd.name), record cs { multi_error = true }, w)
        else (queued_status, record cs { queued = cs.queued ++ args ∷ [] }, w)
      else if not (arity_ok cmd (length args))
      then (error (wrong_number_of_args cmd.name), cs, w)
      else invoke run srv cmd.handler args cs w

  unfoldable pub handle_named :
      Run W → Server W → Bytes → List Bytes → Client → W → Reply × Client × W
  handle_named run srv name args cs w = elim (srv.commands (to_upper name)) [
    | none ↦ (
      error (unknown_command name (drop 1 args)),
      (if cs.in_multi then record cs { multi_error = true } else cs),
      w,
    )
    | some cmd ↦ handle_found run srv cmd args cs w
  ]

  -- Registry.Handle; the fuel bounds how deep EXEC calls it again.
  unfoldable pub handle : ℕ → Server W → List Bytes → Client → W → Reply × Client × W
  unfolding handle_named
  handle zero srv args cs w = (nothing, cs, w)
  handle (suc f) srv [] cs w = (nothing, cs, w)
  handle (suc f) srv (name ∷ args) cs w = handle_named (handle f srv) srv name (name ∷ args) cs w
