-- ===== src/Resp/Connection.antt =====
-- internal/server/resp/handlers_conn.go: the commands on the connection itself.
pub mod Access
use cache_pot.Prelude.{
  ℕ, zero, suc, Bool, true, false, not, ◌&&◌, Option, none, some, List, [], ◌∷◌, ◌++◌, Bytes, codes,
  beq, ◌==◌, if◌then◌else◌, ℤ, pos, negsuc, length, is_some,
}
use cache_pot.Strconv.{parse_int}
use cache_pot.Auth.{Authenticator, workspace_for_password, required, check}
use cache_pot.Resp.Session.{Client, to_upper}
use cache_pot.Resp.Wire.{
  WireReply, WireReplies, simple, err_reply, int_reply, bulk, items, no_items, item_then,
}
use cache_pot.Resp.Handlers.{arg, ok_reply, not_integer_msg, syntax_msg, wrong_number_of_args_msg}

-- The fields of ClientState that these commands use.
pub record ConnState : Type 0 where
  pub client : Client
  pub name : Bytes
  pub quit : Bool

abbrev pub default_workspace : Bytes
default_workspace = codes "default"

-- NewClientState
unfoldable pub new_client_state : ConnState
new_client_state = record {
  client = record {
    authenticated = false;
    workspace = default_workspace;
    in_multi = false;
    multi_error = false;
    queued = [];
    watched = [];
  };
  name = [];
  quit = false;
}

-- authorizedForWorkspace
unfoldable pub authorized_for_workspace : Authenticator → ConnState → Bytes → Bool
authorized_for_workspace a cs workspace =
    if not a.multi_workspace then true else beq workspace cs.client.workspace

abbrev pub invalid_password_msg : Bytes
invalid_password_msg = codes "WRONGPASS invalid username-password pair or user is disabled."

abbrev pub no_auth_msg : Bytes
no_auth_msg = codes "NOAUTH Authentication required."

-- handlePing
unfoldable pub handle_ping : List Bytes → WireReply
handle_ping args = if length args == 2 then bulk (arg args 1) else simple (codes "PONG")

-- handleEcho
unfoldable pub handle_echo : List Bytes → WireReply
handle_echo args = bulk (arg args 1)

-- handleSelect
unfoldable pub handle_select : List Bytes → WireReply
handle_select args = elim (parse_int (arg args 1)) [
  | none ↦ err_reply not_integer_msg
  | some (pos zero) ↦ ok_reply
  | some (pos (suc n)) ↦ err_reply (codes "ERR DB index is out of range")
  | some (negsuc n) ↦ err_reply (codes "ERR DB index is out of range")
]

-- The writes of a password that was accepted: with several workspaces the password's own is selected.
abbrev pub log_in_with : Bool → Option Bytes → Bool → ConnState → Option ConnState
log_in_with true none accepted cs = none
log_in_with true (some w) accepted cs =
    some (record cs { client = record cs.client { authenticated = true; workspace = w } })
log_in_with false w false cs = none
log_in_with false w true cs =
    some (record cs { client = record cs.client { authenticated = true } })

unfoldable pub log_in : Authenticator → Bytes → ConnState → Option ConnState
log_in a password cs =
    log_in_with a.multi_workspace (workspace_for_password a password) (check a password) cs

-- handleAuth
unfoldable pub handle_auth : Authenticator → List Bytes → ConnState → WireReply × ConnState
handle_auth a args cs =
    let password = if length args == 2 then arg args 1 else arg args 2 in
    if not (required a)
    then (
      err_reply (
          codes
            "ERR Client sent AUTH, but no password is set. Did you mean AUTH <username> <password>?"),
      cs,
    )
    else elim (log_in a password cs) [
      | none ↦ (err_reply invalid_password_msg, cs)
      | some cs1 ↦ (ok_reply, cs1)
    ]

-- The option loop of handleHello: an error's message, or none, and the state with what was set before it.
unfoldable pub hello_loop : Authenticator → List Bytes → ConnState → Option Bytes × ConnState
hello_loop a [] cs = (none, cs)
hello_loop a (opt ∷ []) cs = (some syntax_msg, cs)
hello_loop a (opt ∷ v ∷ []) cs =
    if beq (to_upper opt) (codes "SETNAME")
    then (none, record cs { name = v })
    else (some syntax_msg, cs)
hello_loop a (opt ∷ v ∷ u ∷ rest) cs =
    let named = hello_loop a (u ∷ rest) (record cs { name = v }) in
    let logged_in : Option Bytes × ConnState = elim (log_in a u cs) [
      | none ↦ (some invalid_password_msg, cs)
      | some cs1 ↦ hello_loop a rest cs1
    ] in
    if beq (to_upper opt) (codes "AUTH")
    then logged_in
    else if beq (to_upper opt) (codes "SETNAME")
    then named
    else (some syntax_msg, cs)

-- The protocol that the first argument asks for, where it is a number, and the other arguments.
abbrev pub hello_proto : List Bytes → Bytes × List Bytes
hello_proto [] = (codes "2", [])
hello_proto (a ∷ rest) = if is_some (parse_int a) then (a, rest) else (codes "2", a ∷ rest)

abbrev pub pair : Bytes → WireReply → WireReplies → WireReplies
pair k v rest = item_then (bulk k) (item_then v rest)

-- The reply to HELLO.
unfoldable pub hello_reply : WireReply
hello_reply = items (
    pair (codes "server") (bulk (codes "cachepot")) (
      pair (codes "version") (bulk (codes "0.7.0")) (
        pair (codes "proto") (int_reply (pos 2)) (
          pair (codes "id") (int_reply (pos 1)) (
            pair (codes "mode") (bulk (codes "standalone")) (
              pair (codes "role") (bulk (codes "master"))
                (pair (codes "modules") (items no_items) no_items)))))))

-- handleHello
unfoldable pub handle_hello : Authenticator → List Bytes → ConnState → WireReply × ConnState
unfolding hello_loop hello_reply
handle_hello a [] cs = (err_reply syntax_msg, cs)
handle_hello a (command ∷ args) cs =
    let (proto, rest) = hello_proto args in
    let (failed, cs1) = hello_loop a rest cs in
    elim failed [
      | some msg ↦ (err_reply msg, cs1)
      | none ↦
          if not (beq proto (codes "2"))
          then (err_reply (codes "NOPROTO unsupported protocol version"), cs1)
          else if required a && not cs1.client.authenticated
          then (err_reply no_auth_msg, cs1)
          else (hello_reply, cs1)
    ]

-- handleClient
unfoldable pub handle_client : List Bytes → ConnState → WireReply × ConnState
handle_client args cs =
    let sub = to_upper (arg args 1) in
    if beq sub (codes "GETNAME")
    then (bulk cs.name, cs)
    else if beq sub (codes "SETNAME")
    then if not (length args == 3)
      then (err_reply (wrong_number_of_args_msg (codes "client|setname")), cs)
      else (ok_reply, record cs { name = arg args 2 })
    else (
      err_reply (
          codes "ERR Unknown subcommand or wrong number of arguments for '"
          ++ arg args 1
          ++ codes "'"),
      cs,
    )

-- handleCommand; `count` is the number of registered commands
unfoldable pub handle_command : ℕ → List Bytes → WireReply
handle_command count [] = items no_items
handle_command count (command ∷ []) = items no_items
handle_command count (command ∷ a ∷ rest) =
    if beq (to_upper a) (codes "COUNT") then int_reply (pos count) else items no_items

-- handleQuit
unfoldable pub handle_quit : ConnState → WireReply × ConnState
handle_quit cs = (ok_reply, record cs { quit = true })
