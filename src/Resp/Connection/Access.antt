-- ===== src/Resp/Connection/Access.antt =====
-- Which workspace a connection reaches by AUTH and HELLO.
use cache_pot.Prelude.{
  sym, ◌∙◌, ◌⊎◌, ◌++◌, is_empty, is_some, beq_iff, beq_refl, ◌≡◌, refl, arith, Bool, true, false,
  Option, none, some, List, [], ◌∷◌, Bytes, codes, length, ◌==◌, beq, if◌then◌else◌, Option-cases,
  Bool-cases, inl, inr,
}
use mathlib.Core.Path.{subst}
use cache_pot.Resp.Handlers.{arg}
use cache_pot.Strconv.{parse_int}
use cache_pot.GoMap.{lookup, member}
use cache_pot.Memstore.Keyspace.Listing.{member-append}
use cache_pot.Auth.{Authenticator, workspace_for_password, check}
use cache_pot.Resp.Session.{to_upper}
use cache_pot.Resp.Connection.{
  ConnState, default_workspace, new_client_state, log_in_with, log_in, handle_auth, hello_loop,
  hello_proto, handle_hello, handle_client, handle_quit,
}

-- What a password opens: the workspace of its credential where the server has several, and the default one
-- where the password is the server's, or the server has none.
abbrev pub Opens : Bool → Authenticator → Bytes → Bytes → Type 0
Opens true a password workspace = lookup password a.by_password ≡ some workspace
Opens false a password workspace =
    ((a.password ≡ []) ⊎ (password ≡ a.password)) × (workspace ≡ default_workspace)

-- An authenticated connection has given a password that opens its workspace, and another one is in the default
-- workspace.
abbrev pub Entitled : Authenticator → List Bytes → Bool → Bytes → Type 0
Entitled a given true workspace =
    (password : Bytes) × (member password given ≡ true)
    × Opens a.multi_workspace a password workspace
Entitled a given false workspace = workspace ≡ default_workspace

unfoldable pub IsEntitled : Authenticator → List Bytes → ConnState → Type 0
IsEntitled a given cs = Entitled a given cs.client.authenticated cs.client.workspace

is_empty_nil : (s : Bytes) → is_empty s ≡ true → s ≡ []
is_empty_nil [] h = refl
is_empty_nil (x ∷ s) h = ground (arith, h)

check_single :
    (a : Authenticator) (password : Bytes)
    → a.multi_workspace ≡ false
    → check a password ≡ true
    → (a.password ≡ []) ⊎ (password ≡ a.password)
unfolding check
check_single a password single h = elim (Bool-cases (is_empty a.password)) [
  | inl empty ↦ inl (is_empty_nil a.password empty)
  | inr some_password ↦
      inr ((beq_iff password a.password).0 (ground (arith, h, single, some_password)))
]

module _ (a : Authenticator) where
  in_default :
      (given : List Bytes) (b : Bool) (w : Bytes)
      → a.multi_workspace ≡ false
      → Entitled a given b w
      → w ≡ default_workspace
  in_default given false w single h = h
  in_default given true w single (password, there, opened) =
      (subst (λ b. Opens b a password w) single opened).1

  -- More arguments take nothing away.
  Entitled-append :
      (more given : List Bytes) (b : Bool) (w : Bytes)
      → Entitled a given b w
      → Entitled a (more ++ given) b w
  Entitled-append more given false w h = h
  Entitled-append more given true w (password, there, opened) =
      (password, member-append password more given ∙ ground (arith, there), opened)

  IsEntitled-append :
      (more given : List Bytes) (cs : ConnState)
      → IsEntitled a given cs
      → IsEntitled a (more ++ given) cs
  unfolding IsEntitled
  IsEntitled-append more given cs h =
      Entitled-append more given cs.client.authenticated cs.client.workspace h

  -- What a log-in leaves, if it is accepted.
  abbrev AllEntitled : List Bytes → Option ConnState → Type 0
  AllEntitled given none = Unit
  AllEntitled given (some cs) = IsEntitled a given cs

  opened_of :
      (password w : Bytes)
      → a.multi_workspace ≡ true
      → workspace_for_password a password ≡ some w
      → lookup password a.by_password ≡ some w
  unfolding workspace_for_password
  opened_of password w several h = ground (arith, several, h)

  log_in_with-IsEntitled :
      (given : List Bytes) (password : Bytes) (several accepted : Bool) (o : Option Bytes)
      (cs : ConnState)
      → member password given ≡ true
      → a.multi_workspace ≡ several
      → workspace_for_password a password ≡ o
      → check a password ≡ accepted
      → IsEntitled a given cs
      → AllEntitled given (log_in_with several o accepted cs)
  unfolding IsEntitled
  log_in_with-IsEntitled given password true accepted none cs there m w c h = tt
  log_in_with-IsEntitled given password true accepted (some found) cs there m w c h = (
    password,
    there,
    subst (λ b. Opens b a password found) (sym m) (opened_of password found m w),
  )
  log_in_with-IsEntitled given password false false o cs there m w c h = tt
  log_in_with-IsEntitled given password false true o cs there m w c h = (
    password,
    there,
    subst (λ b. Opens b a password cs.client.workspace) (sym m)
        (
          check_single a password m c,
          in_default given cs.client.authenticated cs.client.workspace m h,
        ),
  )

  log_in-IsEntitled :
      (given : List Bytes) (password : Bytes) (cs : ConnState)
      → member password given ≡ true
      → IsEntitled a given cs
      → AllEntitled given (log_in a password cs)
  unfolding log_in
  log_in-IsEntitled given password cs there h =
      log_in_with-IsEntitled given password a.multi_workspace (check a password) _ cs there refl
        refl refl h

  some-IsEntitled :
      (given : List Bytes) (o : Option ConnState) (cs : ConnState)
      → o ≡ some cs
      → AllEntitled given o
      → IsEntitled a given cs
  some-IsEntitled given none cs e h = ground (arith, e)
  some-IsEntitled given (some c) cs e h = subst (AllEntitled given) e h

  -- The password that AUTH reads is one of its arguments.
  auth_password :
      (args : List Bytes)
      → (length args ≡ 2) ⊎ (length args ≡ 3)
      → member (if length args == 2 then arg args 1 else arg args 2) args ≡ true
  unfolding member
  auth_password [] h = ground (arith, h)
  auth_password (c ∷ []) h = ground (arith, h)
  auth_password (c ∷ p ∷ []) h = ground (arith, beq_refl p)
  auth_password (c ∷ u ∷ p ∷ []) h = ground (arith, beq_refl p)
  auth_password (c ∷ u ∷ p ∷ q ∷ rest) h = absurd (omega (arith, h))

  handle_auth-IsEntitled :
      (given args : List Bytes) (cs : ConnState)
      → member (if length args == 2 then arg args 1 else arg args 2) given ≡ true
      → IsEntitled a given cs
      → IsEntitled a given (handle_auth a args cs).1
  unfolding handle_auth
  handle_auth-IsEntitled given args cs there h =
      let password = if length args == 2 then arg args 1 else arg args 2 in
      elim (Option-cases (log_in a password cs)) [
        | inl wrong ↦ ground (arith, wrong, h)
        | inr (cs1, accepted) ↦ ground (
          arith,
          accepted,
          h,
          some-IsEntitled given _ cs1 accepted (log_in-IsEntitled given password cs there h),
        )
      ]

  hello_loop-IsEntitled :
      (given args : List Bytes) (cs : ConnState)
      → ((x : Bytes) → member x args ≡ true → member x given ≡ true)
      → IsEntitled a given cs
      → IsEntitled a given (hello_loop a args cs).1
  unfolding hello_loop IsEntitled member
  hello_loop-IsEntitled given [] cs sub h = h
  hello_loop-IsEntitled given (opt ∷ []) cs sub h = h
  hello_loop-IsEntitled given (opt ∷ v ∷ []) cs sub h =
      elim (Bool-cases (beq (to_upper opt) (codes "SETNAME"))) [
        | inl naming ↦ rw naming h
        | inr other ↦ rw other h
      ]
  hello_loop-IsEntitled given (opt ∷ v ∷ u ∷ rest) cs sub h =
      elim (Bool-cases (beq (to_upper opt) (codes "AUTH"))) [
        | inl auth ↦ elim (Option-cases (log_in a u cs)) [
          | inl wrong ↦ rw (auth, wrong, hello_loop) h
          | inr (cs1, accepted) ↦
              rw (auth, accepted, hello_loop)
                (hello_loop-IsEntitled given rest cs1 (λ x there. sub x (ground (arith, there)))
                  (some-IsEntitled given _ cs1 accepted
                    (log_in-IsEntitled given u cs (sub u (ground (arith, beq_refl u))) h)))
        ]
        | inr no_auth ↦ elim (Bool-cases (beq (to_upper opt) (codes "SETNAME"))) [
          | inl naming ↦
              rw (no_auth, naming)
                (hello_loop-IsEntitled given (u ∷ rest) (record cs { name = v })
                  (λ x there. sub x (ground (arith, there))) h)
          | inr other ↦ rw (no_auth, other) h
        ]
      ]

  member-hello_proto :
      (args : List Bytes) (x : Bytes) → member x (hello_proto args).1 ≡ true → member x args ≡ true
  unfolding member
  member-hello_proto [] x h = h
  member-hello_proto (b ∷ rest) x h = elim (Bool-cases (is_some (parse_int b))) [
    | inl number ↦ ground (arith, number, h)
    | inr other ↦ ground (arith, other, h)
  ]

  handle_hello-IsEntitled :
      (given args : List Bytes) (cs : ConnState)
      → ((x : Bytes) → member x args ≡ true → member x given ≡ true)
      → IsEntitled a given cs
      → IsEntitled a given (handle_hello a args cs).1
  unfolding handle_hello member
  handle_hello-IsEntitled given [] cs sub h = h
  handle_hello-IsEntitled given (command ∷ args) cs sub h = ground (
    arith,
    hello_loop-IsEntitled given (hello_proto args).1 cs
        (λ x there. sub x (ground (arith, member-hello_proto args x there))) h,
  )

  handle_client-IsEntitled :
      (given args : List Bytes) (cs : ConnState)
      → IsEntitled a given cs
      → IsEntitled a given (handle_client args cs).1
  unfolding handle_client IsEntitled
  handle_client-IsEntitled given args cs h = ground (arith, h)

-- A connection after any of its own commands, from the start, with the arguments that it gave to AUTH and HELLO.
-- AUTH takes two or three with its name, by the arity of its registration.
pub data ReachConn (a : Authenticator) : List Bytes → ConnState → Type 0 where
  connected : ReachConn a [] new_client_state
  auth_command :
      {given : List Bytes} {cs : ConnState} (args : List Bytes)
      → (length args ≡ 2) ⊎ (length args ≡ 3)
      → ReachConn a given cs
      → ReachConn a (args ++ given) (handle_auth a args cs).1
  hello_command :
      {given : List Bytes} {cs : ConnState} (args : List Bytes)
      → ReachConn a given cs
      → ReachConn a (args ++ given) (handle_hello a args cs).1
  client_command :
      {given : List Bytes} {cs : ConnState} (args : List Bytes)
      → ReachConn a given cs
      → ReachConn a given (handle_client args cs).1
  quit_command :
      {given : List Bytes} {cs : ConnState}
      → ReachConn a given cs
      → ReachConn a given (handle_quit cs).1

-- An argument is one of these and those before.
member-front :
    (args given : List Bytes) (x : Bytes) → member x args ≡ true → member x (args ++ given) ≡ true
member-front args given x h = member-append x args given ∙ ground (arith, h)

-- After any AUTH, HELLO, CLIENT and QUIT commands, also refused ones, a connection that is authenticated is in a
-- workspace that an argument it gave to AUTH or HELLO opens: where the server has several, that of the
-- credential with this password, and else the default one, the argument being the server's password unless
-- the server has none. A connection that is not authenticated is in the default workspace.
pub ReachConn-IsEntitled :
    (a : Authenticator) (given : List Bytes) (cs : ConnState)
    → ReachConn a given cs
    → IsEntitled a given cs
unfolding IsEntitled new_client_state handle_quit
ReachConn-IsEntitled a _ _ connected = refl
ReachConn-IsEntitled a _ _ (auth_command {given} {cs} args arity r) =
    handle_auth-IsEntitled a (args ++ given) args cs
      (member-front args given _ (auth_password a args arity))
      (IsEntitled-append a args given cs (ReachConn-IsEntitled a given cs r))
ReachConn-IsEntitled a _ _ (hello_command {given} {cs} args r) =
    handle_hello-IsEntitled a (args ++ given) args cs (member-front args given)
      (IsEntitled-append a args given cs (ReachConn-IsEntitled a given cs r))
ReachConn-IsEntitled a _ _ (client_command {given} {cs} args r) =
    handle_client-IsEntitled a given args cs (ReachConn-IsEntitled a given cs r)
ReachConn-IsEntitled a _ _ (quit_command {given} {cs} r) = ReachConn-IsEntitled a given cs r
