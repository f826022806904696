-- ===== src/Auth.antt =====
-- internal/auth/auth.go: the passwords of a server, one for all or one for each workspace.
pub mod Laws
use cache_pot.Prelude.{
  ℕ, Bool, true, false, not, Option, none, some, List, [], ◌∷◌, Bytes, beq, if◌then◌else◌, is_some,
  is_empty,
}
use cache_pot.GoMap.{GoMap, lookup, has, put}

pub record Credential : Type 0 where
  pub workspace : Bytes
  pub password : Bytes

pub record Authenticator : Type 0 where
  pub password : Bytes
  pub multi_workspace : Bool
  pub by_password : GoMap Bytes

-- New
unfoldable pub new_auth : Bytes → Authenticator
new_auth password = record { password = password; multi_workspace = false; by_password = [] }

-- The loop of NewMultiWorkspace
unfoldable pub by_password_loop : List Credential → GoMap Bytes → GoMap Bytes
by_password_loop [] m = m
by_password_loop (c ∷ creds) m = by_password_loop creds (put c.password c.workspace m)

-- NewMultiWorkspace
unfoldable pub new_multi_workspace : List Credential → Authenticator
unfolding by_password_loop
new_multi_workspace creds = record {
  password = [];
  multi_workspace = true;
  by_password = by_password_loop creds [];
}

-- WorkspaceForPassword
unfoldable pub workspace_for_password : Authenticator → Bytes → Option Bytes
workspace_for_password a password =
    if not a.multi_workspace then none else lookup password a.by_password

-- Required
unfoldable pub required : Authenticator → Bool
required a = if a.multi_workspace then true else not (is_empty a.password)

-- Check
unfoldable pub check : Authenticator → Bytes → Bool
check a password =
    if a.multi_workspace
    then has password a.by_password
    else if is_empty a.password
    then true
    else beq password a.password
