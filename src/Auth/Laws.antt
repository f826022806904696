-- ===== src/Auth/Laws.antt =====
-- Which workspace a password of internal/auth/auth.go opens.
use cache_pot.Prelude.{
  ◌≡◌, refl, ◌∙◌, arith, Option, none, some, List, [], ◌∷◌, Bytes, beq, if◌then◌else◌, is_some,
}
use cache_pot.GoMap.{GoMap, lookup, put}
use cache_pot.GoMap.Laws.{lookup-put}
use cache_pot.Auth.{
  Credential, new_multi_workspace, by_password_loop, workspace_for_password, check,
}

-- The workspace of the last credential with a password.
abbrev pub last_with : Bytes → List Credential → Option Bytes
last_with password [] = none
last_with password (c ∷ creds) =
    let later = last_with password creds in
    elim later [
      | some w ↦ some w
      | none ↦ if beq c.password password then some c.workspace else none
    ]

or_else : Option Bytes → Option Bytes → Option Bytes
or_else (some w) o = some w
or_else none o = o

lookup-by_password_loop :
    (password : Bytes) (creds : List Credential) (m : GoMap Bytes)
    → lookup password (by_password_loop creds m)
      ≡ or_else (last_with password creds) (lookup password m)
unfolding by_password_loop or_else
lookup-by_password_loop password [] m = refl
lookup-by_password_loop password (c ∷ creds) m =
    lookup-by_password_loop password creds (put c.password c.workspace m)
    ∙ ground (arith, lookup-put c.password password c.workspace m)

-- With several workspaces a password opens that of the last credential with it, and Check accepts exactly
-- the passwords of the credentials.
pub workspace_for_password-new_multi_workspace :
    (creds : List Credential) (password : Bytes)
    → (workspace_for_password (new_multi_workspace creds) password ≡ last_with password creds)
      × (check (new_multi_workspace creds) password ≡ is_some (last_with password creds))
unfolding workspace_for_password new_multi_workspace check or_else lookup
workspace_for_password-new_multi_workspace creds password = (
  ground (arith, lookup-by_password_loop password creds []),
  ground (arith, lookup-by_password_loop password creds []),
)
