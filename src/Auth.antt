-- ===== src/Auth.antt =====
-- common/auth/auth.go: the users that a server knows.
pub mod Users
use sing.Common.{
  ℕ, Bool, true, false, ◌&&◌, ◌||◌, List, [], ◌∷◌, ◌++◌, Option, none, some, length, ◌==◌,
  if◌then◌else◌,
}

pub record User : Type 0 where
  pub username : List ℕ
  pub password : List ℕ

-- Equality of strings, by their bytes.
unfoldable pub same : List ℕ → List ℕ → Bool
same [] [] = true
same (x ∷ xs) (y ∷ ys) = x == y && same xs ys
same _ _ = false

-- `common.Contains`
unfoldable pub contains : List (List ℕ) → List ℕ → Bool
unfolding same
contains [] p = false
contains (x ∷ xs) p = same x p || contains xs p

-- `userMap`: the keys are different.
pub record Authenticator : Type 0 where
  pub user_map : List (List ℕ × List (List ℕ))

abbrev pub lookup : List (List ℕ × List (List ℕ)) → List ℕ → Option (List (List ℕ))
lookup [] u = none
lookup ((k, ps) ∷ m) u = if same k u then some ps else lookup m u

-- `userMap[u] = append(userMap[u], p)`
pub append_password : List (List ℕ × List (List ℕ)) → User → List (List ℕ × List (List ℕ))
append_password [] user = (user.username, user.password ∷ []) ∷ []
append_password ((k, ps) ∷ m) user =
    let rest = append_password m user in
    if same k user.username then (k, ps ++ (user.password ∷ [])) ∷ m else (k, ps) ∷ rest

pub append_all : List (List ℕ × List (List ℕ)) → List User → List (List ℕ × List (List ℕ))
unfolding append_password
append_all m [] = m
append_all m (user ∷ users) = append_all (append_password m user) users

pub new_authenticator : List User → Option Authenticator
unfolding append_all
new_authenticator users =
    if length users == 0 then none else some (record { user_map = append_all [] users })

unfoldable pub verify : Authenticator → List ℕ → List ℕ → Bool
unfolding contains
verify au username password = elim (lookup au.user_map username) [
  | none ↦ false
  | some password_list ↦ contains password_list password
]
