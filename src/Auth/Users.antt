-- ===== src/Auth/Users.antt =====
-- An authenticator accepts the users that it is made from, and no one else.
use sing.Common.{
  ℕ, ◌≡◌, refl, ap, sym, ◌∙◌, Bool, true, false, ◌&&◌, ◌||◌, List, [], ◌∷◌, ◌++◌, some, arith,
  Bool-cases, inl, inr,
}
use sing.Auth.{
  User, same, contains, Authenticator, append_password, append_all, new_authenticator, verify,
}

same_lem : (a b : List ℕ) → same a b ≡ true → a ≡ b
unfolding same
same_lem [] [] h = refl
same_lem [] (y ∷ ys) h = cc
same_lem (x ∷ xs) [] h = cc
same_lem (x ∷ xs) (y ∷ ys) h = ground (arith, h, same_lem xs ys)

same_refl : (a : List ℕ) → same a a ≡ true
unfolding same
same_refl [] = refl
same_refl (x ∷ xs) = ground (arith, same_refl xs)

same_sym : (a b : List ℕ) → same a b ≡ same b a
unfolding same
same_sym [] [] = refl
same_sym [] (y ∷ ys) = refl
same_sym (x ∷ xs) [] = refl
same_sym (x ∷ xs) (y ∷ ys) = ground (arith, same_sym xs ys)

contains_last :
    (ps : List (List ℕ)) (q p : List ℕ) → contains (ps ++ (q ∷ [])) p ≡ (contains ps p || same q p)
unfolding contains
contains_last [] q p = ground arith
contains_last (x ∷ ps) q p = ground (arith, contains_last ps q p)

same_other : (k a u : List ℕ) → same k a ≡ false → same k u ≡ true → same a u ≡ false
same_other k a u h e = sym (ap (same a) (same_lem k u e)) ∙ same_sym a k ∙ h

abbrev verify_in : List (List ℕ × List (List ℕ)) → List ℕ → List ℕ → Bool
verify_in m u p = verify (record { user_map = m }) u p

-- Whether a list of users has this name with this password.
abbrev pub has : List User → List ℕ → List ℕ → Bool
has [] u p = false
has (user ∷ users) u p = (same user.username u && same user.password p) || has users u p

verify-append :
    (m : List (List ℕ × List (List ℕ))) (user : User) (u p : List ℕ)
    → verify_in (append_password m user) u p
      ≡ (verify_in m u p || (same user.username u && same user.password p))
unfolding verify append_password contains
verify-append [] user u p = ground arith
verify-append ((k, ps) ∷ m) user u p = elim (Bool-cases (same k user.username)) [
  | inl found ↦ ground (
    arith,
    found,
    ap (λ a. same a u) (same_lem k user.username found),
    contains_last ps user.password p,
  )
  | inr other ↦ elim (Bool-cases (same k u)) [
    | inl asked ↦ ground (arith, other, asked, same_other k user.username u other asked)
    | inr not_asked ↦ ground (arith, other, not_asked, verify-append m user u p)
  ]
]

verify-append_all :
    (m : List (List ℕ × List (List ℕ))) (users : List User) (u p : List ℕ)
    → verify_in (append_all m users) u p ≡ (verify_in m u p || has users u p)
unfolding append_all
verify-append_all m [] u p = ground arith
verify-append_all m (user ∷ users) u p =
    ground (arith, verify-append_all (append_password m user) users u p, verify-append m user u p)

-- An authenticator is made of any list of users but the empty one, and accepts a name with a
-- password exactly if one of the users has both.
pub verify-new :
    (user : User) (users : List User)
    → (au : Authenticator) × (new_authenticator (user ∷ users) ≡ some au)
      × ((u p : List ℕ) → verify au u p ≡ has (user ∷ users) u p)
unfolding new_authenticator verify
verify-new user users = (
  record { user_map = append_all [] (user ∷ users) },
  ground arith,
  λ u p. verify-append_all [] (user ∷ users) u p,
)
