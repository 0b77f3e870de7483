-- ===== src/Auth/Manager/Users.antt =====
-- AddUser and RemoveUser of auth.go, and what a removal means for ValidateAuth.
use stealthlink.Prelude.{
  All, Bool-cases, Bytes, List, Option-cases, String, [], arith, bytes_eq, delete, eq_iff, inl, inr,
  insert, lookup, nat_eq, none, ok, str_eq, string_eq, ℕ, ◌∷◌, ◌≡◌, ◌≢◌,
}
use stealthlink.Auth.Manager.{
  prepared, Crypto, UserRecord, AuthManager, AuthSession, add_user, remove_user, validate_auth,
}
use stealthlink.Auth.Manager.Validation.{IsUser, here, there, validate_auth_sound}

-- Each user stands under his own id.
abbrev pub IsKeyed : List (String × UserRecord) → Type 0
IsKeyed [] = Unit {0}
IsKeyed ((id, u) ∷ us) = (u.id ≡ id) × IsKeyed us

insert-IsKeyed :
    (id : String) (u : UserRecord) (us : List (String × UserRecord))
    → u.id ≡ id
    → IsKeyed us
    → IsKeyed (insert id u us)
insert-IsKeyed id u [] e h = (e, tt)
insert-IsKeyed id u ((j, v) ∷ us) e h = ground (arith, insert-IsKeyed id u us e h.1)

OfAll : (P : UserRecord → Type 0) → List (String × UserRecord) → Type 0
OfAll P us = All (λ (p : String × UserRecord). P p.1) us

of_user :
    (P : UserRecord → Type 0) (u : UserRecord) (us : List (String × UserRecord))
    → OfAll P us
    → IsUser u us
    → P u
unfolding OfAll
of_user P u us h here = h.0
of_user P u us h (there m) = of_user P u _ h.1 m

-- Nobody of that id is left.
delete-gone :
    (id : String) (us : List (String × UserRecord))
    → IsKeyed us
    → OfAll (λ u. u.id ≢ id) (delete id us)
unfolding OfAll
delete-gone id [] h = tt
delete-gone id ((j, v) ∷ us) h = elim (Bool-cases (str_eq j id)) [
  | inl same ↦ rw same (delete-gone id us h.1)
  | inr other ↦ rw other ((λ e. ground (arith, eq_iff j id, h.0)), delete-gone id us h.1)
]

missing-gone :
    (id : String) (us : List (String × UserRecord))
    → IsKeyed us
    → lookup id us ≡ none
    → OfAll (λ u. u.id ≢ id) us
unfolding OfAll
missing-gone id [] h e = tt
missing-gone id ((j, v) ∷ us) h e = elim (Bool-cases (str_eq j id)) [
  | inl same ↦ absurd (ground (arith, same, e))
  | inr other ↦
      ((λ i. ground (arith, eq_iff j id, h.0)), missing-gone id us h.1 (ground (arith, other, e)))
]

gone :
    (am : AuthManager) (id : String)
    → IsKeyed am.users
    → OfAll (λ u. u.id ≢ id) (remove_user am id).users
unfolding remove_user
gone am id h = elim (Option-cases (lookup id am.users)) [
  | inl missing ↦ rw (missing, remove_user) (missing-gone id am.users h missing)
  | inr (u, found) ↦ rw (found, remove_user) (delete-gone id am.users h)
]

module _ (std : Crypto) where
  prepared_id : (u : UserRecord) → (prepared std u).id ≡ u.id
  prepared_id u = ground arith

  -- Every user that was added stands under his own id.
  pub add_user-IsKeyed :
      (am : AuthManager) (u : UserRecord) → IsKeyed am.users → IsKeyed (add_user std am u).users
  unfolding add_user
  add_user-IsKeyed am u h = insert-IsKeyed u.id (prepared std u) am.users (prepared_id u) h

  -- After RemoveUser of an id no payload opens a session for a user of that id, whatever its
  -- codes, its address and the time.
  pub removed_is_refused :
      (am : AuthManager) (id : String) (auth_data : Bytes) (ip : String) (rate_now now : ℕ)
      (s : AuthSession)
      → IsKeyed am.users
      → (validate_auth std (remove_user am id) auth_data ip rate_now now).1 ≡ ok s
      → s.user.id ≢ id
  removed_is_refused am id auth_data ip rate_now now s h e =
      let (_, _, m, _) =
        validate_auth_sound std (remove_user am id) auth_data ip rate_now now s e in
      of_user (λ u. u.id ≢ id) s.user (remove_user am id).users (gone am id h) m
