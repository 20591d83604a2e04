-- ===== src/Memory/Users/Deletion.antt =====
-- What `delete_user` deletes, table by table.
use fastauth.Prelude.{
  String, ◌≡◌, ◌↔◌, refl, arith, Bool, false, ◌||◌, Option, none, some, ◌==◌, is_text, contains,
  inl, inr, Option-cases,
}
use fastauth.Dict.{get}
use fastauth.Dict.Laws.{get-remove_iff, get-remove_where_iff}
use fastauth.Dict.Tables.{distinct}
use fastauth.Domain.Models.{User, Session, Account, Verification, ApiKey, RefreshToken}
use fastauth.Memory.State.{Memory}
use fastauth.Memory.Invariant.Defs.{IsWellFormed}
use fastauth.Memory.Users.{identifiers_of, delete_user}

-- A challenge is addressed to the user's email, or to the email that waits for confirmation.
abbrev pub is_addressed : Option User → String → Bool
is_addressed none identifier = false
is_addressed (some user) identifier =
    user.email == identifier || is_text user.pending_email_change identifier

contains-identifiers_of :
    (identifier : String) (found : Option User)
    → contains identifier (identifiers_of found) ≡ is_addressed found identifier
unfolding identifiers_of
contains-identifiers_of identifier none = refl
contains-identifiers_of identifier (some user) = elim (Option-cases user.pending_email_change) [
  | inl e ↦ simp e refl
  | inr (address, e) ↦ simp e (ground arith)
]

-- In a well-formed state, after a user is deleted: a user row is there exactly if it was and is not
-- that user's; a session, account, refresh token or API key exactly if it was and is not of that
-- user; a challenge exactly if it was and is not addressed to the user's email or pending email.
pub delete_user_cascade :
    (user_id : String) (m : Memory)
    → IsWellFormed m
    → let m' = delete_user user_id m in
      ((k : String) (u : User)
        → (get m'.users k ≡ some u) ↔ ((get m.users k ≡ some u) × ((user_id == k) ≡ false)))
      × ((k : String) (s : Session)
          → (get m'.sessions k ≡ some s)
            ↔ ((get m.sessions k ≡ some s) × ((s.user_id == user_id) ≡ false)))
      × ((k : String) (a : Account)
          → (get m'.accounts k ≡ some a)
            ↔ ((get m.accounts k ≡ some a) × ((a.user_id == user_id) ≡ false)))
      × ((k : String) (t : RefreshToken)
          → (get m'.refresh_tokens k ≡ some t)
            ↔ ((get m.refresh_tokens k ≡ some t) × ((t.user_id == user_id) ≡ false)))
      × ((k : String) (a : ApiKey)
          → (get m'.api_keys k ≡ some a)
            ↔ ((get m.api_keys k ≡ some a) × ((a.user_id == user_id) ≡ false)))
      × ((k : String) (v : Verification)
          → (get m'.verifications k ≡ some v) ↔ (
              (get m.verifications k ≡ some v)
              × (is_addressed (get m.users user_id) v.identifier ≡ false)))
unfolding delete_user
delete_user_cascade user_id m w = (
  λ k u. get-remove_iff m.users user_id k u,
  λ k s. get-remove_where_iff (λ row. row.user_id == user_id) m.sessions k s (distinct w.sessions),
  λ k a. get-remove_where_iff (λ row. row.user_id == user_id) m.accounts k a (distinct w.accounts),
  λ k t.
      get-remove_where_iff (λ row. row.user_id == user_id) m.refresh_tokens k t
        (distinct w.refresh_tokens),
  λ k a. get-remove_where_iff (λ row. row.user_id == user_id) m.api_keys k a (distinct w.api_keys),
  λ k v. rw⁻¹ (contains-identifiers_of v.identifier (get m.users user_id)) (
      get-remove_where_iff (λ row. contains row.identifier (identifiers_of (get m.users user_id)))
        m.verifications k v (distinct w.verifications)),
)
