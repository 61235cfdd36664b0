-- ===== src/Store/Directory.antt =====
-- internal/store/memory: users (memory.go) and sessions (sessions.go), with their records of
-- pkg/store/models.go.
--
-- A map is the list of its values, each under its own ID; a method is one step under the mutex. An
-- instant is its number of nanoseconds, 0 for Go's zero time.
use nit.Base.{
  is_some, ℕ, ◌+◌, Bool, false, not, ◌&&◌, Option, none, some, List, [], ◌∷◌, GoString, text, ◌==◌,
  is_empty, keep, find, sort_by, ltb, nat_eq, if◌then◌else◌, Result, ok, err,
}
use nit.Store.Task.{StoreError, not_found}
use nit.Store.Memory.{next_id}

pub record UserRow : Type 0 where
  pub id : GoString
  pub tenant_id : GoString
  pub policy_user_id : GoString
  pub email : GoString
  pub display_name : GoString
  pub disabled : Bool
  pub created_at : ℕ
  pub updated_at : ℕ

pub record Session : Type 0 where
  pub id : GoString
  pub tenant_id : GoString
  pub user_id : GoString
  pub token_hash : GoString
  pub label : GoString
  pub created_at : ℕ
  pub expires_at : Option ℕ
  pub last_used_at : Option ℕ
  pub revoked_at : Option ℕ

abbrev pub is_past : ℕ → Option ℕ → Bool
is_past now none = false
is_past now (some end) = not (ltb now end)

-- `(*Session).Active`.
unfoldable pub is_active : ℕ → Session → Bool
is_active now s = not (is_some s.revoked_at) && not (is_past now s.expires_at)

-- The fields of the store that its users and sessions use.
pub record Directory : Type 0 where
  pub seq : ℕ
  pub users : List UserRow
  pub sessions : List Session

-- `m[r.ID] = r`, and writing through the pointer that is under an ID.
module _ {A : Type 0} (id_of : A → GoString) where
  unfoldable pub put_row : A → List A → List A
  put_row r [] = r ∷ []
  put_row r (x ∷ xs) = let rest = put_row r xs in if id_of x == id_of r then r ∷ xs else x ∷ rest

  unfoldable pub write_row : GoString → (A → A) → List A → List A
  write_row id write [] = []
  write_row id write (x ∷ xs) =
      let rest = write_row id write xs in if id_of x == id then write x ∷ rest else x ∷ rest

abbrev pub row_or_not_found : {A : Type 0} → Option A → Result StoreError A
row_or_not_found none = err not_found
row_or_not_found (some a) = ok a

abbrev pub session_id : Session → GoString
session_id s = s.id

abbrev pub user_id_of : UserRow → GoString
user_id_of u = u.id

unfoldable pub user_by_id : GoString → Directory → Result StoreError UserRow
user_by_id id d = row_or_not_found (find (λ u. u.id == id) d.users)

abbrev pub is_policy_user : GoString → GoString → UserRow → Bool
is_policy_user tenant policy_id u = u.tenant_id == tenant && u.policy_user_id == policy_id

unfoldable pub user_by_policy_id : GoString → GoString → Directory → Result StoreError UserRow
user_by_policy_id tenant policy_id d =
    row_or_not_found (find (is_policy_user tenant policy_id) d.users)

-- `Upsert`: the row of the same tenant and policy ID keeps its ID and the instant of its creation.
unfoldable pub upsert_user : UserRow → Directory → Directory × UserRow
upsert_user u d = elim (find (is_policy_user u.tenant_id u.policy_user_id) d.users) [
  | some existing ↦
      let updated = record u { id = existing.id; created_at = existing.created_at } in
      (record d { users = put_row user_id_of updated d.users }, updated)
  | none ↦
      let fresh = is_empty u.id in
      let created = if fresh then record u { id = next_id (text "user") (d.seq + 1) } else u in
      (
        record d {
          seq = if fresh then d.seq + 1 else d.seq;
          users = put_row user_id_of created d.users;
        },
        created,
      )
]

unfoldable pub create_session : ℕ → Session → Directory → Directory × Session
create_session clock s d =
    let fresh = is_empty s.id in
    let created = record s {
      id = if fresh then next_id (text "session") (d.seq + 1) else s.id;
      created_at = if nat_eq s.created_at 0 then clock else s.created_at;
    } in
    (
      record d {
        seq = if fresh then d.seq + 1 else d.seq;
        sessions = put_row session_id created d.sessions;
      },
      created,
    )

abbrev pub has_hash : GoString → Session → Bool
has_hash hash s = s.token_hash == hash

unfoldable pub session_by_token_hash : GoString → Directory → Result StoreError Session
session_by_token_hash hash d = row_or_not_found (find (has_hash hash) d.sessions)

unfoldable pub session_by_id : GoString → Directory → Result StoreError Session
session_by_id id d = row_or_not_found (find (λ s. s.id == id) d.sessions)

unfoldable pub sessions_of_user : GoString → Directory → List Session
sessions_of_user user d =
    sort_by (λ a b. ltb a.created_at b.created_at) (keep (λ s. s.user_id == user) d.sessions)

-- The shape of `Touch` and `Revoke`.
abbrev pub write_session :
    GoString → (Session → Session) → Directory → Directory × Option StoreError
write_session id write d =
    if is_some (find (λ s. s.id == id) d.sessions)
    then (record d { sessions = write_row session_id id write d.sessions }, none)
    else (d, some not_found)

unfoldable pub touch_session : GoString → ℕ → Directory → Directory × Option StoreError
touch_session id at d = write_session id (λ s. record s { last_used_at = some at }) d

-- The first revocation stays.
abbrev pub first_instant : Option ℕ → ℕ → Option ℕ
first_instant none at = some at
first_instant (some first) at = some first

unfoldable pub revoke_session : GoString → ℕ → Directory → Directory × Option StoreError
revoke_session id at d =
    write_session id (λ s. record s { revoked_at = first_instant s.revoked_at at }) d
