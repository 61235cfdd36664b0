-- ===== src/Auth/Revoked.antt =====
-- internal/auth/auth.go and internal/store/memory/sessions.go: a revoked session stays revoked.
use mathlib.Core.List.{List, [], ◌∷◌}
use nit.Base.{
  is_some, ◌≡◌, ◌≢◌, ℕ, true, false, Option, GoString, ◌==◌, Result, ok, err, All, All_of_mem, find,
  find-none, Bool-cases, inl, inr, arith,
}
use nit.Policy.Identity.{TenantId}
use nit.Policy.Engine.{Policy}
use nit.Store.Directory.{
  Session, Directory, session_id, write_row, write_session, revoke_session, touch_session,
  is_active, first_instant,
}
use nit.Auth.{AuthError, Principal, authenticate, resolve, revoke, note_use}
use nit.Auth.Granted.{authenticate-IsGranted}

-- Calls that a client or an operator makes, each at its instant.
pub data AuthCall : Type 0 where
  authenticates : GoString → ℕ → AuthCall
  revokes : GoString → ℕ → AuthCall

module _ (hash : GoString → GoString) (sources : TenantId → Option Policy) where
  unfoldable pub run_calls : List AuthCall → Directory → Directory
  run_calls [] d = d
  run_calls (authenticates token now ∷ cs) d =
      run_calls cs (authenticate hash sources now token d).0
  run_calls (revokes id now ∷ cs) d = run_calls cs (revoke id now d).0

-- The session of an ID, if it is there, is revoked.
abbrev IsRevoked : GoString → Session → Type 0
IsRevoked id s = s.id ≡ id → is_some s.revoked_at ≡ true

All-write_row :
    (id other : GoString) (write : Session → Session) (rows : List Session)
    → ((s : Session) → IsRevoked id s → IsRevoked id (write s))
    → All (IsRevoked id) rows
    → All (IsRevoked id) (write_row session_id other write rows)
unfolding write_row
All-write_row id other write [] keeps h = tt
All-write_row id other write (s ∷ rows) keeps (hs, h) =
    let rest = All-write_row id other write rows keeps h in
    elim (Bool-cases (s.id == other)) [ inl e ↦ rw e (keeps s hs, rest) | inr e ↦ rw e (hs, rest) ]

write_row-revokes :
    (id : GoString) (at : ℕ) (rows : List Session)
    → All (IsRevoked id) (
        write_row session_id id (λ s. record s { revoked_at = first_instant s.revoked_at at }) rows)
unfolding write_row
write_row-revokes id at [] = tt
write_row-revokes id at (s ∷ rows) =
    let rest = write_row-revokes id at rows in
    elim (Bool-cases (s.id == id)) [
      | inl e ↦ rw e ((λ same. ground arith), rest)
      | inr e ↦ rw e ((λ same. ground arith), rest)
    ]

absent-IsRevoked :
    (id : GoString) (rows : List Session)
    → All (λ s. (s.id == id) ≡ false) rows
    → All (IsRevoked id) rows
absent-IsRevoked id [] h = tt
absent-IsRevoked id (s ∷ rows) (e, h) = ((λ same. ground arith), absent-IsRevoked id rows h)

write_session-IsRevoked :
    (id other : GoString) (write : Session → Session) (d : Directory)
    → ((s : Session) → IsRevoked id s → IsRevoked id (write s))
    → All (IsRevoked id) d.sessions
    → All (IsRevoked id) (write_session other write d).0.sessions
write_session-IsRevoked id other write d keeps h =
    elim (Bool-cases (is_some (find (λ s. s.id == other) d.sessions))) [
      | inl e ↦ rw e (All-write_row id other write d.sessions keeps h)
      | inr e ↦ rw e h
    ]

revoke-IsRevoked :
    (id : GoString) (at : ℕ) (d : Directory) → All (IsRevoked id) (revoke id at d).0.sessions
unfolding revoke revoke_session
revoke-IsRevoked id at d = elim (Bool-cases (is_some (find (λ s. s.id == id) d.sessions))) [
  | inl e ↦ rw e (write_row-revokes id at d.sessions)
  | inr e ↦
      rw e (absent-IsRevoked id d.sessions (find-none (λ s. s.id == id) d.sessions (ground arith)))
]

revoke_keeps :
    (id other : GoString) (at : ℕ) (d : Directory)
    → All (IsRevoked id) d.sessions
    → All (IsRevoked id) (revoke other at d).0.sessions
unfolding revoke revoke_session
revoke_keeps id other at d h = write_session-IsRevoked id other _ d (λ s k same. ground arith) h

note_use_keeps :
    (id : GoString) (now : ℕ) (d : Directory) (r : Result AuthError Principal)
    → All (IsRevoked id) d.sessions
    → All (IsRevoked id) (note_use now r d).sessions
unfolding touch_session
note_use_keeps id now d (err e) h = h
note_use_keeps id now d (ok p) h = write_session-IsRevoked id p.session.id _ d (λ s k. k) h

module _ (hash : GoString → GoString) (sources : TenantId → Option Policy) where
  run_calls_keep :
      (id : GoString) (cs : List AuthCall) (d : Directory)
      → All (IsRevoked id) d.sessions
      → All (IsRevoked id) (run_calls hash sources cs d).sessions
  unfolding run_calls authenticate
  run_calls_keep id [] d h = h
  run_calls_keep id (authenticates token now ∷ cs) d h =
      run_calls_keep id cs _ (note_use_keeps id now d (resolve hash sources now token d) h)
  run_calls_keep id (revokes other now ∷ cs) d h =
      run_calls_keep id cs (revoke other now d).0 (revoke_keeps id other now d h)

  -- Once a session was revoked, and whatever tokens are authenticated and sessions revoked after that,
  -- nobody is let in by that session at any instant.
  pub revoke-authenticate :
      (id : GoString) (at now : ℕ) (cs : List AuthCall) (d : Directory) (token : GoString)
      (p : Principal)
      → (authenticate hash sources now token (run_calls hash sources cs (revoke id at d).0)).1
        ≡ ok p
      → p.session.id ≢ id
  unfolding is_active
  revoke-authenticate id at now cs d token p e same =
      let after = run_calls hash sources cs (revoke id at d).0 in
      let granted = authenticate-IsGranted hash sources now token after p e in
      let kept = run_calls_keep id cs (revoke id at d).0 (revoke-IsRevoked id at d) in
      let gone = All_of_mem (IsRevoked id) granted.session_stored kept same in
      let live = granted.active in absurd (ground arith)
