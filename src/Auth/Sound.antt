-- ===== src/Auth/Sound.antt =====
-- The statements of auth.go on sessions, under the invariant of the accounts.
use starfighter_workflow.Common.{
  ℕ, ◌+◌, ℤ, String, Bool, not, [], ◌∷◌, refl, arith, All-append, and_left, and_right,
}
use starfighter_workflow.Sql.Rows.{delete, count-update, count-where-le, All-update, All-where}
use starfighter_workflow.Db.{Db, SessionRow}
use starfighter_workflow.Db.Unique.{is_none, IsUnique-append}
use starfighter_workflow.Db.Keeps.{commit_if-keeps}
use starfighter_workflow.Auth.{
  has_token, new_session, insert_session, slide_session, is_live, session_ttl, delete_sessions,
}
use starfighter_workflow.Auth.Kept.{IsKept}
use starfighter_workflow.Auth.Accounts.{
  IsSound, insert_user-IsSound, update_user-IsSound, delete_user-IsSound,
}

insert_session-IsSound :
    (token : String) (id : ℤ) (t : ℕ) (d : Db) → IsSound d → IsSound (insert_session token id t d).1
unfolding insert_session
insert_session-IsSound token id t d s =
    let new = new_session token id t in
    commit_if-keeps IsSound _ _ _
      (λ allowed. record {
        keys = s.keys;
        names = s.names;
        roles = s.roles;
        tokens =
            IsUnique-append (λ x. x.token) d.sessions new s.tokens
              (is_none _ (and_left _ _ allowed));
        owners = All-append _ d.sessions (new ∷ []) s.owners (and_right _ _ allowed, tt);
      })
      s

slide_session-IsSound :
    (token : String) (t : ℕ) (d : Db) → IsSound d → IsSound (slide_session token t d).1
unfolding slide_session
slide_session-IsSound token t d s = record {
  keys = s.keys;
  names = s.names;
  roles = s.roles;
  tokens = λ k.
      rw (count-update (has_token k) (is_live token t) slid d.sessions (λ x _. refl)) (s.tokens k);
  owners = All-update _ (is_live token t) slid d.sessions (λ x _ h. h) s.owners;
}
  where
    slid : SessionRow → SessionRow
    slid x = record x { expires_at = t + session_ttl }

delete_sessions-IsSound :
    (p : SessionRow → Bool) (d : Db) → IsSound d → IsSound (delete_sessions p d).1
unfolding delete_sessions delete
delete_sessions-IsSound p d s = record {
  keys = s.keys;
  names = s.names;
  roles = s.roles;
  tokens = λ k. omega (arith, count-where-le (has_token k) (λ x. not (p x)) d.sessions, s.tokens k);
  owners = All-where _ _ d.sessions s.owners;
}

pub IsSound-IsKept : IsKept IsSound
IsSound-IsKept = record {
  insert_user-keeps = insert_user-IsSound;
  update_user-keeps = update_user-IsSound;
  delete_user-keeps = delete_user-IsSound;
  insert_session-keeps = insert_session-IsSound;
  slide_session-keeps = slide_session-IsSound;
  delete_sessions-keeps = delete_sessions-IsSound;
}
