-- ===== src/Auth/Tests.antt =====
-- Accounts and sessions on concrete tables.
use live_ops_backend.Prelude.{
  ℕ, String, ◌==◌, ◌≡◌, refl, true, false, List, [], ◌∷◌, none, some, ok, throw, arith, ◌+◌,
  unauthorized, locked_out,
}
use live_ops_backend.Guards.{codes}
use live_ops_backend.Prelude.Table.{Table, list_table}
use live_ops_backend.Auth.Store.{User, Session, Fresh, Services, State, generate_tokens}
use live_ops_backend.Auth.Login.{pending, login, logged_in, lockout_ms, minutes_left}
use live_ops_backend.Auth.Login.Lockout.{logins, lockout_after_five}
use live_ops_backend.Auth.Login.Success.{Admitted, login-Admitted}
use live_ops_backend.Auth.Refresh.{refresh}
use live_ops_backend.Auth.Refresh.Reuse.{AllRevoked, refresh-twice}
use live_ops_backend.Auth.Totp.{base32_decode, verify_totp_token}
use live_ops_backend.Auth.TwoFactor.{bearer, login_with_two_factor}
use live_ops_backend.Auth.TwoFactor.Checked.{
  Seconded, login_with_two_factor-Seconded, pending_is_bearer,
}

-- the example hash of RFC 4226, whose code is 872921
abbrev rfc_hash : List ℕ
rfc_hash =
    31 ∷ 134 ∷ 152 ∷ 105 ∷ 14 ∷ 2 ∷ 202 ∷ 22 ∷ 97 ∷ 133 ∷ 80 ∷ 239 ∷ 127 ∷ 25 ∷ 218 ∷ 142 ∷ 148 ∷ 91
    ∷ 85 ∷ 90 ∷ []

abbrev services : Services
services = record {
  compare = λ given stored. given == stored;
  hash = λ p. p;
  sign = λ now ttl c. c.sub;
  verify = λ now t. some (pending t);
  crypto = record { hmac = λ key message. rfc_hash; utf8 = codes; to_upper_case = λ t. t };
  normal_email = λ e. e;
}

abbrev users : Table User
users = list_table (λ (u : User). u.id)

abbrev sessions : Table Session
sessions = list_table (λ (x : Session). x.id)

abbrev ana : User
ana = record {
  id = "u1";
  email = "ana@tv";
  password = "secret";
  is_verified = true;
  verification_token = none;
  verification_expires_at = none;
  deleted_at = none;
  tenant_id = none;
  global_role_id = none;
  two_factor_enabled = false;
  two_factor_secret = none;
  login_attempts = 0;
  locked_until = none;
}

abbrev open_session : Session
open_session = record {
  id = "s1";
  user_id = "u1";
  refresh_token = "r1";
  expires_at = 1000;
  is_revoked = false;
}

abbrev start : State services users sessions
start = record { users = ana ∷ []; sessions = open_session ∷ []; audit = [] }

abbrev fresh : Fresh
fresh = record { session_id = "s2"; token = "r2" }

abbrev four_tries : List (ℕ × String)
four_tries = (1, "a") ∷ (2, "b") ∷ (3, "c") ∷ (4, "d") ∷ []

lockout_example :
    let s' =
      (login services users sessions 5 fresh "ana@tv" "e"
        (logins services users sessions (λ u. refl) "ana@tv" fresh four_tries start)).1 in
    login services users sessions 6 fresh "ana@tv" "secret" s'
    ≡ (throw (locked_out (minutes_left 6 (some (5 + lockout_ms)))), s')
lockout_example =
    lockout_after_five services users sessions (λ u. refl) "ana@tv" fresh four_tries 5 "e" start ana
      refl refl refl refl refl (refl, (refl, (refl, (refl, tt)))) refl 6 "secret" (omega arith)

abbrev after_login : State services users sessions
unfolding login generate_tokens
after_login = (login services users sessions 9 fresh "ana@tv" "secret" start).1

login-Admitted_example :
    Admitted services users sessions 9 fresh "ana@tv" "secret" start after_login
unfolding login generate_tokens
login-Admitted_example =
    login-Admitted services users sessions 9 fresh "ana@tv" "secret" start after_login
      (logged_in (some ana) (record { access_token = "u1"; refresh_token = "r2" })) refl

abbrev after_refresh : State services users sessions
unfolding refresh generate_tokens
after_refresh = (refresh services users sessions 9 fresh "r1" start).1

refresh-twice_example :
    let (reply, s'') = refresh services users sessions 10 fresh "r1" after_refresh in
    (reply
      ≡ throw (unauthorized "Sesión inválida. Por seguridad, cierra sesión y vuelve a iniciar."))
    × AllRevoked services users sessions (λ x. refl) "u1" (sessions.rows s''.sessions)
    × (s''.users ≡ after_refresh.users)
unfolding refresh generate_tokens
refresh-twice_example =
    refresh-twice services users sessions (λ x. refl) 9 fresh "r1" start after_refresh
      (record { access_token = "u1"; refresh_token = "r2" }) open_session refl refl refl 10 fresh
      (omega arith)

abbrev guarded : User
guarded = record ana { two_factor_enabled = true; two_factor_secret = some "MFRGGZDF" }

abbrev guarded_start : State services users sessions
guarded_start = record start { users = guarded ∷ [] }

abbrev after_first : State services users sessions
unfolding login generate_tokens
after_first = (login services users sessions 9 fresh "ana@tv" "secret" guarded_start).1

pending_is_bearer_example :
    bearer services users sessions 10 "u1" ≡ some (record { user_id = "u1"; tenant_id = none })
unfolding login generate_tokens
pending_is_bearer_example =
    pending_is_bearer services users sessions 9 10 fresh "ana@tv" "secret" "u1" guarded_start
      after_first guarded refl refl (omega arith) (λ soon. refl)

abbrev after_second : State services users sessions
unfolding login_with_two_factor generate_tokens verify_totp_token
after_second =
    (login_with_two_factor services users sessions 10 fresh "u1" "872921" guarded_start).1

login_with_two_factor_example : Seconded services users sessions 10 "u1" "872921" guarded_start
unfolding login_with_two_factor generate_tokens verify_totp_token
login_with_two_factor_example =
    login_with_two_factor-Seconded services users sessions 10 fresh "u1" "872921" guarded_start
      after_second (logged_in (some guarded) (record { access_token = "u1"; refresh_token = "r2" }))
      refl

decodes : base32_decode services.crypto "MFRGGZDF" ≡ ok (97 ∷ 98 ∷ 99 ∷ 100 ∷ 101 ∷ [])
unfolding base32_decode
decodes = refl
