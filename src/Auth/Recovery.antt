-- ===== src/Auth/Recovery.antt =====
-- Password recovery and email verification: src/auth/password.service.ts and
-- src/auth/email-verification.service.ts. Tokens and codes are fresh random values, arguments.
pub mod Once
mod Tests
use live_ops_backend.Prelude.{
  ℕ, zero, ◌+◌, ◌*◌, String, ◌==◌, Bool, true, false, not, List, [], ◌∷◌, ◌++◌, Option, none, some,
  Outcome, ok, throw, bad_request, not_found, record_missing, if◌then◌else◌, ltb, eqb, length, M,
  ◌>>=◌, ◌>>◌, throw_if, require, return,
}
use live_ops_backend.Prelude.Table.{Table}
use live_ops_backend.Auth.Store.{User, Services}

pub record PasswordReset : Type 0 where
  pub email : String
  pub token : String
  pub expires_at : ℕ

-- mails, by kind: the address, and the token or code
pub data Mail : Type 0 where
  password_reset_mail verification_mail : String → String → Mail

pub record RecoveryState (U R : Type 0) : Type 0 where
  pub users : U
  pub resets : R
  pub mails : List Mail

-- `!resetRecord || resetRecord.expiresAt < new Date()`
abbrev pub usable : ℕ → Option PasswordReset → Option PasswordReset
usable now none = none
usable now (some r) = if ltb r.expires_at now then none else some r

abbrev pub has_expired : ℕ → Option ℕ → Bool
has_expired now none = false
has_expired now (some t) = ltb t now

-- `user.verificationToken === token`
abbrev pub has_code : String → User → Bool
has_code token u = elim u.verification_token [ none ↦ false | some t ↦ t == token ]

abbrev pub verified : User → User
verified u = record u {
  is_verified = true;
  verification_token = none;
  verification_expires_at = none;
}

module _ (services : Services) (users : Table User) (resets : Table PasswordReset) where
  abbrev pub Recovery : Type 0
  Recovery = RecoveryState users.Store resets.Store

  abbrev pub with_password : String → User → User
  with_password password u = record u {
    password = services.hash password;
    login_attempts = zero;
    locked_until = none;
  }

  abbrev pub find_account : (User → Bool) → M Recovery (Option User)
  find_account p s = (ok (users.find_first p s.users), s)

  abbrev pub write_account : String → (User → User) → M Recovery (Unit {0})
  write_account id f s = elim (users.update id f s.users) [
    | none ↦ (throw record_missing, s)
    | some (u, store) ↦ (ok tt, record s { users = store })
  ]

  abbrev pub find_reset : String → M Recovery (Option PasswordReset)
  find_reset token s = (ok (resets.find_first (λ r. r.token == token) s.resets), s)

  abbrev pub delete_reset : String → M Recovery (Unit {0})
  delete_reset token s = elim (resets.delete token s.resets) [
    | none ↦ (throw record_missing, s)
    | some store ↦ (ok tt, record s { resets = store })
  ]

  -- `passwordReset.upsert({ where: { token } })`
  abbrev pub upsert_reset : PasswordReset → M Recovery (Unit {0})
  upsert_reset r s =
      elim (resets.update r.token (λ old. record old { expires_at = r.expires_at }) s.resets) [
        | none ↦ (ok tt, record s { resets = resets.create r s.resets })
        | some (u, store) ↦ (ok tt, record s { resets = store })
      ]

  abbrev pub mail : Mail → M Recovery (Unit {0})
  mail m s = (ok tt, record s { mails = s.mails ++ m ∷ [] })

  abbrev pub offer_reset : ℕ → String → Option User → M Recovery (Unit {0})
  offer_reset now token none = return tt
  offer_reset now token (some u) = do
    upsert_reset (record { email = u.email; token = token; expires_at = now + 60 * 60 * 1000 })
    mail (password_reset_mail u.email token)

  unfoldable pub forgot_password : ℕ → String → String → M Recovery (Unit {0})
  forgot_password now token email = do
    found ← find_account (λ u. u.email == services.normal_email email)
    offer_reset now token found

  unfoldable pub reset_password : ℕ → String → String → String → M Recovery (Unit {0})
  reset_password now token password confirm = do
    throw_if (not (password == confirm)) (bad_request "Las contraseñas no coinciden")
    found ← find_reset token
    reset ←
        require (usable now found)
          (bad_request "El token de recuperación es inválido o ha expirado")
    account ← find_account (λ u. u.email == reset.email)
    user ← require account (not_found "Usuario no encontrado")
    write_account user.id (with_password password)
    delete_reset token

  unfoldable pub verify_email : ℕ → String → M Recovery (Unit {0})
  verify_email now token = do
    found ← find_account (has_code token)
    user ← require found (bad_request "Código de verificación inválido.")
    throw_if (has_expired now user.verification_expires_at)
        (bad_request "El código ha expirado. Solicita uno nuevo.")
    write_account user.id verified

  abbrev pub offer_code : ℕ → String → Option User → M Recovery (Unit {0})
  offer_code now code none = return tt
  offer_code now code (some u) = if u.is_verified then return tt else do
    write_account u.id (λ row. record row {
      verification_token = some code;
      verification_expires_at = some (now + 15 * 60 * 1000);
    })
    mail (verification_mail u.email code)

  unfoldable pub resend_verification : ℕ → String → String → M Recovery (Unit {0})
  resend_verification now code email = do
    found ← find_account (λ u. u.email == services.normal_email email)
    offer_code now code found

  unfoldable pub check_setup : Recovery → Bool
  check_setup s = eqb (length (users.find_many (λ u. true) s.users)) zero
