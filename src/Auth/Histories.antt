-- ===== src/Auth/Histories.antt =====
-- Histories of sign-ins and sessions: any sequence of calls of the handlers of src/auth/auth.service.ts
-- and of checks of access tokens, one at a time, in any order and at any times.
pub mod Ending
pub mod Resetting
pub mod Changing
pub mod Spending
pub mod Leaving
use edu_gear_back_end.Common.{ℕ}
use edu_gear_back_end.Common.Text.{Text}
use edu_gear_back_end.Auth.Store.{AuthStore}
use edu_gear_back_end.Auth.Access.Caching.{IsCoherent}
use edu_gear_back_end.Auth.Tokens.{AccessToken, Draw}
use edu_gear_back_end.Auth.Tokens.Families.{HasLoneTokens}
use edu_gear_back_end.Auth.Login.{AuthConfig, LoginDto, login}
use edu_gear_back_end.Auth.Sessions.{
  AuthContext, refresh, logout, logout_all, switch_school, forgot_password, reset_password,
  change_password, verify_email, resend_verification,
}
use edu_gear_back_end.Auth.Strategy.{validate}
use edu_gear_back_end.Auth.Writes.{Writes, nothing, then, Writes-append}
use edu_gear_back_end.Auth.Writes.Handlers.{
  IsNewFamily, login-Writes, refresh-Writes, logout-Writes, logout_all-Writes,
}
use edu_gear_back_end.Auth.Writes.Links.{
  switch_school-Writes, forgot_password-Writes, resend_verification-Writes, reset_password-Writes,
  change_password-Writes, verify_email-Writes, validate-Writes,
}
use edu_gear_back_end.Auth.Writes.Keeping.{IsAtLeast, Write-IsAtLeast, Write-HasLoneTokens}
use edu_gear_back_end.Auth.Writes.Fresh.{Write-IsCoherent}

pub data Step (c : AuthConfig) (s : AuthStore) : AuthStore → Type 0 where
  logged_in :
      (now : ℕ) (draw : Draw) (dto : LoginDto)
      → IsNewFamily draw s
      → Step c s (login c now draw dto s).1
  refreshed : (now : ℕ) (draw : Draw) (raw : ℕ) → Step c s (refresh c now draw raw s).1
  logged_out : (now raw : ℕ) → Step c s (logout c now raw s)
  logged_out_all : (now user : ℕ) → Step c s (logout_all c now user s)
  switched :
      (now : ℕ) (draw : Draw) (auth : AuthContext) (school : ℕ)
      → IsNewFamily draw s
      → Step c s (switch_school c now draw auth school s).1
  forgot : (now : ℕ) (draw : Draw) (email : ℕ) → Step c s (forgot_password c now draw email s)
  reset :
      (now salt raw : ℕ) (password : Text) → Step c s (reset_password c now salt raw password s).1
  changed :
      (now salt : ℕ) (auth : AuthContext) (current new : Text)
      → Step c s (change_password c now salt auth current new s).1
  verified : (now raw : ℕ) → Step c s (verify_email c now raw s).1
  resent : (now : ℕ) (draw : Draw) (email : ℕ) → Step c s (resend_verification c now draw email s)
  validated : (now : ℕ) (token : AccessToken) → Step c s (validate now token s).1

pub data Reach (c : AuthConfig) (s : AuthStore) : AuthStore → Type 0 where
  here : Reach c s s
  next : {t u : AuthStore} → Reach c s t → Step c t u → Reach c s u

module _ {c : AuthConfig} where
  Step-Writes : {s s' : AuthStore} → Step c s s' → Writes s s'
  Step-Writes {s} (logged_in now draw dto new) = login-Writes c now draw dto s new
  Step-Writes {s} (refreshed now draw raw) = refresh-Writes c now draw raw s
  Step-Writes {s} (logged_out now raw) = logout-Writes c now raw s
  Step-Writes {s} (logged_out_all now user) = logout_all-Writes c now user s
  Step-Writes {s} (switched now draw auth school new) =
      switch_school-Writes c now draw auth school s new
  Step-Writes {s} (forgot now draw email) = forgot_password-Writes c now draw email s
  Step-Writes {s} (reset now salt raw password) = reset_password-Writes c now salt raw password s
  Step-Writes {s} (changed now salt auth current new) =
      change_password-Writes c now salt auth current new s
  Step-Writes {s} (verified now raw) = verify_email-Writes c now raw s
  Step-Writes {s} (resent now draw email) = resend_verification-Writes c now draw email s
  Step-Writes {s} (validated now token) = validate-Writes now token s

-- A history is a sequence of writes, whatever the handlers answer or throw.
pub Reach-Writes : {c : AuthConfig} {s s' : AuthStore} → Reach c s s' → Writes s s'
Reach-Writes here = nothing
Reach-Writes (next r st) = Writes-append (Reach-Writes r) (Step-Writes st)

pub Writes-IsCoherent : {s s' : AuthStore} → Writes s s' → IsCoherent s → IsCoherent s'
Writes-IsCoherent nothing h = h
Writes-IsCoherent (then ws w) h = Write-IsCoherent w (Writes-IsCoherent ws h)

pub Writes-IsAtLeast :
    {s s' : AuthStore} (user version : ℕ)
    → Writes s s'
    → IsAtLeast user version s
    → IsAtLeast user version s'
Writes-IsAtLeast user version nothing h = h
Writes-IsAtLeast user version (then ws w) h =
    Write-IsAtLeast user version w (Writes-IsAtLeast user version ws h)

Writes-HasLoneTokens : {s s' : AuthStore} → Writes s s' → HasLoneTokens s → HasLoneTokens s'
Writes-HasLoneTokens nothing h = h
Writes-HasLoneTokens (then ws w) h = Write-HasLoneTokens w (Writes-HasLoneTokens ws h)

-- After any history of logins, refreshes, logouts, switches of school, password resets and changes,
-- verifications and checks of tokens, one at a time and with new families drawn, from rows where no
-- family has two live tokens, none has.
pub Reach-HasLoneTokens :
    {c : AuthConfig} {s s' : AuthStore} → Reach c s s' → HasLoneTokens s → HasLoneTokens s'
Reach-HasLoneTokens r = Writes-HasLoneTokens (Reach-Writes r)

-- After any such history from rows and a cache without a stale snapshot, every snapshot in the cache is
-- what the rows give.
pub Reach-IsCoherent :
    {c : AuthConfig} {s s' : AuthStore} → Reach c s s' → IsCoherent s → IsCoherent s'
Reach-IsCoherent r = Writes-IsCoherent (Reach-Writes r)
