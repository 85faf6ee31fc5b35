-- ===== src/Credentials/Reach.antt =====
-- Every state of the tables of credentials that the service reaches from empty tables.
use netops_console.Prelude.{ℕ, ◌≡◌, true, Option, [], ok}
use netops_console.Prelude.Text.{Text}
use netops_console.Crypto.{Fernet}
use netops_console.Ssh.{Asyncssh, PresentedKey}
use netops_console.Credentials.{
  Credential, Tables, NewCredential, create, assign, unassign, delete_credential, trust,
  revoke_host_key,
}
use netops_console.Credentials.Unique.{
  WellFormed, stored, create-WellFormed, assign-WellFormed, unassign-WellFormed,
  revoke_host_key-WellFormed, delete_credential-WellFormed, trust-WellFormed,
}

-- A call of the service. The route assigns only a credential that it has read.
pub data Step (lib : Asyncssh) (fernet : Fernet) : Tables → Tables → Type 0 where
  created :
      (t t' : Tables) (new : NewCredential) (row : Credential)
      → create lib fernet new t ≡ ok (row, t')
      → Step lib fernet t t'
  assigned :
      (t : Tables) (device_id credential_id : ℕ)
      → stored t.credentials credential_id ≡ true
      → Step lib fernet t (assign device_id credential_id t).1
  unassigned :
      (t : Tables) (device_id credential_id : ℕ)
      → Step lib fernet t (unassign device_id credential_id t).1
  deleted : (t : Tables) (credential_id : ℕ) → Step lib fernet t (delete_credential credential_id t)
  trusted :
      (t : Tables) (now device_id : ℕ) (key : PresentedKey) (user_id : Option ℕ)
      (username : Option Text)
      → Step lib fernet t (trust now device_id key user_id username t).1
  revoked : (t : Tables) (device_id : ℕ) → Step lib fernet t (revoke_host_key device_id t).1

pub data Reach (lib : Asyncssh) (fernet : Fernet) : Tables → Type 0 where
  here :
      Reach lib fernet (record { next_id = 1; credentials = []; assignments = []; host_keys = [] })
  next : {t u : Tables} → Reach lib fernet t → Step lib fernet t u → Reach lib fernet u

module _ (lib : Asyncssh) (fernet : Fernet) where
  Step-WellFormed : {t u : Tables} → Step lib fernet t u → WellFormed t → WellFormed u
  Step-WellFormed (created t t' new row h) wf = create-WellFormed lib fernet new t t' row wf h
  Step-WellFormed (assigned t d c h) wf = assign-WellFormed d c t wf h
  Step-WellFormed (unassigned t d c) wf = unassign-WellFormed d c t wf
  Step-WellFormed (deleted t c) wf = delete_credential-WellFormed c t wf
  Step-WellFormed (trusted t now d key u n) wf = trust-WellFormed now d key u n t wf
  Step-WellFormed (revoked t d) wf = revoke_host_key-WellFormed d t wf

  -- In every state that the service reaches from empty tables, by any of its calls in any order,
  -- the names of credentials are unique, a credential is assigned to a device at most once, a device
  -- has at most one trusted key of each type, primary keys are below the next one, and each
  -- assignment is of a stored credential.
  pub Reach-WellFormed : {t : Tables} → Reach lib fernet t → WellFormed t
  Reach-WellFormed here = record { names = tt; pairs = tt; slots = tt; fresh = tt; known = tt }
  Reach-WellFormed (next r s) = Step-WellFormed s (Reach-WellFormed r)
