-- ===== src/Ssh/Offers.antt =====
-- To which hosts the client offers a credential.
use netops_console.Prelude.{
  ℕ, ◌≡◌, ◌≢◌, refl, inl, inr, Option, none, some, ok, Result-cases, arith, All,
}
use netops_console.Prelude.Text.{Text}
use netops_console.Crypto.{Fernet}
use netops_console.Ssh.{
  Asyncssh, Connection, completed, host_key_not_verifiable, permission_denied, timed_out,
  connection_failed, Contact, probed, connected, SshResult, Login, Options, presented,
  probe_host_key, options, options_for, outcome, run_command,
}

-- A contact that carries a login answers `known_hosts` with the trusted key and no other.
abbrev pub Verified : Asyncssh → Option Text → Contact → Type 0
Verified lib trusted (probed host port) = Unit
Verified lib trusted (connected host port o command) =
    (text : Text) × (trusted ≡ some text) × (lib.import_public_key text ≡ some o.known_hosts)

module _ (lib : Asyncssh) where
  options-known_hosts :
      (fernet : Fernet) (login : Login) (trusted : Text) (o : Options)
      → options lib fernet login trusted ≡ ok o
      → lib.import_public_key trusted ≡ some o.known_hosts
  unfolding options options_for
  options-known_hosts fernet login trusted o h = ground arith

  outcome-Verified :
      (host : Text) (port : ℕ) (trusted : Text) (text : Option Text) (connection : Connection)
      → All (Verified lib text) (outcome lib host port trusted connection).0
  unfolding outcome probe_host_key
  outcome-Verified host port trusted text (completed status out errors) = tt
  outcome-Verified host port trusted text host_key_not_verifiable = (tt, tt)
  outcome-Verified host port trusted text permission_denied = tt
  outcome-Verified host port trusted text timed_out = tt
  outcome-Verified host port trusted text connection_failed = tt

  -- Whatever host and command, every connection of `run_command` is made with the one key that its
  -- caller trusts as the only host key accepted. Without a trusted key there is none.
  pub run_command-Verified :
      (fernet : Fernet) (host : Text) (port : ℕ) (command : Text) (login : Login)
      (trusted : Option Text)
      → All (Verified lib trusted) (run_command lib fernet host port command login trusted).0
  unfolding run_command probe_host_key
  run_command-Verified fernet host port command login none =
      elim (Result-cases (presented lib (lib.get_server_host_key host port))) [
        | inl (key, e) ↦ rw e (tt, tt)
        | inr (e, h) ↦ rw h (tt, tt)
      ]
  run_command-Verified fernet host port command login (some text) =
      elim (Result-cases (options lib fernet login text)) [
        | inl (o, e) ↦ rw e (
          (text, refl, options-known_hosts fernet login text o e),
          outcome-Verified host port text (some text) (lib.connect host port o command),
        )
        | inr (e, h) ↦ rw h tt
      ]

  -- A command that returned a result ran with a trusted key.
  pub run_command-Trusted :
      (fernet : Fernet) (host : Text) (port : ℕ) (command : Text) (login : Login)
      (trusted : Option Text) (result : SshResult)
      → (run_command lib fernet host port command login trusted).1 ≡ ok result
      → trusted ≢ none
  unfolding run_command probe_host_key presented
  run_command-Trusted fernet host port command login none result h =
      elim (Result-cases (presented lib (lib.get_server_host_key host port))) [
        | inl (key, e) ↦ ground arith
        | inr (e, k) ↦ ground arith
      ]
  run_command-Trusted fernet host port command login (some text) result h = λ e. cc
