-- ===== src/Credentials/Unique.antt =====
-- Which tables the operations can reach: the unique constraints and the foreign key of
-- `app/models/credential.py` hold of them.
use netops_console.Prelude.{
  ℕ, suc, ◌<◌, ◌≡◌, inl, inr, Bool, true, false, not, Option, none, List, [], ◌∷◌, ◌++◌, any, keep,
  first, ◌==◌, ok, Bool-cases, Option-cases, arith, All, All-mono, All-append, All-keep,
}
use netops_console.Prelude.Sort.{Distinct, Distinct-append, Distinct-keep, any_none}
use netops_console.Prelude.Text.{Text, eqb, eqb_iff}
use netops_console.Crypto.{Fernet}
use netops_console.Ssh.{Asyncssh, PresentedKey}
use netops_console.Credentials.{
  Credential, DeviceCredential, SshHostKey, Tables, NewCredential, create, credential_row, has_name,
  assign, unassign, assigns, delete_credential, trust, host_key_row, replace, of_type,
  revoke_host_key,
}

abbrev pub same_name : Credential → Credential → Bool
same_name c d = has_name d.name c

abbrev pub same_pair : DeviceCredential → DeviceCredential → Bool
same_pair a b = assigns b.device_id b.credential_id a

abbrev pub same_slot : SshHostKey → SshHostKey → Bool
same_slot k l = of_type l.device_id l.key_type k

abbrev pub stored : List Credential → ℕ → Bool
stored credentials id = any (λ (c : Credential). c.id == id) credentials

pub record WellFormed (t : Tables) : Type 0 where
  -- Names are unique, and so are a device's pairs with its credentials and its types of key.
  pub names : Distinct same_name t.credentials
  pub pairs : Distinct same_pair t.assignments
  pub slots : Distinct same_slot t.host_keys
  -- The next primary key is larger than each one in use.
  pub fresh : All (λ (c : Credential). c.id < t.next_id) t.credentials
  -- Each assignment is of a credential that is stored.
  pub known :
      All (λ (a : DeviceCredential). stored t.credentials a.credential_id ≡ true) t.assignments

any_append :
    {A : Type 0} (p : A → Bool) (xs ys : List A) → any p xs ≡ true → any p (xs ++ ys) ≡ true
unfolding any
any_append p [] ys h = cc
any_append p (x ∷ xs) ys h = ground (arith, any_append p xs ys)

-- What a stored credential adds.
create-eq :
    (lib : Asyncssh) (fernet : Fernet) (new : NewCredential) (t t' : Tables) (row : Credential)
    → create lib fernet new t ≡ ok (row, t')
    → (t' ≡ record t { next_id = suc t.next_id; credentials = t.credentials ++ row ∷ [] })
      × (row.id ≡ t.next_id)
      × (any (has_name row.name) t.credentials ≡ false)
unfolding create credential_row
create-eq lib fernet new t t' row h = (ground arith, ground arith, ground arith)

appended-WellFormed :
    (t : Tables) (row : Credential)
    → WellFormed t
    → row.id ≡ t.next_id
    → any (has_name row.name) t.credentials ≡ false
    → WellFormed (record t { next_id = suc t.next_id; credentials = t.credentials ++ row ∷ [] })
appended-WellFormed t row wf id new_name = record {
  names =
      Distinct-append same_name t.credentials row wf.names
        (any_none (has_name row.name) t.credentials new_name);
  pairs = wf.pairs;
  slots = wf.slots;
  fresh =
      All-append _ t.credentials (row ∷ [])
        (All-mono _ _ (λ (c : Credential) h. omega (arith, h)) t.credentials wf.fresh)
        (omega (arith, id), tt);
  known = All-mono _ _ (λ a h. any_append _ t.credentials (row ∷ []) h) t.assignments wf.known;
}

pub create-WellFormed :
    (lib : Asyncssh) (fernet : Fernet) (new : NewCredential) (t t' : Tables) (row : Credential)
    → WellFormed t
    → create lib fernet new t ≡ ok (row, t')
    → WellFormed t'
create-WellFormed lib fernet new t t' row wf h =
    let (same, id, new_name) = create-eq lib fernet new t t' row h in
    rw same (appended-WellFormed t row wf id new_name)

pub assign-WellFormed :
    (device_id credential_id : ℕ) (t : Tables)
    → WellFormed t
    → stored t.credentials credential_id ≡ true
    → WellFormed (assign device_id credential_id t).1
unfolding assign
assign-WellFormed device_id credential_id t wf exists =
    elim (Bool-cases (any (assigns device_id credential_id) t.assignments)) [
      | inl e ↦ rw e wf
      | inr e ↦ rw e (record {
        names = wf.names;
        pairs = Distinct-append same_pair t.assignments _ wf.pairs (any_none _ t.assignments e);
        slots = wf.slots;
        fresh = wf.fresh;
        known = All-append _ t.assignments _ wf.known (exists, tt);
      })
    ]

pub unassign-WellFormed :
    (device_id credential_id : ℕ) (t : Tables)
    → WellFormed t
    → WellFormed (unassign device_id credential_id t).1
unfolding unassign
unassign-WellFormed device_id credential_id t wf =
    elim (Bool-cases (any (assigns device_id credential_id) t.assignments)) [
      | inl e ↦ rw e (record {
        names = wf.names;
        pairs = Distinct-keep same_pair _ t.assignments wf.pairs;
        slots = wf.slots;
        fresh = wf.fresh;
        known = All-keep _ _ t.assignments wf.known;
      })
      | inr e ↦ rw e wf
    ]

pub revoke_host_key-WellFormed :
    (device_id : ℕ) (t : Tables) → WellFormed t → WellFormed (revoke_host_key device_id t).1
unfolding revoke_host_key
revoke_host_key-WellFormed device_id t wf = record {
  names = wf.names;
  pairs = wf.pairs;
  slots = Distinct-keep same_slot _ t.host_keys wf.slots;
  fresh = wf.fresh;
  known = wf.known;
}

-- Another credential stays stored when one is deleted.
stored-keep :
    (gone id : ℕ) (cs : List Credential)
    → (id == gone) ≡ false
    → stored cs id ≡ true
    → stored (keep (λ (c : Credential). not (c.id == gone)) cs) id ≡ true
unfolding any keep
stored-keep gone id [] other h = cc
stored-keep gone id (c ∷ cs) other h = ground (arith, stored-keep gone id cs other)

kept-known :
    (gone : ℕ) (cs : List Credential) (rows : List DeviceCredential)
    → All (λ (a : DeviceCredential). stored cs a.credential_id ≡ true) rows
    → All
        (λ (a : DeviceCredential).
          stored (keep (λ (c : Credential). not (c.id == gone)) cs) a.credential_id ≡ true)
        (keep (λ (a : DeviceCredential). not (a.credential_id == gone)) rows)
unfolding keep
kept-known gone cs [] h = tt
kept-known gone cs (a ∷ rows) h = elim (Bool-cases (a.credential_id == gone)) [
  | inl e ↦ rw (e, keep) (kept-known gone cs rows h.1)
  | inr e ↦ rw (e, keep) (stored-keep gone a.credential_id cs e h.0, kept-known gone cs rows h.1)
]

pub delete_credential-WellFormed :
    (credential_id : ℕ) (t : Tables) → WellFormed t → WellFormed (delete_credential credential_id t)
unfolding delete_credential
delete_credential-WellFormed credential_id t wf = record {
  names = Distinct-keep same_name _ t.credentials wf.names;
  pairs = Distinct-keep same_pair _ t.assignments wf.pairs;
  slots = wf.slots;
  fresh = All-keep _ _ t.credentials wf.fresh;
  known = kept-known credential_id t.credentials t.assignments wf.known;
}

-- A replaced row keeps its slot, so that it is free in the rows it was free in.
of_type-slot :
    (row k l : SshHostKey)
    → of_type row.device_id row.key_type k ≡ true
    → same_slot k l ≡ false
    → same_slot row l ≡ false
unfolding of_type
of_type-slot row k l h other =
    ground (arith, eqb_iff k.key_type row.key_type, eqb_iff k.key_type l.key_type)

All-replace :
    (P : SshHostKey → Type 0) (row : SshHostKey) (ks : List SshHostKey)
    → All P ks
    → P row
    → All P (replace row ks)
unfolding replace
All-replace P row [] h new = tt
All-replace P row (k ∷ ks) h new = elim (Bool-cases (of_type row.device_id row.key_type k)) [
  | inl e ↦ rw (e, All) (new, h.1)
  | inr e ↦ rw (e, All) (h.0, All-replace P row ks h.1 new)
]

Distinct-replace :
    (row : SshHostKey) (ks : List SshHostKey)
    → Distinct same_slot ks
    → Distinct same_slot (replace row ks)
unfolding replace
Distinct-replace row [] h = tt
Distinct-replace row (k ∷ ks) h = elim (Bool-cases (of_type row.device_id row.key_type k)) [
  | inl e ↦ rw (e, Distinct) (All-mono _ _ (λ l other. of_type-slot row k l e other) ks h.0, h.1)
  | inr e ↦
      rw (e, Distinct)
        (All-replace (λ l. same_slot k l ≡ false) row ks h.0 e, Distinct-replace row ks h.1)
]

with_slots :
    (t : Tables) (ks : List SshHostKey)
    → WellFormed t
    → Distinct same_slot ks
    → WellFormed (record t { host_keys = ks })
with_slots t ks wf slots = record {
  names = wf.names;
  pairs = wf.pairs;
  slots = slots;
  fresh = wf.fresh;
  known = wf.known;
}

first_missing :
    {A : Type 0} (p : A → Bool) (xs : List A) → first p xs ≡ none → All (λ x. p x ≡ false) xs
unfolding first
first_missing p [] h = tt
first_missing p (x ∷ xs) h = (ground arith, first_missing p xs (ground arith))

pub trust-WellFormed :
    (now device_id : ℕ) (key : PresentedKey) (user_id : Option ℕ) (username : Option Text)
    (t : Tables)
    → WellFormed t
    → WellFormed (trust now device_id key user_id username t).1
unfolding trust host_key_row
trust-WellFormed now device_id key user_id username t wf =
    let row = host_key_row now device_id key user_id username in
    elim (Option-cases (first (of_type device_id key.key_type) t.host_keys)) [
      | inl e ↦ rw e (
          with_slots t _ wf
            (Distinct-append same_slot t.host_keys row wf.slots (first_missing _ t.host_keys e)))
      | inr (existing, e) ↦ elim (Bool-cases (eqb existing.key_base64 key.key_base64)) [
        | inl k ↦ rw (e, k) wf
        | inr k ↦ rw (e, k) (with_slots t _ wf (Distinct-replace row t.host_keys wf.slots))
      ]
    ]
