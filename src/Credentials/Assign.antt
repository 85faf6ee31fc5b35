-- ===== src/Credentials/Assign.antt =====
-- What assigning and unassigning do to the credentials of a device.
use netops_console.Prelude.{
  ℕ, ◌≡◌, refl, ap, Bool, true, false, not, ◌&&◌, ◌||◌, List, [], ◌∷◌, ◌++◌, keep, any, ◌==◌, arith,
}
use netops_console.Credentials.{DeviceCredential, Tables, assigns, assign, unassign}

abbrev pub assigned : ℕ → ℕ → Tables → Bool
assigned device_id credential_id t = any (assigns device_id credential_id) t.assignments

any_last :
    (d c : ℕ) (row : DeviceCredential) (xs : List DeviceCredential)
    → any (assigns d c) (xs ++ row ∷ []) ≡ (any (assigns d c) xs || assigns d c row)
unfolding any
any_last d c row [] = ground arith
any_last d c row (x ∷ xs) = ground (arith, any_last d c row xs)

keep_last :
    (row : DeviceCredential) (xs : List DeviceCredential)
    → any (assigns row.device_id row.credential_id) xs ≡ false
    → keep (λ a. not (assigns row.device_id row.credential_id a)) (xs ++ row ∷ []) ≡ xs
unfolding any keep assigns
keep_last row [] h = ground arith
keep_last row (x ∷ xs) h = ground (arith, keep_last row xs)

any_kept :
    (d c other credential_id : ℕ) (xs : List DeviceCredential)
    → any (assigns other credential_id) (keep (λ a. not (assigns d c a)) xs)
      ≡ (any (assigns other credential_id) xs && not (d == other && c == credential_id))
unfolding any keep assigns
any_kept d c other credential_id [] = refl
any_kept d c other credential_id (x ∷ xs) = ground (arith, any_kept d c other credential_id xs)

-- After `assign` a device has the credential and every one that it had, other devices' are as they
-- were, and the answer says whether that changed anything.
pub assigned-assign :
    (device_id credential_id : ℕ) (t : Tables) (other credential : ℕ)
    → (assigned other credential (assign device_id credential_id t).1
        ≡ (assigned other credential t || device_id == other && credential_id == credential))
      × ((assign device_id credential_id t).0 ≡ not (assigned device_id credential_id t))
unfolding assign assigns
assigned-assign device_id credential_id t other credential =
    let row : DeviceCredential = record { device_id = device_id; credential_id = credential_id } in
    ground (arith, any_last other credential row t.assignments)

-- After `unassign` a device no longer has the credential, and everything else is as it was. The
-- answer says whether that changed anything.
pub assigned-unassign :
    (device_id credential_id : ℕ) (t : Tables) (other credential : ℕ)
    → (assigned other credential (unassign device_id credential_id t).1
        ≡ (assigned other credential t && not (device_id == other && credential_id == credential)))
      × ((unassign device_id credential_id t).0 ≡ assigned device_id credential_id t)
unfolding unassign assigns
assigned-unassign device_id credential_id t other credential =
    ground (arith, any_kept device_id credential_id other credential t.assignments)

-- Unassigning a credential that a device did not have before it was assigned gives back the tables.
pub unassign-assign :
    (device_id credential_id : ℕ) (t : Tables)
    → assigned device_id credential_id t ≡ false
    → unassign device_id credential_id (assign device_id credential_id t).1 ≡ (true, t)
unfolding assign unassign assigns
unassign-assign device_id credential_id t h =
    let row : DeviceCredential = record { device_id = device_id; credential_id = credential_id } in
    let found : any (assigns device_id credential_id) (t.assignments ++ row ∷ []) ≡ true =
      ground (arith, any_last device_id credential_id row t.assignments) in
    rw (h, found)
      (ap (λ rows. (true, record t { assignments = rows })) (keep_last row t.assignments h))
