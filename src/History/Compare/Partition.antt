-- ===== src/History/Compare/Partition.antt =====
-- The lists of a comparison divide the hosts of both scans among them.
use netops_console.Prelude.{
  suc, ◌+◌, ◌≡◌, refl, ◌∙◌, sym, inl, inr, Bool, true, false, not, List, [], ◌∷◌, ◌++◌, any, keep,
  length, if◌then◌else◌, eq_iff, Bool-cases, arith, All, All-keep, All-append,
}
use mathlib.Core.List.{Perm, perm_middle, perm_append_comm}
use mathlib.Core.List.Perm
use netops_console.Prelude.Sort.{sort, insert, sort-Perm, All-sort, Distinct}
use netops_console.Prelude.Text.{codes}
use netops_console.Discovery.Inventory.{Run}
use netops_console.History.Compare.{
  Row, Ipv6Lib, has_host_results, same_key, put_row, rows_from, hosts, in_network, by_address,
  RunComparison, host_changed, known, compare_hosts, compare_runs,
}

length-insert :
    {A : Type 0} (before : A → A → Bool) (x : A) (xs : List A)
    → length (insert before x xs) ≡ suc (length xs)
unfolding insert
length-insert before x [] = refl
length-insert before x (y ∷ ys) = ground (arith, length-insert before x ys)

pub length-sort :
    {A : Type 0} (before : A → A → Bool) (xs : List A) → length (sort before xs) ≡ length xs
unfolding sort
length-sort before [] = refl
length-sort before (x ∷ xs) =
    ground (arith, length-insert before x (sort before xs), length-sort before xs)

-- A test divides a list.
length-keep-not :
    {A : Type 0} (p : A → Bool) (xs : List A)
    → length (keep p xs) + length (keep (λ x. not (p x)) xs) ≡ length xs
unfolding keep
length-keep-not p [] = omega arith
length-keep-not p (x ∷ xs) = ground (arith, length-keep-not p xs)

same_key_sym : (a b : Row) → same_key a b ≡ same_key b a
unfolding same_key
same_key_sym a b =
    ground (
      arith,
      eq_iff a.seen.ip_address b.seen.ip_address,
      eq_iff b.seen.ip_address a.seen.ip_address,
    )

same_key_trans : (a b c : Row) → same_key a b ≡ true → same_key b c ≡ true → same_key a c ≡ true
unfolding same_key
same_key_trans a b c h k = ground (
  arith,
  eq_iff a.seen.ip_address b.seen.ip_address,
  eq_iff b.seen.ip_address c.seen.ip_address,
  eq_iff a.seen.ip_address c.seen.ip_address,
)

-- A row with the key of one that is apart from some rows is apart from them too.
not_known :
    (x y : Row) (xs : List Row)
    → same_key y x ≡ true
    → All (λ z. same_key x z ≡ false) xs
    → known xs y ≡ false
unfolding known any
not_known x y [] e apart = refl
not_known x y (z ∷ xs) e apart =
    ground (arith, not_known x y xs e apart.1, same_key_sym y x, same_key_trans x y z, apart.0)

keep_nothing : (ys : List Row) → length (keep (known []) ys) ≡ 0
unfolding keep known any
keep_nothing [] = refl
keep_nothing (y ∷ ys) = keep_nothing ys

length-keep-known :
    (x : Row) (xs ys : List Row)
    → Distinct same_key ys
    → All (λ z. same_key x z ≡ false) xs
    → length (keep (known (x ∷ xs)) ys)
      ≡ length (keep (known xs) ys) + (if known ys x then 1 else 0)
unfolding keep known any
length-keep-known x xs [] h apart = omega arith
length-keep-known x xs (y ∷ ys) h apart = elim (Bool-cases (same_key y x)) [
  | inl e ↦ ground (
    arith,
    length-keep-known x xs ys h.1 apart,
    not_known x y xs e apart,
    not_known y x ys (same_key_sym x y ∙ e) h.0,
    same_key_sym x y,
  )
  | inr e ↦ ground (arith, length-keep-known x xs ys h.1 apart, same_key_sym x y)
]

-- As many rows of one list are known to the other as the other way round.
length-keep-known-known :
    (xs ys : List Row)
    → Distinct same_key xs
    → Distinct same_key ys
    → length (keep (known ys) xs) ≡ length (keep (known xs) ys)
unfolding keep
length-keep-known-known [] ys h k = sym (keep_nothing ys)
length-keep-known-known (x ∷ xs) ys h k =
    ground (arith, length-keep-known x xs ys k h.0, length-keep-known-known xs ys h.1 k)

All-put_row :
    (x row : Row) (rs : List Row)
    → same_key x row ≡ false
    → All (λ z. same_key x z ≡ false) rs
    → All (λ z. same_key x z ≡ false) (put_row row rs)
unfolding put_row
All-put_row x row [] h apart = (h, tt)
All-put_row x row (r ∷ rs) h apart = elim (Bool-cases (same_key r row)) [
  | inl e ↦ rw (e, All) (h, apart.1)
  | inr e ↦ rw (e, All) (apart.0, All-put_row x row rs h apart.1)
]

apart_from :
    (r row : Row) (rs : List Row)
    → same_key r row ≡ true
    → All (λ z. same_key r z ≡ false) rs
    → All (λ z. same_key row z ≡ false) rs
apart_from r row [] e apart = tt
apart_from r row (z ∷ rs) e apart = (
  ground (arith, same_key_trans r row z, apart.0, same_key_sym r row),
  apart_from r row rs e apart.1,
)

put_row-Distinct :
    (row : Row) (rs : List Row) → Distinct same_key rs → Distinct same_key (put_row row rs)
unfolding put_row
put_row-Distinct row [] h = (tt, tt)
put_row-Distinct row (r ∷ rs) h = elim (Bool-cases (same_key r row)) [
  | inl e ↦ rw (e, Distinct) (apart_from r row rs e h.0, h.1)
  | inr e ↦ rw (e, Distinct) (All-put_row r row rs e h.0, put_row-Distinct row rs h.1)
]

put_present :
    (present : Bool) (r : Row) (seen : List Row)
    → Distinct same_key seen
    → Distinct same_key (if present then put_row r seen else seen)
put_present true r seen h = put_row-Distinct r seen h
put_present false r seen h = h

rows_from-Distinct :
    (rows seen : List Row) → Distinct same_key seen → Distinct same_key (rows_from seen rows)
unfolding rows_from
rows_from-Distinct [] seen h = h
rows_from-Distinct (r ∷ rows) seen h =
    rows_from-Distinct rows _ (put_present r.seen.present r seen h)

-- A test divides a list in two.
keep-Perm :
    {A : Type 0} (p : A → Bool) (xs : List A) → Perm (keep p xs ++ keep (λ x. not (p x)) xs) xs
unfolding keep
keep-Perm p [] = Perm.refl []
keep-Perm p (x ∷ xs) =
    let ih = keep-Perm p xs in
    elim (p x)
      as (λ b.
        Perm
          (elim b [ true ↦ x ∷ keep p xs | false ↦ keep p xs ] ++ elim (not b) [
            | true ↦ x ∷ keep (λ y. not (p y)) xs
            | false ↦ keep (λ y. not (p y)) xs
          ])
          (x ∷ xs)) [
            | true ↦ Perm.cons x ih
            | false ↦
                Perm.trans (perm_middle (keep p xs) (keep (λ y. not (p y)) xs)) (Perm.cons x ih)
          ]

sort_keep-Perm :
    {A : Type 0} (before : A → A → Bool) (p : A → Bool) (xs : List A)
    → Perm (sort before (keep p xs) ++ sort before (keep (λ x. not (p x)) xs)) xs
sort_keep-Perm before p xs =
    Perm.trans
      (Perm.append (sort-Perm before (keep p xs)) (sort-Perm before (keep (λ x. not (p x)) xs)))
      (keep-Perm p xs)

-- Two tests divide a list in three.
divided-Perm :
    {A : Type 0} (before : A → A → Bool) (p q : A → Bool) (xs : List A)
    → Perm
        (sort before (keep (λ x. not (p x)) xs)
          ++ (sort before (keep q (keep p xs)) ++ keep (λ x. not (q x)) (keep p xs)))
        xs
divided-Perm before p q xs =
    let yes = keep p xs in
    let no = keep (λ x. not (p x)) xs in
    let rest = keep (λ x. not (q x)) yes in
    let two : Perm (sort before (keep q yes) ++ rest) yes =
      Perm.trans (Perm.append_right rest (sort-Perm before (keep q yes))) (keep-Perm q yes) in
    let all_of : Perm (sort before no ++ (sort before (keep q yes) ++ rest)) (no ++ yes) =
      Perm.append (sort-Perm before no) two in
    Perm.trans all_of (Perm.trans (perm_append_comm no yes) (keep-Perm p xs))

keep-All : {A : Type 0} (p : A → Bool) (xs : List A) → All (λ x. p x ≡ true) (keep p xs)
unfolding keep
keep-All p [] = tt
keep-All p (x ∷ xs) = elim (Bool-cases (p x)) [
  | inl e ↦ rw (e, All) (e, keep-All p xs)
  | inr e ↦ rw (e, All) (keep-All p xs)
]

All-not :
    {A : Type 0} (p : A → Bool) (xs : List A) → All (λ x. p x ≡ false) (keep (λ x. not (p x)) xs)
unfolding keep
All-not p [] = tt
All-not p (x ∷ xs) = elim (Bool-cases (p x)) [
  | inl e ↦ rw (e, All) (All-not p xs)
  | inr e ↦ rw (e, All) (e, All-not p xs)
]

-- What a comparison says of each host, by its key. The hosts of the later scan are the added ones,
-- the changed ones and the rest, and the rest is counted; the hosts that only the earlier scan has
-- are the missing ones and the ones outside the later range.
pub record Divided (lib : Ipv6Lib) (target : Run) (c : RunComparison) (before after : List Row)
    : Type 0 where
  pub rest : List Row
  pub later : Perm (c.added ++ (c.changed_rows ++ rest)) after
  pub earlier : Perm (c.missing ++ c.outside) (keep (λ r. not (known after r)) before)
  pub added : All (λ r. known before r ≡ false) c.added
  pub both : All (λ r. known before r ≡ true) (c.changed_rows ++ rest)
  pub changed_rows : All (λ r. host_changed c.ports_compared before r ≡ true) c.changed_rows
  pub unchanged : All (λ r. host_changed c.ports_compared before r ≡ false) rest
  pub counted : c.unchanged ≡ length rest
  pub missing :
      All (λ (r : Row). in_network lib (codes r.seen.ip_address) target.subnet ≡ true) c.missing
  pub outside :
      All (λ (r : Row). in_network lib (codes r.seen.ip_address) target.subnet ≡ false) c.outside
  pub remaining : length c.changed_rows + c.unchanged ≡ length (keep (known after) before)

module _ (lib : Ipv6Lib) where
  compare_hosts-Divided :
      (ports_compared : Bool) (target : Run) (before after : List Row)
      → Distinct same_key before
      → Distinct same_key after
      → Divided lib target
          (compare_hosts lib ports_compared target.subnet before after)
          before
          after
  unfolding compare_hosts
  compare_hosts-Divided ports_compared target before after h k =
      let gone = keep (λ r. not (known after r)) before in
      let both = keep (known before) after in
      let inside = λ (r : Row). in_network lib (codes r.seen.ip_address) target.subnet in
      let differs = host_changed ports_compared before in
      let order = by_address lib in
      let same_rest = keep (λ r. not (differs r)) both in
      let known_both = All-keep (λ r. known before r ≡ true) in
      record {
        rest = same_rest;
        later = divided-Perm order (known before) differs after;
        earlier = sort_keep-Perm order inside gone;
        added = All-sort order _ _ (All-not _ _);
        both =
            All-append (λ r. known before r ≡ true) _ _
              (All-sort order _ _ (known_both differs both (keep-All (known before) after)))
              (known_both (λ r. not (differs r)) both (keep-All (known before) after));
        changed_rows = All-sort order _ _ (keep-All differs both);
        unchanged = All-not differs both;
        counted = refl;
        missing = All-sort order _ _ (keep-All inside gone);
        outside = All-sort order _ _ (All-not inside gone);
        remaining = omega (
          arith,
          length-sort order (keep differs both),
          length-keep-not differs both,
          length-keep-known-known before after h k,
        );
      }

  -- If both runs have per-host results, the hosts that answered the later scan are, each once, the
  -- added, the changed and the unchanged ones: the added ones are not among the earlier hosts, the
  -- changed ones are and differ, and the unchanged ones, which are only counted, are and do not. The
  -- hosts that answered only the earlier scan are, each once, the missing ones, which are in the
  -- later range, and the others, which are outside it.
  pub compare_runs-Divided :
      (base target : Run) (base_rows target_rows : List Row)
      → has_host_results base (length base_rows) ≡ true
      → has_host_results target (length target_rows) ≡ true
      → Divided lib target
          (compare_runs lib base target base_rows target_rows)
          (hosts base_rows)
          (hosts target_rows)
  unfolding compare_runs hosts
  compare_runs-Divided base target base_rows target_rows h k =
      rw (h, k)
        (compare_hosts-Divided _ target _ _ (rows_from-Distinct base_rows [] tt)
          (rows_from-Distinct target_rows [] tt))
