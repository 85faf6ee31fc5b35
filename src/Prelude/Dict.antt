-- ===== src/Prelude/Dict.antt =====
-- Python dictionaries with text keys, in insertion order.
use mathlib.Core.Path.{◌≡◌, refl}
use mathlib.Core.Bool.{Bool}
use mathlib.Core.Option.{Option, none, some}
use mathlib.Core.List.{List, [], ◌∷◌}
use Prim.Native.Nat.{◌+◌, ◌≤◌}
use Prim.Native.String.{String}
use native.Mathlib.Omega.{arith}
use text.Mathlib.TextEquality.{eq_iff}
use netops_console.Prelude.Tests.{str_eq, if◌then◌else◌, is_some}
use netops_console.Prelude.Lists.{length}

abbrev pub Dict {ℓ} : Type ℓ → Type ℓ
Dict V = List (String × V)

module _ {ℓ} {V : Type ℓ} where
  -- `d.get(key)`
  unfoldable pub get : Dict V → String → Option V
  get [] key = none
  get ((name, value) ∷ d) key = if str_eq name key then some value else get d key

  -- `d[key] = value`
  unfoldable pub put : Dict V → String → V → Dict V
  put [] key value = (key, value) ∷ []
  put (entry ∷ d) key value =
      if str_eq entry.0 key then (entry.0, value) ∷ d else entry ∷ put d key value

  -- `d.pop(key, None)`
  unfoldable pub remove : Dict V → String → Dict V
  remove [] key = []
  remove (entry ∷ d) key =
      let rest = remove d key in if str_eq entry.0 key then rest else entry ∷ rest

  -- `key in d`
  abbrev pub has_key : Dict V → String → Bool
  has_key d key = is_some (get d key)

  pub get-put :
      (d : Dict V) (key other : String) (value : V)
      → get (put d key value) other ≡ (if str_eq key other then some value else get d other)
  unfolding get put
  get-put [] key other value = refl
  get-put (entry ∷ d) key other value =
      ground (
        arith,
        get-put d key other value,
        eq_iff entry.0 key,
        eq_iff entry.0 other,
        eq_iff key other,
      )

  pub get-remove :
      (d : Dict V) (key other : String)
      → get (remove d key) other ≡ (if str_eq key other then none else get d other)
  unfolding get remove
  get-remove [] key other = ground arith
  get-remove (entry ∷ d) key other =
      ground
        (arith, get-remove d key other, eq_iff entry.0 key, eq_iff entry.0 other, eq_iff key other)

  pub length-put-le :
      (d : Dict V) (key : String) (value : V) → length (put d key value) ≤ length d + 1
  unfolding put
  length-put-le [] key value = omega arith
  length-put-le (entry ∷ d) key value = ground (arith, length-put-le d key value)

  pub length-remove-le : (d : Dict V) (key : String) → length (remove d key) ≤ length d
  unfolding remove
  length-remove-le [] key = omega arith
  length-remove-le (entry ∷ d) key = ground (arith, length-remove-le d key)
