-- ===== src/Prelude/Dict.antt =====
-- The standard library's `HashMap` as an association list with the newest binding first.
use spotify_connect_scrobble.Prelude.Tests.{if◌then◌else◌}
use spotify_connect_scrobble.Prelude.Eq.{Eq}
use mathlib.Core.Path.{◌≡◌, refl}
use mathlib.Core.Option.{Option, none, some}
use mathlib.Core.List.{List, [], ◌∷◌}
use native.Mathlib.Omega.{arith}

abbrev pub Dict {ℓ κ} : Type ℓ → Type κ → Type (ℓ ⊔ κ)
Dict K V = List (K × V)

module _ {ℓ κ} {K : Type ℓ} {V : Type κ} ⦃e : Eq K⦄ where
  unfoldable pub get : K → Dict K V → Option V
  get k [] = none
  get k ((j, v) ∷ m) = if e.beq j k then some v else get k m

  unfoldable pub remove : K → Dict K V → Dict K V
  remove k [] = []
  remove k ((j, v) ∷ m) = let rest = remove k m in if e.beq j k then rest else (j, v) ∷ rest

  unfoldable pub insert : K → V → Dict K V → Dict K V
  insert k v m = (k, v) ∷ remove k m

  pub get-remove :
      (k j : K) (m : Dict K V) → get j (remove k m) ≡ (if e.beq k j then none else get j m)
  unfolding get remove
  get-remove k j [] = ground arith
  get-remove k j ((i, v) ∷ m) =
      ground (arith, get-remove k j m, e.beq_iff i k, e.beq_iff i j, e.beq_iff k j)

  pub get-insert :
      (k j : K) (v : V) (m : Dict K V)
      → get j (insert k v m) ≡ (if e.beq k j then some v else get j m)
  unfolding get insert
  get-insert k j v m = ground (arith, get-remove k j m)

  pub remove-remove : (k : K) (m : Dict K V) → remove k (remove k m) ≡ remove k m
  unfolding remove
  remove-remove k [] = refl
  remove-remove k ((j, v) ∷ m) = ground (arith, remove-remove k m, e.beq_iff j k)

  pub get-remove_same : (k : K) (m : Dict K V) → get k (remove k m) ≡ none
  get-remove_same k m = ground (arith, get-remove k k m, e.beq_iff k k)

  pub get-insert_same : (k : K) (v : V) (m : Dict K V) → get k (insert k v m) ≡ some v
  get-insert_same k v m = ground (arith, get-insert k k v m, e.beq_iff k k)

  pub remove-insert : (k : K) (v : V) (m : Dict K V) → remove k (insert k v m) ≡ remove k m
  unfolding insert remove
  remove-insert k v m = ground (arith, e.beq_iff k k, remove-remove k m)

  pub insert-remove : (k : K) (v : V) (m : Dict K V) → insert k v (remove k m) ≡ insert k v m
  unfolding insert
  insert-remove k v m = rw (remove-remove k m) refl

pub ruleset dict_laws = (get-remove, get-insert)
