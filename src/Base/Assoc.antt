-- ===== src/Base/Assoc.antt =====
-- A map from byte strings, as an association list without repeated keys.
use mathlib.Core.Path.{◌≡◌, refl}
use mathlib.Core.Option.{Option, none, some}
use mathlib.Core.List.{List, [], ◌∷◌}
use native.Mathlib.Omega.{arith}
use tos_messenger.Base.Tests.{if◌then◌else◌}
use tos_messenger.Base.Strings.{Bytes, eq_bytes, eq_bytes→eq, eq_bytes_refl}

abbrev pub Table {ℓ} : Type ℓ → Type ℓ
Table A = List (Bytes × A)

module _ {ℓ} {A : Type ℓ} where
  unfoldable pub get : Bytes → Table A → Option A
  get k [] = none
  get k ((j, v) ∷ m) = if eq_bytes j k then some v else get k m

  unfoldable pub set : Bytes → A → Table A → Table A
  set k v [] = (k, v) ∷ []
  set k v ((j, w) ∷ m) = if eq_bytes j k then (j, v) ∷ m else (j, w) ∷ set k v m

  pub get-set :
      (k j : Bytes) (v : A) (m : Table A)
      → get j (set k v m) ≡ (if eq_bytes k j then some v else get j m)
  unfolding get set
  get-set k j v [] = refl
  get-set k j v ((i, w) ∷ m) = ground (
    arith,
    get-set k j v m,
    eq_bytes→eq i k,
    eq_bytes→eq k j,
    eq_bytes→eq i j,
    eq_bytes_refl k,
    eq_bytes_refl j,
  )

  unfoldable pub remove : Bytes → Table A → Table A
  remove k [] = []
  remove k ((j, v) ∷ m) = let rest = remove k m in if eq_bytes j k then rest else (j, v) ∷ rest

  pub get-remove :
      (k j : Bytes) (m : Table A) → get j (remove k m) ≡ (if eq_bytes k j then none else get j m)
  unfolding get remove
  get-remove k j [] = ground arith
  get-remove k j ((i, w) ∷ m) = ground (
    arith,
    get-remove k j m,
    eq_bytes→eq i k,
    eq_bytes→eq k j,
    eq_bytes→eq i j,
    eq_bytes_refl k,
    eq_bytes_refl j,
  )

  abbrev pub table_names : Table A → List Bytes
  table_names [] = []
  table_names ((name, v) ∷ m) = name ∷ table_names m
