-- ===== src/Util/StringMap.antt =====
-- A `std::unordered_map` with `std::string` keys, as a list of entries.
use network_learn.Base.{
  ◌≡◌, refl, List, [], ◌∷◌, Option, none, some, arith, if◌then◌else◌, Bytes, bytes_eq, bytes_eq_iff,
}

-- `find`, and the assignment through `operator[]`.
unfoldable pub lookup : {A : Type 0} → Bytes → List (Bytes × A) → Option A
lookup key [] = none
lookup key ((k, value) ∷ m) = if bytes_eq key k then some value else lookup key m

unfoldable pub store : {A : Type 0} → Bytes → A → List (Bytes × A) → List (Bytes × A)
store key value [] = (key, value) ∷ []
store key value ((k, v) ∷ m) = if bytes_eq key k then (k, value) ∷ m else (k, v) ∷ store key value m

pub lookup-store :
    {A : Type 0} (name key : Bytes) (value : A) (m : List (Bytes × A))
    → lookup name (store key value m) ≡ (if bytes_eq name key then some value else lookup name m)
unfolding lookup store
lookup-store name key value [] = refl
lookup-store name key value ((k, v) ∷ m) = ground (
  arith,
  bytes_eq_iff name key,
  bytes_eq_iff name k,
  bytes_eq_iff key k,
  lookup-store name key value m,
)
