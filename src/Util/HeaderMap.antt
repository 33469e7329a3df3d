-- ===== src/Util/HeaderMap.antt =====
-- `HeaderMap` of util/headermap.h: a `std::unordered_map` under `NocaseHash` and `NocaseCompare`.
-- An entry list stands for the table; `text` gives the text of a key, which may be a view.
use network_learn.Base.{
  ◌≡◌, refl, List, [], ◌∷◌, Option, none, some, inl, inr, arith, if◌then◌else◌, Bool-cases, All,
  Bytes,
}
use network_learn.Util.Nocase.{nocase_equal, nocase_equal_iff, IsHeaderText}

abbrev pub HeaderMap {ℓ} : Type 0 → Type ℓ → Type ℓ
HeaderMap K V = List (K × V)

abbrev pub or_else {ℓ} : {V : Type ℓ} → Option V → Option V → Option V
or_else (some v) o = some v
or_else none o = o

module _ {ℓ} {K : Type 0} {V : Type ℓ} (text : K → Bytes) where
  -- `find`, with what the iterator points at.
  unfoldable pub find : Bytes → HeaderMap K V → Option V
  find name [] = none
  find name ((key, value) ∷ m) =
      let rest = find name m in if nocase_equal name (text key) then some value else rest

  -- `emplace` and `insert`: an entry whose key is there already stays.
  unfoldable pub emplace : K → V → HeaderMap K V → HeaderMap K V
  emplace key value [] = (key, value) ∷ []
  emplace key value ((k, v) ∷ m) =
      let rest = emplace key value m in
      if nocase_equal (text key) (text k) then (k, v) ∷ m else (k, v) ∷ rest

  -- `m[key] = value`: the key that is there already stays, with the new value.
  unfoldable pub set : K → V → HeaderMap K V → HeaderMap K V
  set key value [] = (key, value) ∷ []
  set key value ((k, v) ∷ m) =
      let rest = set key value m in
      if nocase_equal (text key) (text k) then (k, value) ∷ m else (k, v) ∷ rest

  abbrev pub HasTextKeys : HeaderMap K V → Type 0
  HasTextKeys = All (λ e. IsHeaderText (text e.0))

  -- `find` after an assignment, at any name, where all names are header text: the new value at a name
  -- that is equal to the key up to case, and what was found before at all others.
  pub find-set :
      (name : Bytes) (key : K) (value : V) (m : HeaderMap K V)
      → IsHeaderText name
      → IsHeaderText (text key)
      → HasTextKeys m
      → find name (set key value m)
        ≡ (if nocase_equal name (text key) then some value else find name m)
  unfolding find set
  find-set name key value [] p q r = refl
  find-set name key value ((k, v) ∷ m) p q r = ground (
    arith,
    nocase_equal_iff name (text key) p q,
    nocase_equal_iff name (text k) p r.0,
    nocase_equal_iff (text key) (text k) q r.0,
    find-set name key value m p q r.1,
  )

  -- `find` after an insertion, at any name, where all names are header text: what was found before, else
  -- the new value at a name that is equal to the key up to case.
  find-emplace :
      (name : Bytes) (key : K) (value : V) (m : HeaderMap K V)
      → IsHeaderText name
      → IsHeaderText (text key)
      → HasTextKeys m
      → find name (emplace key value m)
        ≡ or_else (find name m) (if nocase_equal name (text key) then some value else none)
  unfolding find emplace
  find-emplace name key value [] p q r = refl
  find-emplace name key value ((k, v) ∷ m) p q r = ground (
    arith,
    nocase_equal_iff name (text key) p q,
    nocase_equal_iff name (text k) p r.0,
    nocase_equal_iff (text key) (text k) q r.0,
    find-emplace name key value m p q r.1,
  )

module _ {ℓ κ} {K : Type 0} {V : Type ℓ} (text : K → Bytes) (P : K × V → Type κ) where
  pub All-emplace :
      (key : K) (value : V) (m : HeaderMap K V)
      → P (key, value)
      → All P m
      → All P (emplace text key value m)
  unfolding emplace
  All-emplace key value [] p h = (p, tt)
  All-emplace key value ((k, v) ∷ m) p h = elim (Bool-cases (nocase_equal (text key) (text k))) [
    | inl same ↦ rw same h
    | inr other ↦ rw other (h.0, All-emplace key value m p h.1)
  ]
