-- ===== src/Util/Nocase.antt =====
-- The comparison of header names without regard to case: `Util::strcasecmp` of util/util.h,
-- `NocaseCompare` and `NocaseHash` of util/headermap.h, on a platform with `strncasecmp`,
-- 64-bit `size_t` and 32-bit `int`. An `int` is kept as its bit pattern.
use network_learn.Base.{
  ℕ, suc, ◌+◌, ◌-◌, ◌%◌, ◌^◌, ◌<◌, ◌≡◌, refl, ◌↔◌, Bool, true, ◌&&◌, ◌||◌, [], ◌∷◌, map, arith, ltb,
  leb, ◌==◌, if◌then◌else◌, length, All, Bytes,
}

pub to_lower : ℕ → ℕ
to_lower c = if leb b'A' c && leb c b'Z' then c + 32 else c

-- The C library's function: at most `n` bytes, up to a NUL.
pub strncasecmp : ℕ → Bytes → Bytes → ℕ
unfolding to_lower
strncasecmp (suc n) (x ∷ xs) (y ∷ ys) =
    let rest = strncasecmp n xs ys in
    if to_lower x == to_lower y
    then (if x == 0 then 0 else rest)
    else (to_lower x + 2 ^ 32 - to_lower y) % 2 ^ 32
strncasecmp _ _ _ = 0

-- `int(diff)` keeps the low 32 bits of the difference of the sizes.
pub strcasecmp : Bytes → Bytes → ℕ
unfolding strncasecmp
strcasecmp left right =
    let diff = (length left + 2 ^ 64 - length right) % 2 ^ 64 in
    if diff == 0 then strncasecmp (length left) left right else diff % 2 ^ 32

-- `NocaseCompare::operator()`.
unfoldable pub nocase_equal : Bytes → Bytes → Bool
unfolding strcasecmp
nocase_equal left right = strcasecmp left right == 0

-- `NocaseHash::operator()`.
unfoldable pub nocase_hash : Bytes → ℕ
nocase_hash [] = 0
nocase_hash (first ∷ _) =
    if leb b'A' first && leb first b'Z'
    then first + (b'a' - b'A') - b'a'
    else if ltb first b'a' || ltb b'z' first
    then 0
    else first - b'a'

-- Header text that the comparison reads whole: no NUL, and a size that an `int` can hold.
pub record IsHeaderText (s : Bytes) : Type 0 where
  pub bytes : All (λ c. (0 < c) × (c < 256)) s
  pub size : length s < 2 ^ 31

strncasecmp_iff :
    (a b : Bytes)
    → All (λ c. (0 < c) × (c < 256)) a
    → All (λ c. (0 < c) × (c < 256)) b
    → length a ≡ length b
    → (strncasecmp (length a) a b ≡ 0) ↔ (map to_lower a ≡ map to_lower b)
unfolding strncasecmp
strncasecmp_iff [] [] p q e = ground arith
strncasecmp_iff [] (y ∷ b) p q e = absurd (omega arith)
strncasecmp_iff (x ∷ a) [] p q e = absurd (omega arith)
strncasecmp_iff (x ∷ a) (y ∷ b) p q e =
    ground (arith, strncasecmp_iff a b p.1 q.1, p.0.0, p.0.1, q.0.0, q.0.1)

length-map-to_lower : (a b : Bytes) → map to_lower a ≡ map to_lower b → length a ≡ length b
length-map-to_lower [] [] e = refl
length-map-to_lower [] (y ∷ b) e = cc
length-map-to_lower (x ∷ a) [] e = cc
length-map-to_lower (x ∷ a) (y ∷ b) e = omega (arith, length-map-to_lower a b (ground arith))

-- On header text the comparison finds two names equal exactly when they agree up to the case of
-- the ASCII letters.
pub nocase_equal_iff :
    (a b : Bytes)
    → IsHeaderText a
    → IsHeaderText b
    → (nocase_equal a b ≡ true) ↔ (map to_lower a ≡ map to_lower b)
unfolding nocase_equal
nocase_equal_iff a b p q =
    ground (arith, p.size, q.size, strncasecmp_iff a b p.bytes q.bytes, length-map-to_lower a b)

nocase_hash-lower : (a b : Bytes) → map to_lower a ≡ map to_lower b → nocase_hash a ≡ nocase_hash b
unfolding nocase_hash to_lower
nocase_hash-lower [] [] e = refl
nocase_hash-lower [] (y ∷ b) e = cc
nocase_hash-lower (x ∷ a) [] e = cc
nocase_hash-lower (x ∷ a) (y ∷ b) e = ground arith

-- The contract that `std::unordered_map` asks of its hash and its key equality: keys that
-- `NocaseCompare` finds equal have one `NocaseHash`.
nocase_equal-hash :
    (a b : Bytes)
    → IsHeaderText a
    → IsHeaderText b
    → nocase_equal a b ≡ true
    → nocase_hash a ≡ nocase_hash b
nocase_equal-hash a b p q e = nocase_hash-lower a b ((nocase_equal_iff a b p q).0 e)
