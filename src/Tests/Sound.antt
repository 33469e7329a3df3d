-- ===== src/Tests/Sound.antt =====
-- Facts about concrete texts, by evaluation.
use network_learn.Base.{ℕ, ◌≡◌, Bool, true, not, ◌&&◌, [], ◌∷◌, arith, Bytes}
use network_learn.Http.Request.Message.{Clear}

abbrev pub all_bytes : (ℕ → Bool) → Bytes → Bool
all_bytes p [] = true
all_bytes p (c ∷ cs) = p c && all_bytes p cs

abbrev pub is_clear : (ℕ → Bool) → Bytes → Bool
is_clear limit = all_bytes (λ c. not (limit c))

pub Clear-is_clear : (limit : ℕ → Bool) (s : Bytes) → is_clear limit s ≡ true → Clear limit s
Clear-is_clear limit [] h = tt
Clear-is_clear limit (c ∷ cs) h = (ground arith, Clear-is_clear limit cs (ground arith))
