-- ===== src/Socket/Ssl/Context.antt =====
-- `sslContext` of core/sslsocket.cpp: `initializatSsl`, `cleanUpSsl` and `isSslAvailable`.
use network_learn.Base.{
  ℕ, ◌≡◌, refl, Bool, true, false, ◌&&◌, List, [], ◌∷◌, Option, none, some, arith, ◌==◌,
  if◌then◌else◌, Bool-cases, Option-cases, inl, inr,
}

-- `alive`: the contexts that the library has made and not freed.
pub record Contexts : Type 0 where
  pub ssl_context : Option ℕ
  pub alive : List ℕ

abbrev pub no_context : Contexts
no_context = record { ssl_context = none; alive = [] }

-- What the library answers in a call of `initializatSsl`: the context that it makes, and whether the
-- three calls that follow succeed.
pub record SetUp : Type 0 where
  pub made : Option ℕ
  pub has_certificate : Bool
  pub has_key : Bool
  pub matches : Bool

abbrev pub is_ssl_available : Contexts → Bool
is_ssl_available s = elim s.ssl_context [ none ↦ false | some c ↦ true ]

-- `SSL_CTX_free`.
pub free_context : ℕ → List ℕ → List ℕ
free_context c [] = []
free_context c (x ∷ xs) = if x == c then xs else x ∷ free_context c xs

pub fill_context : SetUp → Option ℕ → Contexts → Bool × Contexts
unfolding free_context
fill_context a none s = (false, s)
fill_context a (some c) s =
    if a.has_certificate && a.has_key && a.matches
    then (true, record { ssl_context = some c; alive = c ∷ s.alive })
    else (false, record s { alive = free_context c (c ∷ s.alive) })

unfoldable pub initializat_ssl : SetUp → Contexts → Bool × Contexts
unfolding fill_context
initializat_ssl a s = if is_ssl_available s then (true, s) else fill_context a a.made s

abbrev drop_context : Option ℕ → Contexts → Contexts
drop_context none s = s
drop_context (some c) s = record { ssl_context = none; alive = free_context c s.alive }

unfoldable pub clean_up_ssl : Contexts → Contexts
unfolding free_context
clean_up_ssl s = drop_context s.ssl_context s

pub data ContextCall : Type 0 where
  initializes : SetUp → ContextCall
  cleans_up : ContextCall

unfoldable pub run_contexts : List ContextCall → Contexts → Contexts
unfolding initializat_ssl clean_up_ssl
run_contexts [] s = s
run_contexts (initializes a ∷ cs) s = run_contexts cs (initializat_ssl a s).1
run_contexts (cleans_up ∷ cs) s = run_contexts cs (clean_up_ssl s)

-- The only context that is alive is the one in use.
abbrev pub IsOnly : Option ℕ → List ℕ → Type 0
IsOnly none alive = alive ≡ []
IsOnly (some c) alive = alive ≡ c ∷ []

-- Whether the library has a context, a certificate and a key, which go together.
abbrev pub succeeds : SetUp → Bool
succeeds a = elim a.made [ none ↦ false | some c ↦ a.has_certificate && a.has_key && a.matches ]

free_own : (c : ℕ) (xs : List ℕ) → free_context c (c ∷ xs) ≡ xs
unfolding free_context
free_own c xs = ground arith

fill_context-IsOnly :
    (a : SetUp) (o : Option ℕ) (s : Contexts)
    → s.ssl_context ≡ none
    → s.alive ≡ []
    → IsOnly (fill_context a o s).1.ssl_context (fill_context a o s).1.alive
unfolding fill_context
fill_context-IsOnly a none s e h = rw e h
fill_context-IsOnly a (some c) s e h =
    elim (Bool-cases (a.has_certificate && a.has_key && a.matches)) [
      | inl good ↦ rw (good, h) refl
      | inr bad ↦ rw (bad, e, free_own c s.alive) h
    ]

initializat_ssl-IsOnly :
    (a : SetUp) (s : Contexts)
    → IsOnly s.ssl_context s.alive
    → IsOnly (initializat_ssl a s).1.ssl_context (initializat_ssl a s).1.alive
unfolding initializat_ssl
initializat_ssl-IsOnly a s h = elim (Option-cases s.ssl_context) [
  | inl missing ↦
      let absent : is_ssl_available s ≡ false = rw missing refl in
      rw absent (fill_context-IsOnly a a.made s missing (rw missing at h))
  | inr (c, there) ↦ rw there (rw there at h)
]

clean_up_ssl-IsOnly :
    (s : Contexts)
    → IsOnly s.ssl_context s.alive
    → IsOnly (clean_up_ssl s).ssl_context (clean_up_ssl s).alive
unfolding clean_up_ssl
clean_up_ssl-IsOnly s h = elim (Option-cases s.ssl_context) [
  | inl missing ↦ rw missing (rw missing at h)
  | inr (c, there) ↦
      rw there (let only : s.alive ≡ c ∷ [] = rw there at h in rw only (free_own c []))
]

run_contexts-kept :
    (cs : List ContextCall) (s : Contexts)
    → IsOnly s.ssl_context s.alive
    → IsOnly (run_contexts cs s).ssl_context (run_contexts cs s).alive
unfolding run_contexts
run_contexts-kept [] s h = h
run_contexts-kept (initializes a ∷ cs) s h =
    run_contexts-kept cs (initializat_ssl a s).1 (initializat_ssl-IsOnly a s h)
run_contexts-kept (cleans_up ∷ cs) s h =
    run_contexts-kept cs (clean_up_ssl s) (clean_up_ssl-IsOnly s h)

-- `initializatSsl` without a context.
pub initializat_ssl-first :
    (a : SetUp)
    → ((initializat_ssl a no_context).0 ≡ succeeds a)
      × (is_ssl_available (initializat_ssl a no_context).1 ≡ succeeds a)
unfolding initializat_ssl fill_context
initializat_ssl-first a = elim (Option-cases a.made) [
  | inl missing ↦ rw missing (refl, refl)
  | inr (c, made) ↦ rw made (elim (Bool-cases (a.has_certificate && a.has_key && a.matches)) [
    | inl good ↦ rw good (refl, refl)
    | inr bad ↦ rw bad (refl, refl)
  ])
]

-- After any sequence of calls of `initializatSsl` and `cleanUpSsl` that starts with no context, the
-- library has no context but the one in use, whatever it answers: none is lost, and none is freed twice.
run_contexts-IsOnly :
    (cs : List ContextCall)
    → IsOnly (run_contexts cs no_context).ssl_context (run_contexts cs no_context).alive
run_contexts-IsOnly cs = run_contexts-kept cs no_context refl
