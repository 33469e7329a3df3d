-- ===== src/Socket/Descriptor/Owned.antt =====
-- No descriptor is lost: what is open is what was open before, and the descriptor of the socket.
use network_learn.Base.{
  ℕ, ◌<◌, ◌≡◌, refl, sym, subst, Bool, true, false, not, ◌&&◌, ◌||◌, List, [], ◌∷◌, Option, none,
  some, arith, ltb, ◌==◌, Bool-cases, Option-cases, inl, inr, All,
}
use network_learn.Socket.Descriptor.{
  Handle, is_valid_socket, shut, close_descriptor, is_valid_handle, construct, close_handle,
  destruct, Address, opened_with, walk, after_walk, listen_on,
}

-- A descriptor, where there is one, in front of others.
abbrev pub held : Option ℕ → List ℕ → List ℕ
held none xs = xs
held (some d) xs = d ∷ xs

-- A descriptor of the system is no standard input.
abbrev pub IsPositive : Option ℕ → Type 0
IsPositive none = Unit
IsPositive (some d) = 0 < d

shut-held : (d : Option ℕ) (xs : List ℕ) → shut d (held d xs) ≡ xs
unfolding shut
shut-held none xs = refl
shut-held (some d) xs = ground arith

-- A socket of either class is made with a descriptor that is open, or with none. It is then valid exactly
-- if it has a descriptor and, with SSL, the handshake has not failed. What is open is what else was open,
-- and the descriptor of the socket, if it still has one; and the destructor leaves what else was open.
construct-destruct :
    (ssl_enable handshake : Bool) (d : Option ℕ) (xs : List ℕ)
    → IsPositive d
    → (let (h, open_ones) = construct ssl_enable handshake d (held d xs) in
        (is_valid_handle h ≡ is_valid_socket d && (not ssl_enable || handshake))
        × (open_ones ≡ held h.descriptor xs)
        × (destruct h open_ones ≡ xs))
unfolding construct destruct is_valid_handle close_handle close_descriptor is_valid_socket
construct-destruct true true none xs p = (refl, refl, refl)
construct-destruct true false none xs p = (refl, refl, refl)
construct-destruct false handshake none xs p = (refl, refl, refl)
construct-destruct true true (some d) xs p = ground arith
construct-destruct true false (some d) xs p = ground arith
construct-destruct false handshake (some d) xs p = ground arith

-- An address that the walk can take.
abbrev pub usable : List Address → Bool
usable [] = false
usable (a ∷ as') = is_valid_socket a.made && a.binds || usable as'

walk_cases :
    (as' : List Address) (h : Handle) (xs : List ℕ)
    → All (λ a. IsPositive a.made) as'
    → (d : Option ℕ) × (walk as' (record h { descriptor = none }) xs
        ≡ (usable as', (record h { descriptor = d }, held d xs)))
      × (is_valid_socket d ≡ usable as')
      × IsPositive d
unfolding walk is_valid_socket close_descriptor opened_with shut
walk_cases [] h xs p = (none, refl, refl, tt)
walk_cases (a ∷ as') h xs p = elim (Option-cases a.made) [
  | inl missed ↦
      let (d, result, valid, positive) = walk_cases as' h xs p.1 in
      (d, rw missed result, rw missed valid, positive)
  | inr (d, made) ↦
      let is_positive : 0 < d = rw made at p.0 in
      let is_valid : ltb 0 d ≡ true = ground arith in
      let own : (d == d) ≡ true = ground arith in
      elim (Bool-cases a.binds) [
        | inl bound ↦
            (some d, rw (made, bound, is_valid) refl, rw (made, bound, is_valid) refl, is_positive)
        | inr refused ↦
            let (d', result, valid, positive) = walk_cases as' h xs p.1 in
            (
              d',
              rw (made, refused, is_valid, own) result,
              rw (made, refused, is_valid) valid,
              positive,
            )
      ]
]

-- The destructor closes the descriptor, where the socket has one.
destruct-held :
    (d : Option ℕ) (is_listener ssl : Bool) (xs : List ℕ)
    → IsPositive d
    → destruct
        (record { descriptor = d; is_listener = is_listener; ssl_enable = ssl; has_ssl = ssl })
        (held d xs)
      ≡ xs
unfolding destruct is_valid_handle close_handle close_descriptor is_valid_socket
destruct-held none is_listener ssl xs p = refl
destruct-held (some d) is_listener true xs p = ground arith
destruct-held (some d) is_listener false xs p = ground arith

destructs :
    (d : Option ℕ) (h : Handle) (xs : List ℕ)
    → h.has_ssl ≡ h.ssl_enable
    → IsPositive d
    → destruct (record h { descriptor = d }) (held d xs) ≡ xs
destructs d h xs ssl p =
    subst
      (λ s.
        destruct
          (record {
            descriptor = d;
            is_listener = h.is_listener;
            ssl_enable = h.ssl_enable;
            has_ssl = s;
          })
          (held d xs)
        ≡ xs)
      (sym ssl) (destruct-held d h.is_listener h.ssl_enable xs p)

-- A socket has no descriptor and is no listener, and has an SSL object if it is an SSL socket; the system
-- finds addresses, and does not answer `socket` with 0. Then `listen` returns, with whether the socket is
-- a listener now: exactly if no name is empty, there is an address whose socket can be made and bound,
-- and `::listen` and `fcntl` do not fail. On every branch, what is open is what was open before,
-- and the descriptor of the socket, if it has one; and the destructor leaves what was open before.
pub listen_on-held :
    (no_name : Bool) (as' : List Address) (listens sets_flags : Bool) (h : Handle) (xs : List ℕ)
    → h.descriptor ≡ none
    → h.has_ssl ≡ h.ssl_enable
    → h.is_listener ≡ false
    → All (λ a. IsPositive a.made) as'
    → (h' : Handle) × (open_ones : List ℕ) × (listen_on no_name (some as') listens sets_flags h xs
        ≡ some (h'.is_listener, (h', open_ones)))
      × (h'.is_listener ≡ not no_name && (usable as' && (listens && sets_flags)))
      × (open_ones ≡ held h'.descriptor xs)
      × (destruct h' open_ones ≡ xs)
unfolding listen_on after_walk close_descriptor
listen_on-held true as' listens sets_flags h xs e ssl fresh p = (
  h,
  xs,
  rw fresh refl,
  fresh,
  rw e refl,
  subst (λ d. destruct (record h { descriptor = d }) xs ≡ xs) (sym e) (destructs none h xs ssl tt),
)
listen_on-held false as' listens sets_flags h xs e ssl fresh p =
    let (d, result, valid, positive) = walk_cases as' h xs p in
    let same : walk as' h xs ≡ (usable as', (record h { descriptor = d }, held d xs)) =
      subst
        (λ d0.
          walk as' (record h { descriptor = d0 }) xs
          ≡ (usable as', (record h { descriptor = d }, held d xs)))
        (sym e) result in
    elim (Bool-cases (usable as')) [
      | inl found ↦ elim (Bool-cases listens) [
        | inl listening ↦ elim (Bool-cases sets_flags) [
          | inl set ↦ (
            record h { descriptor = d; is_listener = true },
            held d xs,
            rw (same, found, listening, set, fresh) refl,
            rw (found, listening, set) refl,
            refl,
            destructs d (record h { is_listener = true }) xs ssl positive,
          )
          | inr unset ↦ (
            record h { descriptor = d },
            held d xs,
            rw (same, found, listening, unset, fresh) refl,
            rw (found, listening, unset) fresh,
            refl,
            destructs d h xs ssl positive,
          )
        ]
        | inr deaf ↦ (
          record h { descriptor = none },
          xs,
          rw (same, found, deaf, shut-held d xs, fresh) refl,
          rw (found, deaf) fresh,
          refl,
          destructs none h xs ssl tt,
        )
      ]
      | inr unusable ↦ (
        record h { descriptor = d },
        held d xs,
        rw (same, unusable, fresh) refl,
        rw unusable fresh,
        refl,
        destructs d h xs ssl positive,
      )
    ]
