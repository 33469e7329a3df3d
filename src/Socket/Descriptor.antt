-- ===== src/Socket/Descriptor.antt =====
-- The descriptor of a socket: `AbstractSocket` of abstract/abstractsocket.h and abstract/abstractsocket.cpp,
-- with what core/tcpsocket.cpp and core/sslsocket.cpp do when they are made, closed and destroyed.
-- `INVALID_SOCKET` is `none`. `open_ones` are the descriptors that the system has open.
pub mod Owned
use network_learn.Base.{
  ℕ, Bool, true, false, not, ◌&&◌, ◌||◌, List, [], ◌∷◌, Option, none, some, ltb, ◌==◌,
  if◌then◌else◌,
}

-- `has_ssl`: whether `m_ssl` of an `SslSocket` is set.
pub record Handle : Type 0 where
  pub descriptor : Option ℕ
  pub is_listener : Bool
  pub ssl_enable : Bool
  pub has_ssl : Bool

-- `isValid(const Socket &)`.
unfoldable pub is_valid_socket : Option ℕ → Bool
is_valid_socket none = false
is_valid_socket (some d) = ltb 0 d

-- `::close`.
pub shut : Option ℕ → List ℕ → List ℕ
shut none open_ones = open_ones
shut (some d) [] = []
shut (some d) (x ∷ xs) = if x == d then xs else x ∷ shut (some d) xs

-- `close(Socket &)`.
pub close_descriptor : Handle → List ℕ → Handle × List ℕ
unfolding shut
close_descriptor h open_ones = (record h { descriptor = none }, shut h.descriptor open_ones)

-- `isValid()`.
unfoldable pub is_valid_handle : Handle → Bool
unfolding is_valid_socket
is_valid_handle h = is_valid_socket h.descriptor && (not h.ssl_enable || h.has_ssl)

-- The constructors; `handshake`: whether `SSL_accept` does not fail.
unfoldable pub construct : Bool → Bool → Option ℕ → List ℕ → Handle × List ℕ
unfolding is_valid_socket close_descriptor
construct ssl_enable handshake descriptor open_ones =
    let h : Handle = record {
      descriptor = descriptor;
      is_listener = false;
      ssl_enable = ssl_enable;
      has_ssl = ssl_enable;
    } in
    if not (ssl_enable && is_valid_socket descriptor) || handshake
    then (h, open_ones)
    else (let (h', left) = close_descriptor h open_ones in (record h' { has_ssl = false }, left))

-- `close()`.
unfoldable pub close_handle : Handle → List ℕ → Handle × List ℕ
unfolding close_descriptor
close_handle h open_ones =
    if not h.ssl_enable
    then close_descriptor h open_ones
    else if h.has_ssl
    then (let (h', left) = close_descriptor h open_ones in (record h' { has_ssl = false }, left))
    else (h, open_ones)

-- The destructors.
unfoldable pub destruct : Handle → List ℕ → List ℕ
unfolding is_valid_handle close_handle
destruct h open_ones = if is_valid_handle h then (close_handle h open_ones).1 else open_ones

-- An address that `getaddrinfo` lists: what `socket` answers for it, and whether `bind` does not fail.
pub record Address : Type 0 where
  pub made : Option ℕ
  pub binds : Bool

-- What `socket` opens.
pub opened_with : Option ℕ → List ℕ → List ℕ
opened_with none open_ones = open_ones
opened_with (some d) open_ones = d ∷ open_ones

-- The walk over the addresses; the result tells whether it stops before the end.
pub walk : List Address → Handle → List ℕ → Bool × (Handle × List ℕ)
unfolding is_valid_socket close_descriptor opened_with
walk [] h open_ones = (false, (h, open_ones))
walk (a ∷ as') h open_ones =
    let h' = record h { descriptor = a.made } in
    let more = opened_with a.made open_ones in
    let (closed, left) = close_descriptor h' more in
    let next = walk as' h' more in
    let retry = walk as' closed left in
    if not (is_valid_socket a.made) then next else if a.binds then (true, (h', more)) else retry

-- `listen`, behind the walk.
pub after_walk : Bool → Bool → Bool × (Handle × List ℕ) → Bool × (Handle × List ℕ)
unfolding close_descriptor
after_walk listens sets_flags (false, state) = (false, state)
after_walk listens sets_flags (true, (h, open_ones)) =
    if not listens
    then (false, close_descriptor h open_ones)
    else if not sets_flags
    then (false, (h, open_ones))
    else (true, (record h { is_listener = true }, open_ones))

-- `listen`: whether a name is empty; what `getaddrinfo` lists, or `none` where it fails, which leaves the
-- pointer to the list unset; whether `::listen`, and both calls of `fcntl`, do not fail. `none`:
-- undefined behaviour.
unfoldable pub listen_on :
    Bool → Option (List Address) → Bool → Bool → Handle → List ℕ → Option (Bool × (Handle × List ℕ))
unfolding walk after_walk
listen_on no_name addresses listens sets_flags h open_ones =
    if h.is_listener || no_name then some (false, (h, open_ones)) else elim addresses [
      | none ↦ none
      | some as' ↦ some (after_walk listens sets_flags (walk as' h open_ones))
    ]

-- `accept`, with the answer of `::accept4`.
unfoldable pub accept : Handle → Option ℕ → List ℕ → Option ℕ × List ℕ
unfolding opened_with
accept h answer open_ones =
    if not h.is_listener then (some 0, open_ones) else (answer, opened_with answer open_ones)
