-- ===== src/App/Main/Status.antt =====
-- What `main` of main.cpp sets up, and the result of `start` on it.
use network_learn.Base.{
  pos, negsuc, ℕ, ◌≡◌, refl, Bool, true, false, ◌&&◌, ◌||◌, List, [], ◌∷◌, ◌==◌, leb, if◌then◌else◌,
  length, is_empty, Bytes, arith, Bool-cases, inl, inr,
}
use network_learn.Server.{Listener, WebServer, ids_of, listen, new_loops, start}
use network_learn.Socket.Ssl.Context.{no_context, is_ssl_available, succeeds, initializat_ssl-first}
use network_learn.App.Main.{Machine, shows_usage, set_up_ssl, prepare}

-- Which sockets listen in the end.
abbrev pub hears_https : Machine → List Bytes → Bool
hears_https m args = (length args == 6 && succeeds m.ssl) && m.https_listens

abbrev pub heard : Machine → Bool → Bool → List Listener
heard m true true =
    record { id = m.http_id; is_open = true } ∷ record { id = m.https_id; is_open = true } ∷ []
heard m true false = record { id = m.http_id; is_open = true } ∷ []
heard m false true = record { id = m.https_id; is_open = true } ∷ []
heard m false false = []

set_up_ssl_lem :
    (m : Machine) (args : List Bytes)
    → is_ssl_available (set_up_ssl m args no_context) ≡ (length args == 6 && succeeds m.ssl)
set_up_ssl_lem m args = elim (Bool-cases (length args == 6)) [
  | inl six ↦ rw six (initializat_ssl-first m.ssl).1
  | inr fewer ↦ rw fewer refl
]

module _ {W : Type 0} where
  -- Past the usage, on a server with no listener, the sockets that listen are these.
  prepare_lem :
      (m : Machine) (args : List Bytes) (s : WebServer W)
      → leb (length args) 2 ≡ false
      → s.listeners ≡ []
      → prepare m args s
        ≡ record s { listeners = heard m m.http_listens (hears_https m args); has_services = true }
  unfolding prepare listen
  prepare_lem m args s enough none_yet =
      let two : leb 2 (length args) ≡ true = ground arith in
      let three : leb 3 (length args) ≡ true = ground arith in
      let ssl = set_up_ssl_lem m args in
      elim (Bool-cases (length args == 6 && succeeds m.ssl)) [
        | inr no_ssl ↦ elim (Bool-cases m.http_listens) [
          | inl hears ↦ rw (ssl, no_ssl, two, three, hears, none_yet) refl
          | inr deaf ↦ rw (ssl, no_ssl, two, three, deaf, none_yet) refl
        ]
        | inl has_ssl ↦ elim (Bool-cases m.https_listens) [
          | inl hears' ↦ elim (Bool-cases m.http_listens) [
            | inl hears ↦ rw (ssl, has_ssl, two, three, hears, hears', none_yet) refl
            | inr deaf ↦ rw (ssl, has_ssl, two, three, deaf, hears', none_yet) refl
          ]
          | inr deaf' ↦ elim (Bool-cases m.http_listens) [
            | inl hears ↦ rw (ssl, has_ssl, two, three, hears, deaf', none_yet) refl
            | inr deaf ↦ rw (ssl, has_ssl, two, three, deaf, deaf', none_yet) refl
          ]
        ]
      ]

heard_some :
    (m : Machine) (http https : Bool)
    → (http || https) ≡ true
    → is_empty (heard m http https) ≡ false
heard_some m true true e = refl
heard_some m true false e = refl
heard_some m false true e = refl
heard_some m false false e = absurd (ground arith)

heard_none : (m : Machine) (http https : Bool) → (http || https) ≡ false → heard m http https ≡ []
heard_none m true https e = absurd (ground arith)
heard_none m false true e = absurd (ground arith)
heard_none m false false e = refl

or_left : (a b : Bool) → (a || b) ≡ false → a ≡ false
or_left true b e = absurd (ground arith)
or_left false b e = refl

module _ {W : Type 0} (next_id : ℕ) (world : W) where
  start_heard :
      (m : Machine) (http https : Bool) (s : WebServer W)
      → s.loops ≡ []
      → (s.loop_count == 0) ≡ false
      → let r =
          start next_id world (record s { listeners = heard m http https; has_services = true }) in
        (r.0 ≡ (if http || https then pos 0 else negsuc 0))
        × (r.1.listeners ≡ heard m http https)
        × (r.1.loops ≡ (
            if http || https
            then new_loops next_id world s.loop_count (ids_of (heard m http https))
            else []))
  unfolding start
  start_heard m http https s idle counts = elim (Bool-cases (http || https)) [
    | inl some_hear ↦
        rw (heard_some m http https some_hear, idle, counts, some_hear) (refl, refl, refl)
    | inr none_hear ↦ rw (heard_none m http https none_hear, none_hear) (refl, refl, idle)
  ]

  -- `main` does not show the usage; its server is new: it has no listener and no loop, and its number of
  -- loops is not 0. Then behind what `main` sets up, `start` succeeds exactly if a port listens: that of
  -- HTTP, or that of HTTPS, which counts only with six arguments, the name of the program among them, and a
  -- certificate and a key that OpenSSL takes and that match. The listeners are then the open sockets of these ports, that of HTTP first, and
  -- each of the loops has all of them; where no port listens there is no loop.
  pub prepare-start :
      (m : Machine) (args : List Bytes) (s : WebServer W)
      → shows_usage args ≡ false
      → s.listeners ≡ []
      → s.loops ≡ []
      → (s.loop_count == 0) ≡ false
      → let r = start next_id world (prepare m args s) in
        let https = hears_https m args in
        (r.0 ≡ (if m.http_listens || https then pos 0 else negsuc 0))
        × (r.1.listeners ≡ heard m m.http_listens https)
        × (r.1.loops ≡ (
            if m.http_listens || https
            then new_loops next_id world s.loop_count (ids_of (heard m m.http_listens https))
            else []))
  prepare-start m args s runs none_yet idle counts =
      rw (prepare_lem m args s (or_left _ _ runs) none_yet)
        (start_heard m m.http_listens (hears_https m args) s idle counts)
