-- ===== src/Http/Services/Routes.antt =====
-- The table of services against the history of the calls that built it.
use network_learn.Base.{
  ◌≡◌, refl, subst, List, [], ◌∷◌, Option, none, some, if◌then◌else◌, Bool-cases, Option-cases, inl,
  inr, Bytes, bytes_eq, bytes_eq_iff,
}
use network_learn.Util.StringMap.{lookup, lookup-store}
use network_learn.Http.Services.{
  Handler, UriHandler, HttpServices, with_service, with_default, pick_uri, method_not_allowed,
  not_found, new_services, add_service, set_method_default, set_default, pick,
}

-- A call that registers a handler.
pub data Registration : Type 0 where
  service : Bytes → Bytes → Handler → Registration
  method_default : Bytes → Handler → Registration
  default : Handler → Registration

unfoldable pub register : Registration → HttpServices → HttpServices
register (service method uri handler) s = add_service method uri handler s
register (method_default method handler) s = set_method_default method handler s
register (default handler) s = set_default handler s

-- Histories have the last call first.
unfoldable pub build : List Registration → HttpServices
build [] = new_services
build (r ∷ rs) = register r (build rs)

abbrev pub value_or : {A : Type 0} → Option A → A → A
value_or none d = d
value_or (some a) d = a

-- What a history promises: the last service for the method and the URI,
abbrev pub last_service : List Registration → Bytes → Bytes → Option Handler
last_service [] method uri = none
last_service (service m u handler ∷ rs) method uri =
    if bytes_eq method m
    then (if bytes_eq uri u then some handler else last_service rs method uri)
    else last_service rs method uri
last_service (method_default m handler ∷ rs) method uri = last_service rs method uri
last_service (default handler ∷ rs) method uri = last_service rs method uri

-- else the last default of the method, which is `not_found` for one that has services only,
abbrev pub last_default : List Registration → Bytes → Option Handler
last_default [] method = none
last_default (service m u handler ∷ rs) method =
    if bytes_eq method m
    then some (value_or (last_default rs method) not_found)
    else last_default rs method
last_default (method_default m handler ∷ rs) method =
    if bytes_eq method m then some handler else last_default rs method
last_default (default handler ∷ rs) method = last_default rs method

-- else, for a method that was never named, the last default of all.
abbrev pub last_of_all : List Registration → Handler
last_of_all [] = method_not_allowed
last_of_all (service m u handler ∷ rs) = last_of_all rs
last_of_all (method_default m handler ∷ rs) = last_of_all rs
last_of_all (default handler ∷ rs) = handler

abbrev pub promised : List Registration → Bytes → Bytes → Handler
promised rs method uri =
    value_or (last_service rs method uri) (value_or (last_default rs method) (last_of_all rs))

-- An entry of the table as two lookups.
abbrev service_of : Option UriHandler → Bytes → Option Handler
service_of none uri = none
service_of (some h) uri = lookup uri h.uri_handlers

abbrev default_of : Option UriHandler → Option Handler
default_of none = none
default_of (some h) = some h.default_handler

with_service-service_of :
    (u uri : Bytes) (handler : Handler) (o : Option UriHandler)
    → lookup uri (with_service u handler o).uri_handlers
      ≡ (if bytes_eq uri u then some handler else service_of o uri)
unfolding with_service lookup
with_service-service_of u uri handler none = refl
with_service-service_of u uri handler (some h) = lookup-store uri u handler h.uri_handlers

with_service-default_of :
    (u : Bytes) (handler : Handler) (o : Option UriHandler)
    → (with_service u handler o).default_handler ≡ value_or (default_of o) not_found
unfolding with_service
with_service-default_of u handler none = refl
with_service-default_of u handler (some h) = refl

with_default-service_of :
    (uri : Bytes) (handler : Handler) (o : Option UriHandler)
    → lookup uri (with_default handler o).uri_handlers ≡ service_of o uri
unfolding with_default lookup
with_default-service_of uri handler none = refl
with_default-service_of uri handler (some h) = refl

with_default-default_handler :
    (handler : Handler) (o : Option UriHandler) → (with_default handler o).default_handler ≡ handler
unfolding with_default
with_default-default_handler handler none = refl
with_default-default_handler handler (some h) = refl

-- What the table built from a history holds, as the two lookups.
build-last_service :
    (rs : List Registration) (method uri : Bytes)
    → service_of (lookup method (build rs).services) uri ≡ last_service rs method uri
unfolding build register add_service set_method_default set_default lookup
build-last_service [] method uri = refl
build-last_service (service m u handler ∷ rs) method uri =
    let old = build-last_service rs method uri in
    let entry = with_service u handler (lookup m (build rs).services) in
    elim (Bool-cases (bytes_eq method m)) [
      | inl hit ↦
          let same = (bytes_eq_iff method m).0 hit in
          rw
            (
              lookup-store method m entry (build rs).services,
              hit,
              with_service-service_of u uri handler (lookup m (build rs).services),
              ← same,
              old,
            )
            refl
      | inr miss ↦ rw (lookup-store method m entry (build rs).services, miss) old
    ]
build-last_service (method_default m handler ∷ rs) method uri =
    let old = build-last_service rs method uri in
    let entry = with_default handler (lookup m (build rs).services) in
    elim (Bool-cases (bytes_eq method m)) [
      | inl hit ↦
          let same = (bytes_eq_iff method m).0 hit in
          rw
            (
              lookup-store method m entry (build rs).services,
              hit,
              with_default-service_of uri handler (lookup m (build rs).services),
              ← same,
              old,
            )
            refl
      | inr miss ↦ rw (lookup-store method m entry (build rs).services, miss) old
    ]
build-last_service (default handler ∷ rs) method uri = build-last_service rs method uri

build-last_default :
    (rs : List Registration) (method : Bytes)
    → default_of (lookup method (build rs).services) ≡ last_default rs method
unfolding build register add_service set_method_default set_default lookup
build-last_default [] method = refl
build-last_default (service m u handler ∷ rs) method =
    let old = build-last_default rs method in
    let entry = with_service u handler (lookup m (build rs).services) in
    elim (Bool-cases (bytes_eq method m)) [
      | inl hit ↦
          let same = (bytes_eq_iff method m).0 hit in
          let old' =
            subst (λ x. default_of (lookup x (build rs).services) ≡ last_default rs method) same
              old in
          rw
            (
              lookup-store method m entry (build rs).services,
              hit,
              with_service-default_of u handler (lookup m (build rs).services),
              old',
            )
            refl
      | inr miss ↦ rw (lookup-store method m entry (build rs).services, miss) old
    ]
build-last_default (method_default m handler ∷ rs) method =
    let old = build-last_default rs method in
    let entry = with_default handler (lookup m (build rs).services) in
    elim (Bool-cases (bytes_eq method m)) [
      | inl hit ↦
          rw
            (
              lookup-store method m entry (build rs).services,
              hit,
              with_default-default_handler handler (lookup m (build rs).services),
            )
            refl
      | inr miss ↦ rw (lookup-store method m entry (build rs).services, miss) old
    ]
build-last_default (default handler ∷ rs) method = build-last_default rs method

build-last_of_all : (rs : List Registration) → (build rs).default_handler ≡ last_of_all rs
unfolding build register add_service set_method_default set_default
build-last_of_all [] = refl
build-last_of_all (service m u handler ∷ rs) = build-last_of_all rs
build-last_of_all (method_default m handler ∷ rs) = build-last_of_all rs
build-last_of_all (default handler ∷ rs) = refl

pick_uri_lem :
    (handler : Handler) (o : Option UriHandler) (uri : Bytes)
    → pick_uri handler o uri ≡ value_or (service_of o uri) (value_or (default_of o) handler)
unfolding pick_uri
pick_uri_lem handler none uri = refl
pick_uri_lem handler (some h) uri = elim (Option-cases (lookup uri h.uri_handlers)) [
  | inl missed ↦ rw (missed, pick_uri) refl
  | inr (found, hit) ↦ rw (hit, pick_uri) refl
]

-- After any history of registrations, the handler that is picked for a method and a URI is the one
-- that the history promises: the last service for both, else the last default of the method
-- (`not_found` where the method has services only), else the last default of all (405 where there is
-- none).
pub build-promised :
    (rs : List Registration) (method uri : Bytes)
    → pick (build rs) method uri ≡ promised rs method uri
unfolding pick
build-promised rs method uri =
    rw
      (
        pick_uri_lem (build rs).default_handler (lookup method (build rs).services) uri,
        build-last_service rs method uri,
        build-last_default rs method,
        build-last_of_all rs,
      )
      refl
