-- ===== src/App/Handlers/Dispatch.antt =====
-- Which handler answers a request, of all those that `main` registers.
use network_learn.Base.{
  ◌≡◌, refl, ◌∙◌, List, [], ◌∷◌, Option, if◌then◌else◌, Bool-cases, inl, inr, ℕ, Bytes, codes,
  bytes_eq, bytes_eq_iff,
}
use network_learn.Http.Services.{Handler, method_not_allowed, not_found, pick}
use network_learn.Http.Services.Routes.{
  Registration, service, method_default, register, build, promised, build-promised,
}
use network_learn.FilePool.{FileInfo, SharedFilePool}
use network_learn.App.Handlers.{
  on_adder, on_hello, on_post, get_shared, head_shared, shared_services,
}

-- `get` and `head` are the defaults of their methods.
abbrev pub answering : Handler → Handler → Bytes → Bytes → Handler
answering get head method uri =
    if bytes_eq method (codes "GET")
    then (if bytes_eq uri (codes "/hello")
        then on_hello
        else if bytes_eq uri (codes "/adder")
        then on_adder
        else get)
    else if bytes_eq method (codes "POST")
    then (if bytes_eq uri (codes "/post") then on_post else not_found)
    else if bytes_eq method (codes "HEAD")
    then head
    else method_not_allowed

abbrev common : List Registration
common =
    service (codes "POST") (codes "/post") on_post
    ∷ service (codes "GET") (codes "/hello") on_hello
    ∷ service (codes "GET") (codes "/adder") on_adder
    ∷ []

abbrev shared : Handler → Handler → List Registration
shared get head = method_default (codes "GET") get ∷ method_default (codes "HEAD") head ∷ common

shared-promised :
    (get head : Handler) (method uri : Bytes)
    → promised (shared get head) method uri ≡ answering get head method uri
unfolding bytes_eq
shared-promised get head method uri = elim (Bool-cases (bytes_eq method (codes "GET"))) [
  | inl is_get ↦
      rw ((bytes_eq_iff method (codes "GET")).0 is_get)
        (elim (Bool-cases (bytes_eq uri (codes "/hello"))) [
          | inl hello ↦ rw hello refl
          | inr other ↦ elim (Bool-cases (bytes_eq uri (codes "/adder"))) [
            | inl adder ↦ rw (other, adder) refl
            | inr none_of ↦ rw (other, none_of) refl
          ]
        ])
  | inr no_get ↦ elim (Bool-cases (bytes_eq method (codes "POST"))) [
    | inl is_post ↦
        rw ((bytes_eq_iff method (codes "POST")).0 is_post)
          (elim (Bool-cases (bytes_eq uri (codes "/post"))) [
            | inl post ↦ rw post refl
            | inr other ↦ rw other refl
          ])
    | inr no_post ↦ elim (Bool-cases (bytes_eq method (codes "HEAD"))) [
      | inl is_head ↦ rw (no_get, no_post, is_head) refl
      | inr no_head ↦ rw (no_get, no_post, no_head) refl
    ]
  ]
]

-- With a shared directory, the services that `main` registers answer every request as follows: GET
-- with "/hello" and "/adder" by the handlers of these names and else from the directory, POST with "/post"
-- by its handler and else by 404, HEAD from the directory, and any other method by 405.
pub shared_services-answering :
    (place : ℕ) (open_file : Bytes → Option FileInfo) (p : SharedFilePool) (method uri : Bytes)
    → pick (shared_services place open_file p) method uri
      ≡ answering (get_shared place open_file p) (head_shared place open_file p) method uri
unfolding shared_services build register
shared_services-answering place open_file p method uri =
    build-promised (shared (get_shared place open_file p) (head_shared place open_file p)) method
      uri
    ∙ shared-promised (get_shared place open_file p) (head_shared place open_file p) method uri
