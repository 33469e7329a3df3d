-- ===== src/Http/Services/Methods.antt =====
-- `onGet` and the functions like it of http/httpservices.h, two for each method.
use network_learn.Base.{
  ◌≡◌, refl, ap, ◌∙◌, Bool, true, false, Option, none, some, if◌then◌else◌, Bytes, codes, bytes_eq,
  [], ◌∷◌, bytes_eq_refl,
}
use network_learn.Util.StringMap.{lookup, store, lookup-store}
use network_learn.Http.Services.{
  Handler, UriHandler, HttpServices, with_service, with_default, add_service, set_method_default,
  pick_uri, pick,
}

pub data Method : Type 0 where
  get head post put delete : Method

abbrev pub method_name : Method → Bytes
method_name get = codes "GET"
method_name head = codes "HEAD"
method_name post = codes "POST"
method_name put = codes "PUT"
method_name delete = codes "DELETE"

-- `onGet(uri, handler)`, and `onGet(handler)`.
unfoldable pub on_uri : Method → Bytes → Handler → HttpServices → HttpServices
on_uri m uri handler s = add_service (method_name m) uri handler s

unfoldable pub on_method : Method → Handler → HttpServices → HttpServices
on_method m handler s = set_method_default (method_name m) handler s

abbrev pub set_auto_keep_alive : Bool → HttpServices → HttpServices
set_auto_keep_alive is_enable s = record s { is_auto_keep_alive = is_enable }

if_true : {A : Type 0} {b : Bool} {x : A} (y : A) → b ≡ true → (if b then x else y) ≡ x
if_true y e = rw e refl

if_false : {A : Type 0} {b : Bool} (x : A) {y : A} → b ≡ false → (if b then x else y) ≡ y
if_false x e = rw e refl

pick_uri-with_service :
    (d handler : Handler) (uri : Bytes) (o : Option UriHandler)
    → pick_uri d (some (with_service uri handler o)) uri ≡ handler
unfolding pick_uri with_service lookup
pick_uri-with_service d handler uri none =
    let found : lookup uri ((uri, handler) ∷ []) ≡ some handler = rw (bytes_eq_refl uri) refl in
    rw (pick_uri, found) refl
pick_uri-with_service d handler uri (some h) =
    let found : lookup uri (store uri handler h.uri_handlers) ≡ some handler =
      lookup-store uri uri handler h.uri_handlers ∙ if_true _ (bytes_eq_refl uri) in
    rw (pick_uri, found) refl

-- A handler that is registered for a URI is the one that is picked, and the requests of another method
-- are answered as before.
on_uri-pick :
    (m m' : Method) (uri uri' : Bytes) (handler : Handler) (s : HttpServices)
    → bytes_eq (method_name m') (method_name m) ≡ false
    → (pick (on_uri m uri handler s) (method_name m) uri ≡ handler)
      × (pick (on_uri m uri handler s) (method_name m') uri' ≡ pick s (method_name m') uri')
unfolding on_uri pick add_service
on_uri-pick m m' uri uri' handler s differ =
    let entry = with_service uri handler (lookup (method_name m) s.services) in
    let own = lookup-store (method_name m) (method_name m) entry s.services in
    let other = lookup-store (method_name m') (method_name m) entry s.services in
    (
      ap (λ o. pick_uri s.default_handler o uri) (own ∙ if_true _ (bytes_eq_refl (method_name m)))
          ∙ pick_uri-with_service s.default_handler handler uri (lookup (method_name m) s.services),
      ap (λ o. pick_uri s.default_handler o uri') (other ∙ if_false _ differ),
    )

-- The default of a method leaves the other methods as they are.
on_method-pick :
    (m m' : Method) (uri : Bytes) (handler : Handler) (s : HttpServices)
    → bytes_eq (method_name m') (method_name m) ≡ false
    → pick (on_method m handler s) (method_name m') uri ≡ pick s (method_name m') uri
unfolding on_method pick set_method_default
on_method-pick m m' uri handler s differ =
    let entry = with_default handler (lookup (method_name m) s.services) in
    let other = lookup-store (method_name m') (method_name m) entry s.services in
    ap (λ o. pick_uri s.default_handler o uri) (other ∙ if_false _ differ)
