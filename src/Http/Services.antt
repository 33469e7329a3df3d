-- ===== src/Http/Services.antt =====
-- The services of http/httpservices.h and http/httpservices.cpp: what they register and which
-- handler they pick for a request.
pub mod Routes
pub mod Process
pub mod Methods
use network_learn.Base.{
  ℕ, Bool, true, List, [], ◌∷◌, Option, none, some, if◌then◌else◌, Bytes, codes, bytes_eq,
}
use network_learn.Util.StringMap.{lookup, store}
use network_learn.Http.Request.{HttpRequest, method_text, uri_text}
use network_learn.Http.Response.{HttpResponse, set_http_state}

-- A handler writes to the request and the response; `none`: it throws.
abbrev pub Handler : Type 0
Handler = HttpRequest → HttpResponse → Option (HttpRequest × HttpResponse)

pub record UriHandler : Type 0 where
  pub uri_handlers : List (Bytes × Handler)
  pub default_handler : Handler

pub record HttpServices : Type 0 where
  pub default_handler : Handler
  pub services : List (Bytes × UriHandler)
  pub is_auto_keep_alive : Bool
  pub max_times : ℕ

-- The handlers that the class itself sets.
abbrev pub method_not_allowed : Handler
method_not_allowed req resp = some (req, set_http_state (405, codes "Method Not Allowed") resp)

abbrev pub not_found : Handler
not_found req resp = some (req, set_http_state (404, codes "Not Found") resp)

abbrev pub new_services : HttpServices
new_services = record {
  default_handler = method_not_allowed;
  services = [];
  is_auto_keep_alive = true;
  max_times = 0;
}

-- The entry of a method with one more service: `addService` on the two results of `find`.
pub with_service : Bytes → Handler → Option UriHandler → UriHandler
with_service uri handler none = record {
  uri_handlers = (uri, handler) ∷ [];
  default_handler = not_found;
}
with_service uri handler (some h) = record h { uri_handlers = store uri handler h.uri_handlers }

unfoldable pub add_service : Bytes → Bytes → Handler → HttpServices → HttpServices
unfolding with_service lookup store
add_service method uri handler s = record s {
  services = store method (with_service uri handler (lookup method s.services)) s.services;
}

-- The same for `setDefaultService`.
pub with_default : Handler → Option UriHandler → UriHandler
with_default handler none = record { uri_handlers = []; default_handler = handler }
with_default handler (some h) = record h { default_handler = handler }

unfoldable pub set_method_default : Bytes → Handler → HttpServices → HttpServices
unfolding with_default lookup store
set_method_default method handler s = record s {
  services = store method (with_default handler (lookup method s.services)) s.services;
}

-- `setDefaultService` with one argument.
unfoldable pub set_default : Handler → HttpServices → HttpServices
set_default handler s = record s { default_handler = handler }

-- The handler that `callHandler` calls.
pub pick_uri : Handler → Option UriHandler → Bytes → Handler
pick_uri handler none uri = handler
pick_uri handler (some h) uri = elim (lookup uri h.uri_handlers) [
  | none ↦ h.default_handler
  | some found ↦ found
]

unfoldable pub pick : HttpServices → Bytes → Bytes → Handler
unfolding pick_uri lookup
pick s method uri = pick_uri s.default_handler (lookup method s.services) uri

unfoldable pub call_handler :
    HttpServices → HttpRequest → HttpResponse → Option (HttpRequest × HttpResponse)
unfolding pick
call_handler s req resp = pick s (method_text req) (uri_text req) req resp
