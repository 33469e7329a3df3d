-- ===== src/App/Handlers.antt =====
-- The handlers of main.cpp that need no directory, and the services that `main` registers.
pub mod Adder
pub mod Dispatch
use mathlib.Core.Option
use network_learn.Base.{
  ℕ, Bool, true, false, ◌&&◌, ◌||◌, List, [], ◌∷◌, ◌++◌, Option, none, some, ◌==◌, leb,
  if◌then◌else◌, Bytes, codes, ℤ, pos, negsuc, neg, ◌+ℤ◌, checked, suc, ◌+◌,
}
use network_learn.Util.Refer.{view_text}
use network_learn.Util.Decimal.{to_string, is_digit, value_from}
use network_learn.Http.Request.{HttpRequest}
use network_learn.Http.Response.{HttpResponse, set_raw_header, insert_raw_header, set_text_body}
use network_learn.Http.Services.{
  Handler, HttpServices, new_services, add_service, set_method_default,
}
use network_learn.FilePool.{FileInfo, SharedFilePool}
use network_learn.App.{html, build_404_response, on_get, on_head}

-- `isspace`.
pub is_space : ℕ → Bool
is_space c = c == 32 || (leb 9 c && leb c 13)

pub leading_digits : Bytes → Bytes
leading_digits [] = []
leading_digits (c ∷ cs) = let rest = leading_digits cs in if is_digit c then c ∷ rest else []

-- `atoi`; `none`: the number is no `int`, which is undefined.
pub atoi_number : Bytes → Option ℤ
unfolding leading_digits
atoi_number cs = checked (pos (value_from 0 (leading_digits cs)))

pub atoi : Bytes → Option ℤ
unfolding is_space atoi_number
atoi [] = some (pos 0)
atoi (c ∷ cs) =
    let rest = atoi cs in
    if is_space c
    then rest
    else if c == b'-'
    then checked (neg (value_from 0 (leading_digits cs)))
    else if c == b'+'
    then atoi_number cs
    else atoi_number (c ∷ cs)

-- `std::to_string(int)`.
pub int_to_string : ℤ → Bytes
int_to_string (pos n) = to_string n
int_to_string (negsuc n) = b'-' ∷ to_string (suc n)

-- The loop of "/adder"; `none`: a sum is no `int`, which is undefined.
pub add_arguments : ℤ → List Bytes → Option ℤ
unfolding atoi
add_arguments sum [] = some sum
add_arguments sum (arg ∷ args) =
    Option.bind (atoi arg) (λ n. Option.bind (checked (sum +ℤ n)) (λ sum'. add_arguments sum' args))

abbrev pub adder_head : Bytes
adder_head =
    codes
      "<html><title>Tiny Web Server</title><body bgcolor\"#fffff\"><h1>Tiny Web Server / Adder</h1><p>Result: "

abbrev pub adder_tail : Bytes
adder_tail = codes "</p></body></html>\n"

unfoldable pub on_adder : Handler
unfolding add_arguments int_to_string
on_adder req resp =
    Option.map
      (λ sum. (
        req,
        set_text_body ((adder_head ++ int_to_string sum) ++ adder_tail)
            (set_raw_header (codes "Content-Type") html resp),
      ))
      (add_arguments (pos 0) req.url_arguments)

unfoldable pub on_hello : Handler
on_hello req resp = some (
  req,
  set_text_body (codes "Hello world.\n") (insert_raw_header (codes "Content-Type") html resp),
)

-- "/post", which also prints the body.
unfoldable pub on_post : Handler
on_post req resp = some (req, set_text_body (view_text req.raw_data req.body) resp)

-- The handlers over the pool, as it is in the call.
module _ (place : ℕ) (open_file : Bytes → Option FileInfo) (p : SharedFilePool) where
  abbrev pub get_shared : Handler
  get_shared req resp = Option.map (λ r. (req, r.0)) (on_get place open_file p req resp)

  abbrev pub head_shared : Handler
  head_shared req resp = some (req, (on_head place open_file p req resp).0)

abbrev pub get_nothing : Handler
get_nothing req resp = some (req, build_404_response resp)

-- The three calls that `main` always makes, and those for the directory, if there is one.
unfoldable pub base_services : HttpServices
base_services = add_service (codes "POST") (codes "/post") on_post (
    add_service (codes "GET") (codes "/hello") on_hello
      (add_service (codes "GET") (codes "/adder") on_adder new_services))

unfoldable pub shared_services : ℕ → (Bytes → Option FileInfo) → SharedFilePool → HttpServices
unfolding base_services
shared_services place open_file p =
    set_method_default (codes "GET") (get_shared place open_file p)
      (set_method_default (codes "HEAD") (head_shared place open_file p) base_services)

unfoldable pub plain_services : HttpServices
unfolding base_services
plain_services = set_method_default (codes "GET") get_nothing base_services
