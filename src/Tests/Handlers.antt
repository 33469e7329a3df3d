-- ===== src/Tests/Handlers.antt =====
-- The handlers of `main`.
use network_learn.Base.{◌≡◌, refl, [], ◌∷◌, ◌++◌, some, none, map, arith, codes}
use network_learn.Util.Decimal.{to_string}
use network_learn.Http.Request.{HttpRequest, new_request}
use network_learn.Http.Response.{new_response, set_raw_header, set_text_body}
use network_learn.Http.Services.{pick}
use network_learn.FilePool.{SharedFilePool}
use network_learn.App.{html}
use network_learn.App.Handlers.{
  on_adder, adder_head, adder_tail, shared_services, get_shared, head_shared,
}
use network_learn.App.Handlers.Adder.{on_adder-total}
use network_learn.App.Handlers.Dispatch.{answering, shared_services-answering}

abbrev empty_pool : SharedFilePool
empty_pool = record { root = codes "/srv"; pool = []; invalid_paths = [] }

abbrev adding : HttpRequest
adding = record new_request { url_arguments = map to_string (20 ∷ 22 ∷ []) }

on_adder-total_example :
    on_adder adding new_response
    ≡ some (
      adding,
      set_text_body
          ((adder_head ++ to_string 42) ++ adder_tail)
          (set_raw_header (codes "Content-Type") html new_response),
    )
on_adder-total_example = on_adder-total (20 ∷ 22 ∷ []) adding new_response refl (omega arith)

shared_services-answering_example :
    pick (shared_services 0 (λ path. none) empty_pool) (codes "GET") (codes "/hello")
    ≡ answering
        (get_shared 0 (λ path. none) empty_pool)
        (head_shared 0 (λ path. none) empty_pool)
        (codes "GET")
        (codes "/hello")
shared_services-answering_example =
    shared_services-answering 0 (λ path. none) empty_pool (codes "GET") (codes "/hello")
