-- ===== src/Http/Services/Process/Reuse.antt =====
-- The objects of a thread from one call of `process` to the next.
use network_learn.Base.{
  ℕ, ◌<◌, ◌≡◌, refl, sym, subst, ◌∙◌, ◌⊎◌, inl, inr, Bool, false, ◌++◌, Option, none, some, arith,
  Bool-cases, Option-cases, length, Bytes,
}
use network_learn.Util.HeaderMap.{HeaderMap}
use network_learn.Socket.{Socket, Delivers, equals_size, read_all}
use network_learn.Socket.Transfer.{read_all-arrived}
use network_learn.Http.Request as Request
use network_learn.Http.Request.{HttpRequest, parse, Parsed, Status, ok, refused, fault, unfinished}
use network_learn.Http.Response as Response
use network_learn.Http.Response.{HttpResponse, is_valid, set_keep_alive, to_raw_data}
use network_learn.Http.Services.{HttpServices}
use network_learn.Http.Services.Process.{
  Local, Connection, Outcome, clean, send_body, after_body, respond, after_handler, serve,
  by_status, after_parse, after_read, process,
}
use network_learn.Http.Services.Process.Exchange.{IsClean}

pub clean-IsClean : (local : Local) → IsClean (clean local)
unfolding clean Request.reset Response.reset
clean-IsClean local = record {
  raw_empty = refl;
  headers_empty = refl;
  arguments_empty = refl;
  response_new = refl;
  buffer_empty = refl;
}

-- As a reset of the objects leaves them: clean, and with a request that is not valid.
pub record IsReset (local : Local) : Type 0 where
  pub cleaned : IsClean local
  pub invalid : local.request.is_valid ≡ false

clean-IsReset : (local : Local) → IsReset (clean local)
unfolding clean Request.reset
clean-IsReset local = record { cleaned = clean-IsClean local; invalid = refl }

module _ {S : Type 0} (socket : Socket S) (services : HttpServices) (date : Bytes)
    (order : HeaderMap Bytes Bytes → HeaderMap Bytes Bytes) (fuel : ℕ) where
  cleaned :
      (local : Local) (o o' : Outcome S)
      → some o' ≡ some o
      → o'.local ≡ clean local
      → IsReset o.local
  cleaned local o o' e l =
      let same : o' ≡ o = cc in
      subst (λ x. IsReset x.local) same (subst IsReset (sym l) (clean-IsReset local))

  after_body-IsReset :
      (local : Local) (times : ℕ) (x : Option (Bool × S)) (o : Outcome S)
      → after_body socket services date order fuel local times x ≡ some o
      → IsReset o.local
  unfolding after_body
  after_body-IsReset local times none o e = absurd (ground arith)
  after_body-IsReset local times (some (sent, s)) o e = cleaned local o _ e refl

  respond-IsReset :
      (local : Local) (c : Connection S) (o : Outcome S)
      → respond socket services date order fuel local c ≡ some o
      → IsReset o.local
  unfolding respond
  respond-IsReset local c o e =
      let buffer = to_raw_data date order local.response local.buffer in
      let written = socket.write buffer c.channel in
      elim (Bool-cases (equals_size written.0 (length buffer))) [
        | inl all ↦
            after_body-IsReset (record local { buffer = buffer }) c.times
              (send_body socket services date order fuel local.response.body written.1) o
              (rw (respond, all) at e)
        | inr part ↦ cleaned local o _ (rw (respond, part) at e) refl
      ]

  after_handler-IsReset :
      (local : Local) (c : Connection S) (x : Option (HttpRequest × HttpResponse)) (o : Outcome S)
      → after_handler socket services date order fuel local c x ≡ some o
      → IsReset o.local
  unfolding after_handler
  after_handler-IsReset local c none o e = absurd (ground arith)
  after_handler-IsReset local c (some (req, resp)) o e = elim (Bool-cases (is_valid resp)) [
    | inl valid ↦
        respond-IsReset (record local { request = req; response = resp }) c o (rw valid at e)
    | inr invalid ↦
        cleaned (record local { request = req; response = resp }) o _ (rw invalid at e) refl
  ]

  -- What a call leaves where the request is not valid.
  abbrev pub Keeps : Local → Connection S → Outcome S → Type 0
  Keeps local c o =
      (local.request.is_valid ≡ false)
      × (o ≡ record { result = false; local = local; connection = c })

  serve_invalid :
      (local : Local) (c : Connection S)
      → local.request.is_valid ≡ false
      → serve socket services date order fuel local c
        ≡ some (record { result = false; local = local; connection = c })
  unfolding serve
  serve_invalid local c invalid = rw invalid refl

  serve_cases :
      (local : Local) (c : Connection S) (o : Outcome S)
      → serve socket services date order fuel local c ≡ some o
      → IsReset o.local ⊎ Keeps local c o
  unfolding serve
  serve_cases local c o e = elim (Bool-cases local.request.is_valid) [
    | inl valid ↦ inl (after_handler-IsReset local _ _ o (rw valid at e))
    | inr invalid ↦ let kept = sym (serve_invalid local c invalid) ∙ e in inr (invalid, cc)
  ]

  status_cases :
      (status : Status) (local : Local) (c : Connection S) (o : Outcome S)
      → by_status socket services date order fuel status local c ≡ some o
      → IsReset o.local ⊎ Keeps local c o
  unfolding by_status
  status_cases ok local c o e = serve_cases local c o e
  status_cases refused local c o e = serve_cases local c o e
  status_cases fault local c o e = absurd (ground arith)
  status_cases unfinished local c o e = absurd (ground arith)

  after_parse_cases :
      (local : Local) (c : Connection S) (p : Parsed) (o : Outcome S)
      → after_parse socket services date order fuel local c p ≡ some o
      → IsReset o.local ⊎ Keeps (record local { request = p.request }) c o
  unfolding after_parse
  after_parse_cases local c p o e =
      status_cases p.status (record local { request = p.request }) c o e

  -- A call of `process` that returns leaves the objects of its thread as their `reset` does, with an
  -- invalid request without data, headers and arguments, the members of a new response, and an empty
  -- buffer; or it has found the request invalid: then it returns false, sends nothing, and leaves the
  -- thread with what it has read and the request as `parse` has left it.
  pub process_cases :
      (local : Local) (c : Connection S) (o : Outcome S)
      → process socket services date order fuel local c ≡ some o
      → IsReset o.local
        ⊎ ((raw : Bytes) × (s : S) × (read_all socket fuel local.request.raw_data c.channel
              ≡ some (raw, s))
            × Keeps
                (record local {
                  request = (parse (record local.request { raw_data = raw })).request;
                })
                (record c { channel = s })
                o)
  unfolding process after_read
  process_cases local c o e =
      elim (Option-cases (read_all socket fuel local.request.raw_data c.channel)) [
        | inl endless ↦ absurd (ground (arith, rw endless at e))
        | inr ((raw, s), found) ↦
            elim (after_parse_cases local (record c { channel = s })
              (parse (record local.request { raw_data = raw })) o (rw found at e)) [
                | inl clean ↦ inl clean
                | inr kept ↦ inr (raw, s, found, kept)
              ]
      ]

  -- On any connection that delivers, with fuel above the number of bytes that have arrived, a
  -- call of `process` parses what the calls before it have left in the raw data of the request,
  -- with what has arrived behind it.
  pub process-left_over :
      (d : Delivers socket) (local : Local) (c : Connection S)
      → length (d.arrived c.channel) < fuel
      → (s : S) × (process socket services date order fuel local c
          ≡ after_parse socket services date order fuel local
              (record c { channel = s })
              (parse (record local.request {
                raw_data = local.request.raw_data ++ d.arrived c.channel;
              })))
  unfolding process after_read
  process-left_over d local c enough =
      let (s, result, empty, quiet) =
        read_all-arrived socket d fuel local.request.raw_data c.channel enough in
      (s, rw result refl)
