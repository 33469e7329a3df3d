-- ===== src/Tests/Mains.antt =====
-- What `main` sets up, and runs of the set-up of OpenSSL.
use network_learn.Base.{pos, ℕ, ◌≡◌, refl, true, false, [], ◌∷◌, List, some, Bytes, codes, bytes_eq}
use network_learn.Server.{Listener, WebServer, new_loops, start}
use network_learn.Socket.Ssl.Context.{SetUp, no_context, initializes, cleans_up, run_contexts}
use network_learn.App.Main.{Machine, prepare}
use network_learn.App.Main.Status.{prepare-start}
use network_learn.Tests.Servers.{two_loops}

abbrev certified : SetUp
certified = record { made = some 5; has_certificate = true; has_key = true; matches = true }

abbrev uncertified : SetUp
uncertified = record certified { has_key = false }

-- The key is refused, then taken; the context is freed.
contexts_freed :
    run_contexts (initializes uncertified ∷ initializes certified ∷ cleans_up ∷ []) no_context
    ≡ no_context
unfolding run_contexts
contexts_freed = refl

abbrev machine : Machine
machine = record {
  is_directory = λ path. true;
  ssl = certified;
  http_listens = true;
  http_id = 1;
  https_listens = true;
  https_id = 2;
}

abbrev command_line : List Bytes
command_line =
    codes "TinyWebServer"
    ∷ codes "80"
    ∷ codes "443"
    ∷ codes "files"
    ∷ codes "cert"
    ∷ codes "key"
    ∷ []

abbrev new_server : WebServer ℕ
new_server = record two_loops { listeners = []; has_services = false }

abbrev both : List Listener
both = record { id = 1; is_open = true } ∷ record { id = 2; is_open = true } ∷ []

prepare-start_example :
    let r = start 10 0 (prepare machine command_line new_server) in
    (r.0 ≡ pos 0) × (r.1.listeners ≡ both) × (r.1.loops ≡ new_loops 10 0 2 (1 ∷ 2 ∷ []))
unfolding bytes_eq
prepare-start_example = prepare-start 10 0 machine command_line new_server refl refl refl refl
