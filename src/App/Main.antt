-- ===== src/App/Main.antt =====
-- `main` of main.cpp up to `exec`: the arguments, and what is set up. What is printed is left out, but for
-- the choice that goes with it.
pub mod Status
use mathlib.Core.Option
use network_learn.Base.{
  ℤ, pos, negsuc, ℕ, suc, ◌+◌, ◌≤◌, ◌<◌, ◌≡◌, ◌≢◌, refl, ap, sym, subst, ◌∙◌, Bool, true, false,
  not, ◌&&◌, ◌||◌, List, [], ◌∷◌, ◌++◌, Option, none, some, ◌==◌, leb, ltb, if◌then◌else◌, length,
  get_or, is_empty, Bytes, codes, bytes_eq, arith, Bool-cases, inl, inr, All,
}
use network_learn.Epoll.{has}
use network_learn.Loop.{EventLoop, Round}
use network_learn.Loop.Exec.{new_loop}
use network_learn.Loop.Closing.{Distinct}
use network_learn.Loop.Queue.{Answers}
use network_learn.Loop.Rounds.{AreReady}
use network_learn.Server.{
  Listener, WebServer, ids_of, set_services, listen, exec_server, quit, request_quit,
}
use network_learn.Server.Life.{exec_server_lem, IsOver}
use network_learn.Socket.Ssl.Context.{
  Contexts, SetUp, no_context, is_ssl_available, initializat_ssl, succeeds, initializat_ssl-first,
}

-- What `main` finds: whether a path is a directory, what OpenSSL answers, and whether the sockets of the two
-- ports listen, with the numbers that they have then.
pub record Machine : Type 0 where
  pub is_directory : Bytes → Bool
  pub ssl : SetUp
  pub http_listens : Bool
  pub http_id : ℕ
  pub https_listens : Bool
  pub https_id : ℕ

-- `argv[k]`, where there are more than `k` arguments.
abbrev pub argument : List Bytes → ℕ → Bytes
argument args k = get_or args k []

abbrev pub shows_usage : List Bytes → Bool
shows_usage args = leb (length args) 2 || bytes_eq (codes "-help") (argument args 1)

-- Whether the handlers of the shared directory are registered.
abbrev pub shares : Machine → List Bytes → Bool
shares m args = ltb 3 (length args) && m.is_directory (argument args 3)

abbrev pub set_up_ssl : Machine → List Bytes → Contexts → Contexts
set_up_ssl m args c = if length args == 6 then (initializat_ssl m.ssl c).1 else c

module _ {W : Type 0} where
  abbrev pub listen_http : Machine → List Bytes → Contexts → WebServer W → WebServer W
  listen_http m args c s =
      if leb 2 (length args)
      then (listen (is_ssl_available c) false m.http_listens m.http_id s).1
      else s

  abbrev pub listen_https : Machine → List Bytes → Contexts → WebServer W → WebServer W
  listen_https m args c s =
      if leb 3 (length args) && is_ssl_available c
      then (listen (is_ssl_available c) true m.https_listens m.https_id s).1
      else s

  -- What stands between the test of the arguments and `exec`.
  unfoldable pub prepare : Machine → List Bytes → WebServer W → WebServer W
  unfolding listen initializat_ssl
  prepare m args s =
      let c = set_up_ssl m args no_context in
      listen_https m args c (listen_http m args c (set_services true s))

-- The signals that `signalHandler` tells apart, and what it does to the server.
pub data Signal : Type 0 where
  interrupt user2 other : Signal

unfoldable pub signal_handler : {W : Type 0} → Signal → WebServer W → WebServer W
unfolding request_quit
signal_handler interrupt s = quit s
signal_handler user2 s = request_quit s
signal_handler other s = s
