-- ===== src/Start/MainServerMain.antt =====
-- main-server/src/main.c, `main`: its arguments, and the connection that it listens on.
use dicon.Base.{ℕ, Option, none, some, List, [], ◌∷◌, ◌==◌, if◌then◌else◌}
use dicon.Wire.{Bytes}
use dicon.Socket.{Conn}
use dicon.Socket.Listening.{Listening, dic_conn_new_listening}
use dicon.Start.Getopt.{
  Opt, flag, valued, unknown, options, Parsed, help_and_exit, undefined, go_on, each_option,
}
use dicon.Start.Numbers.{atoi}

-- `ip` is set to 0 and not used.
pub record MainServerOptions : Type 0 where
  pub port : ℕ
  pub log_level : ℕ

abbrev pub main_server_level : MainServerOptions → Option ℕ → Parsed MainServerOptions
main_server_level o none = undefined
main_server_level o (some n) = go_on (record o { log_level = n })

-- "hp:V:a:".
abbrev pub main_server_optstring : Bytes
main_server_optstring = b'h' ∷ b'p' ∷ b':' ∷ b'V' ∷ b':' ∷ b'a' ∷ b':' ∷ []

-- The switch: 'p' and 'a' are taken with their arguments, and passed over.
unfoldable pub main_server_option : Opt → MainServerOptions → Parsed MainServerOptions
main_server_option (flag c) o = if c == b'h' then help_and_exit else go_on o
main_server_option (valued c optarg) o =
    if c == b'V' then main_server_level o (atoi optarg) else go_on o
main_server_option unknown o = go_on o

-- DIC_MAIN_SERVER_PORT is 4225.
unfoldable pub main_server_options : List Bytes → Parsed MainServerOptions
main_server_options args =
    each_option main_server_option (options main_server_optstring none args)
      (record { port = 4225; log_level = 0 })

-- The connection of `start_server`; what follows is the loop of `MainServer`.
unfoldable pub main_server_listening :
    MainServerOptions → Listening → Conn → List ℕ → Option Conn × List ℕ
main_server_listening o answer stale open_fds = dic_conn_new_listening answer stale o.port open_fds
