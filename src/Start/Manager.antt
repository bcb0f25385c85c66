-- ===== src/Start/Manager.antt =====
-- node-manager/src/main.c: it starts a node, and starts it again when it ends.
pub mod Ports
use dicon.Base.{
  ℕ, zero, suc, ◌≡◌, refl, Bool, true, false, Option, none, some, List, [], ◌∷◌, ◌++◌, ◌==◌,
  if◌then◌else◌,
}
use dicon.Wire.{Bytes}
use dicon.Socket.{IpAddr}
use dicon.Socket.Listening.{ipv4_from_str}
use dicon.Start.Getopt.{
  Opt, flag, valued, unknown, options, Parsed, help_and_exit, undefined, go_on, and_then,
  each_option,
}
use dicon.Start.Numbers.{decimal, atoi}

-- The command; `path` is COMPUTE_NODE_PATH, and `port` an `int` by its bit pattern.
unfoldable pub create_compute_node_cmd : (path : Bytes) → ℕ → Bytes
create_compute_node_cmd path port = path ++ (b' ' ∷ b'-' ∷ b'p' ∷ b' ' ∷ decimal port)

-- `run` is `popen` and `pclose`, and one round of the loop, which runs for ever; it is given `k` rounds.
unfoldable pub run_loop :
    {World : Type 0} → (run : Bytes → World → World) → ℕ → Bytes → ℕ → World → World
run_loop run zero path port w = w
run_loop run (suc k) path port w =
    run_loop run k path port (run (create_compute_node_cmd path port) w)

-- The variables of `main` that the options set, with GLOBAL_LOG_LEVEL. `ip` is not used.
pub record ManagerOptions : Type 0 where
  pub port : ℕ
  pub ip : IpAddr
  pub log_level : ℕ

abbrev set_port : ManagerOptions → Option ℕ → Parsed ManagerOptions
set_port o none = undefined
set_port o (some n) = go_on (record o { port = n })

abbrev set_level : ManagerOptions → Option ℕ → Parsed ManagerOptions
set_level o none = undefined
set_level o (some n) = go_on (record o { log_level = n })

-- "hp:V:a:".
abbrev pub manager_optstring : Bytes
manager_optstring = b'h' ∷ b'p' ∷ b':' ∷ b'V' ∷ b':' ∷ b'a' ∷ b':' ∷ []

module _ (inet_pton : ℕ → List ℕ → Option (ℕ × List ℕ)) where
  unfoldable pub manager_option : Opt → ManagerOptions → Parsed ManagerOptions
  manager_option (flag c) o = if c == b'h' then help_and_exit else go_on o
  manager_option (valued c optarg) o =
      if c == b'a'
      then go_on (record o { ip = ipv4_from_str inet_pton o.ip optarg })
      else if c == b'p'
      then set_port o (atoi optarg)
      else if c == b'V'
      then set_level o (atoi optarg)
      else go_on o
  manager_option unknown o = go_on o

  abbrev pub manager_defaults : ManagerOptions
  manager_defaults = record {
    port = 4224;
    ip = record { family = 0; ipv4 = 0; ipv6_tail = [] };
    log_level = 0;
  }

  unfoldable pub manager_options : List Bytes → Parsed ManagerOptions
  manager_options args =
      each_option manager_option (options manager_optstring none args) manager_defaults

  -- `main`, in `k` rounds of its loop.
  unfoldable pub manager_main :
      {World : Type 0}
      → (run : Bytes → World → World) → ℕ
      → Bytes
      → List Bytes
      → World
      → Parsed World
  manager_main run k path args w =
      and_then (manager_options args) (λ o. go_on (run_loop run k path o.port w))
