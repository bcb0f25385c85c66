-- ===== src/Start/Fixed.antt =====
-- What the options of the node and of the main server leave as it is.
use dicon.Base.{
  ℕ, ◌≡◌, refl, Bool, true, false, Option, none, some, List, arith, ◌==◌, if◌then◌else◌,
}
use mathlib.Core.Path.{subst}
use dicon.Wire.{Bytes}
use dicon.Socket.{IpAddr}
use dicon.Start.Getopt.{
  Opt, flag, valued, unknown, options, Parsed, help_and_exit, go_on, go_on_injective,
  each_option-keeps,
}
use dicon.Start.Numbers.{atoi}
use dicon.Start.NodeMain.{
  NodeOptions, level_of, node_option, node_options, node_optstring, node_defaults,
}
use dicon.Start.MainServerMain.{
  MainServerOptions, main_server_level, main_server_option, main_server_options,
  main_server_optstring,
}

-- `main_server_addr` is not read before it is set.
abbrev pub IsNode : IpAddr → NodeOptions → Type 0
IsNode stale o =
    (o.port ≡ 4224)
    × (o.main_server_port ≡ 4225)
    × (o.main_server_specified ≡ false → o.main_server_addr ≡ stale)

abbrev Kept : {A : Type 0} (P : A → Type 0) → Parsed A → Type 0
Kept {A} P p = (a : A) → p ≡ go_on a → P a

Kept-go_on : {A : Type 0} (P : A → Type 0) (a : A) → P a → Kept P (go_on a)
Kept-go_on P a holds b is = subst P (go_on_injective is) holds

Kept-if :
    {A : Type 0} (P : A → Type 0) (b : Bool) (p q : Parsed A)
    → Kept P p
    → Kept P q
    → Kept P (if b then p else q)
Kept-if P true p q left right = left
Kept-if P false p q left right = right

Kept-help : {A : Type 0} (P : A → Type 0) → Kept P help_and_exit
Kept-help P a is = ground (arith, is)

module _ (inet_pton : ℕ → List ℕ → Option (ℕ × List ℕ)) (stale : IpAddr) where
  level-IsNode :
      (o : NodeOptions) (n : Option ℕ)
      → IsNode stale o
      → Kept (IsNode stale) (level_of (λ l. record o { log_level = l }) n)
  level-IsNode o none holds a is = ground (arith, is)
  level-IsNode o (some n) holds a is =
      Kept-go_on (IsNode stale) (record o { log_level = n }) holds a is

  node_option-IsNode :
      (c : Opt) (o d : NodeOptions)
      → node_option inet_pton stale c o ≡ go_on d
      → IsNode stale o
      → IsNode stale d
  unfolding node_option
  node_option-IsNode (flag c) o d is holds =
      Kept-if (IsNode stale) (c == b'h') help_and_exit (go_on o) (Kept-help (IsNode stale))
        (Kept-go_on (IsNode stale) o holds) d is
  node_option-IsNode (valued c optarg) o d is (port, main_port, unset) =
      Kept-if (IsNode stale) (c == b'm') _ _
        (Kept-go_on (IsNode stale) _ (port, main_port, λ unspecified. ground (arith, unspecified)))
        (Kept-if (IsNode stale) (c == b'V') _ (go_on o)
          (level-IsNode o (atoi optarg) (port, main_port, unset))
          (Kept-go_on (IsNode stale) o (port, main_port, unset)))
        d is
  node_option-IsNode unknown o d is holds = Kept-go_on (IsNode stale) o holds d is

  -- Whatever its arguments are, a node that goes on listens on port 4224 and takes 4225 for the port of the main
  -- server, and it has not set the address of a main server where it is given none.
  pub node_options-IsNode :
      (args : List Bytes) (o : NodeOptions)
      → node_options inet_pton stale args ≡ go_on o
      → IsNode stale o
  unfolding node_options
  node_options-IsNode args o is =
      each_option-keeps (IsNode stale) (node_option inet_pton stale)
        (options node_optstring none args) (node_defaults inet_pton stale) o node_option-IsNode is
        (refl, refl, λ unset. refl)

abbrev IsMainServer : MainServerOptions → Type 0
IsMainServer o = o.port ≡ 4225

level-IsMainServer :
    (o : MainServerOptions) (n : Option ℕ)
    → IsMainServer o
    → Kept IsMainServer (main_server_level o n)
level-IsMainServer o none holds a is = ground (arith, is)
level-IsMainServer o (some n) holds a is =
    Kept-go_on IsMainServer (record o { log_level = n }) holds a is

main_server_option-IsMainServer :
    (c : Opt) (o d : MainServerOptions)
    → main_server_option c o ≡ go_on d
    → IsMainServer o
    → IsMainServer d
unfolding main_server_option
main_server_option-IsMainServer (flag c) o d is holds =
    Kept-if IsMainServer (c == b'h') help_and_exit (go_on o) (Kept-help IsMainServer)
      (Kept-go_on IsMainServer o holds) d is
main_server_option-IsMainServer (valued c optarg) o d is holds =
    Kept-if IsMainServer (c == b'V') _ (go_on o) (level-IsMainServer o (atoi optarg) holds)
      (Kept-go_on IsMainServer o holds) d is
main_server_option-IsMainServer unknown o d is holds = Kept-go_on IsMainServer o holds d is

-- The main server takes "-p" and "-a" with their arguments, and listens on 4225 all the same.
pub main_server_options-port :
    (args : List Bytes) (o : MainServerOptions) → main_server_options args ≡ go_on o → o.port ≡ 4225
unfolding main_server_options
main_server_options-port args o is =
    each_option-keeps IsMainServer main_server_option (options main_server_optstring none args)
      (record { port = 4225; log_level = 0 }) o main_server_option-IsMainServer is refl
