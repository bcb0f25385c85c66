-- ===== src/Client/NodesConnect.antt =====
-- diconlib/src/client_main_communication.c, `dic_nodes_connect_all`: the connections that it makes.
use dicon.Base.{ℕ, none, some, List, [], ◌∷◌}
use dicon.Socket.{Conn}

-- The descriptors that are open when `conns` have been made, the latest first.
abbrev pub opened : List Conn → List ℕ → List ℕ
opened [] fds = fds
opened (c ∷ conns) fds = opened conns (elim c.sockfd [ none ↦ fds | some fd ↦ fd ∷ fds ])
