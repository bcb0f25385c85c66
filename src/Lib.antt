-- ===== src/Lib.antt =====
-- DiCoN (Distributed Computing over Network): a client runs functions of shared objects on compute nodes, over TCP.
-- A node serves the requests of one client after another; a main server keeps the list of nodes that have announced
-- themselves. This library models the program's C code and proves that its parts do what they are for.
--
-- The parts, the code, and the files here:
-- - Socket, for common/src/dicon_sockets.c: `tcp_connect`, `tcp_recv_n`, `dic_conn_new`, `dic_conn_tryconnect`,
--   `dic_conn_disconnect`, `dic_conn_send`, `dic_conn_recv`, and in Socket.Listening the server's side. A connection
--   `Conn` is the structure, the segments that are to arrive, and the bytes that were sent. The segments are an
--   argument: theorems hold for all of them.
-- - Wire and Protocol, for common/include/dicon_protocol.h: a packed structure is its fields in little-endian order,
--   end to end; `encode_x` writes it and `decode_x` reads it from the front of a buffer. Both ends are little-endian
--   machines, as the code, which casts structures to bytes, takes for granted.
-- - Checksum, for common/src/so_operations.c: `dic_checksum` on the bytes of a file.
-- - Memory and Platform: what the node's process works on. `malloc`, `realloc`, `free`, loads and stores are defined
--   on a map from addresses to bytes. Which address the allocator picks, the loader, the files and the threads are a
--   record of functions, an argument of the handlers; `Allocates` is what C promises of `malloc`.
-- - Handlers, for the `handle_...` functions of node/src/node_client_communication.c, and Node, for its
--   `dic_node_recv_send` and for `client_handling_loop` and `listen_loop` of node/src/main.c.
-- - Client, for diconlib/src/client_node_communication.c: the builders of requests, `dic_atomic_send_recv`, and each
--   call. The C functions `dic_memcpy_c2n`, `dic_memcpy_n2c`, `dic_so_...` and `dic_func_load` have the names of operations
--   of the protocol in lower case, so here they end in `_call`.
-- - Rpc: the client and the node wired to each other. `Wire` cuts what either side sends into segments.
-- - Channel, for the two locks in `dic_atomic_send_recv`: the calls of several threads over one connection, as a step
--   relation. Between two steps a thread stands between two calls of that function.
-- - Registry, for the linked list of main-server/src/main.c: nodes at addresses of a heap, with every read and write
--   checked: `append_info`, `remove_info`, and the two loops of `handle_get_info`.
-- - MainServer, for the rest of main-server/src/main.c and for common/include/dicon_main_server_protocol.h: the
--   handlers, a turn of `connection_handler_thread`, and the server with all its threads as a step relation. Node.Announce is
--   node/src/node_main_communication.c, Client.MainCalls is diconlib/src/client_main_communication.c; MainServer.Directory wires
--   the two to the server.
-- - Client.Devices, for diconlib/include/client_node_communication.h: several connections, and remote pointers, handles
--   and threads that name theirs. A `dic_conn_t *` is a position in the client's array of nodes.
-- - Demo, for what demo/find-primes/main.c and demo/hash-cracker/cracker.c run on the nodes, for the division of a range
--   among all cores in both programs' `main`, and, in Demo.PrimesClient and Demo.CrackClient, for
--   these `main` on their nodes; Demo.CommTest is demo/mem_manipulation/comm_tst.c, and
--   Demo.HelloWorld demo/hello_world/main.c.
--   There the platform of the nodes is an argument, and `Worker` and `Loader` say what is relied on: that a thread
--   runs its function on its arguments and its result stays for `pthread_join`, and that `dlopen` opens the file
--   that was written.
-- - Start, for the `main` of node/src/main.c, of main-server/src/main.c and of node-manager/src/main.c: Getopt is the C
--   library's `getopt` for short options, Numbers its `atoi` and "%d"; NodeMain, MainServerMain and Manager are the
--   programs' options and what they go on with.
-- - Base: the names shared by all.
--
-- Results of a computation. `none` is undefined behaviour (a read or a write outside a block, a decode of bytes that
-- did not arrive), or a call that does not return. A read or write past the end of a block is let through as far as the
-- allocator granted bytes behind it: those bytes are the argument `slack`. Machine integers are natural numbers with
-- their wrap-around written out, an `int` by its bit pattern.
--
-- In a run of the main server `fault` is a read or write through NULL or a freed node, or past the four bytes that an
-- announcement's body has on the stack.
--
-- Loops. `recv_loop` has n + 1 rounds for n bytes, as each call of `recv` takes a byte at least. `checksum_loop` has one
-- round more than the file has bytes, as each buffer takes one at least. The loops over the list take a number of
-- rounds that is at least its length. `client_handling_loop` runs for ever by design: it takes a number of rounds, and
-- one more than there are requests is enough; `listen_loop` takes what `accept` gives, one after the other.
-- `retry` takes what the kernel answers to the attempts, and the loop of the node manager a number of rounds. The loops
-- of the demos take one round more than their ranges have numbers.
--
-- Not modelled: the scratch blocks that the code allocates and frees in one function, which are values here, so that
-- `malloc` is taken to grant them; a `send` that takes less than it is given; logging, and the text of the help; the demo main-server-test; the calls that connect a demo, which are in Client.
pub mod Base
pub mod Wire
pub mod Socket
pub mod Protocol
pub mod Checksum
pub mod Memory
pub mod Node
pub mod Client
pub mod Rpc
pub mod Registry
pub mod MainServer
pub mod Channel
pub mod Demo
pub mod Start
pub mod Platform
pub mod Handlers
