-- ===== src/Rpc/RequestRuns.antt =====
-- Requests on the sample node: one, two from one client, and clients one after the other.
use dicon.Base.{
  map, inl, ◌≡◌, refl, none, some, List, [], ◌∷◌, ◌++◌, arith, length, length-append, if◌then◌else◌,
}
use dicon.Wire.{Bytes}
use dicon.Socket.{Conn}
use dicon.Socket.Recv.{stream}
use dicon.Memory.{Memory, allocate, free, update, within}
use dicon.Protocol.{operation_of}
use dicon.Protocol.Heads.{ReqHead, encode_req_head, encode_resp_head, length-encode_resp_head}
use dicon.Protocol.MemoryBodies.{
  encode_req_free, length-encode_req_free, encode_resp_free, length-encode_resp_free,
}
use dicon.Rpc.MemoryOps.{handle_free-freed}
use dicon.Handlers.MemoryHandlers.{handle_free}
use dicon.Node.{handler_of, dic_node_recv_send}
use dicon.Node.Serve.{IsRequest, dic_node_recv_send-unanswered}
use dicon.Node.Loop.{Request, requests, Serves, finished, answered, passed_over}
use dicon.Node.Listen.{Visit, listen_loop, nobody, client, listen_loop-ServesAll}
use dicon.Socket.Listening.{Accepted}
use dicon.Client.Transport.{dic_atomic_send_recv}
use dicon.Rpc.{node_peer}
use dicon.Rpc.Transparent.{reply, after_call, dic_atomic_send_recv-handler}
use dicon.Rpc.Sample.{os, wire, four_bytes, block_start, session, session-IsIdle, conn_to}

abbrev free_body : Bytes
free_body = encode_req_free (record { void_ptr = block_start })

-- The memory of `four_bytes` after the block is freed.
abbrev freed : Memory
freed = record {
  cell = λ q. if within block_start 4 q then none else four_bytes.cell q;
  block = update four_bytes.block block_start none;
}

freed_is : free block_start four_bytes ≡ some freed
unfolding free allocate
freed_is = refl

-- The request to free the block, as bytes on the wire.
abbrev free_head : ReqHead
free_head = record { operation = 2; version = 0; body_size = 8 }

is_request : IsRequest free_head free_body
is_request = record {
  operation = omega arith;
  version = omega arith;
  body_size = omega arith;
  length_body = length-encode_req_free (record { void_ptr = block_start });
}

abbrev freed_reply : Bytes
freed_reply = reply (encode_resp_free (record { err = 0 }))

length-freed_reply : length freed_reply ≡ 5
length-freed_reply = omega (
  arith,
  length-append
      (encode_resp_head (record { body_size = length (encode_resp_free (record { err = 0 })) }))
      (encode_resp_free (record { err = 0 })),
  length-encode_resp_head (record { body_size = length (encode_resp_free (record { err = 0 })) }),
  length-encode_resp_free (record { err = 0 }),
)

handled :
    handle_free os free_body (record { memory = four_bytes; host = [] })
    ≡ some (freed_reply, record { memory = freed; host = [] })
handled =
    handle_free-freed os block_start (record { memory = four_bytes; host = [] }) (omega arith)
      freed_is

dic_atomic_send_recv-handler_example :
    dic_atomic_send_recv
      (node_peer os wire)
      (encode_req_head free_head ++ free_body)
      (session four_bytes)
    ≡ some (
      encode_resp_free (record { err = 0 }),
      after_call
          (session four_bytes)
          (encode_req_head free_head ++ free_body)
          freed_reply
          (record { memory = freed; host = [] }),
    )
unfolding handler_of operation_of
dic_atomic_send_recv-handler_example =
    dic_atomic_send_recv-handler os wire (session four_bytes) free_head free_body (handle_free os)
      (encode_resp_free (record { err = 0 })) (record { memory = freed; host = [] })
      (session-IsIdle four_bytes) is_request refl handled (omega (arith, is_request.length_body))
      (omega (arith, length-encode_resp_free (record { err = 0 })))

-- A request to free the block, and one that the node has no handler for, then the end of the stream.
abbrev verify_head : ReqHead
verify_head = record { operation = 5; version = 0; body_size = 0 }

abbrev two_requests : List Request
two_requests =
    record { head = free_head; body = free_body } ∷ record { head = verify_head; body = [] } ∷ []

abbrev arriving : Conn
arriving = record (conn_to 4) { incoming = wire.cut (requests two_requests) }

two_served :
    Serves os two_requests
      (record { memory = four_bytes; host = [] })
      (freed_reply ++ [])
      (record { memory = freed; host = [] })
unfolding handler_of operation_of
two_served =
    answered (record { head = free_head; body = free_body }) (handle_free os) freed_reply is_request
      refl handled (omega (arith, length-freed_reply))
      (passed_over (record { head = verify_head; body = [] })
        (record {
          operation = omega arith;
          version = omega arith;
          body_size = omega arith;
          length_body = refl;
        })
        refl finished)

-- A client with the two requests, and one that hangs up at once.
abbrev accepted : List Bytes → Accepted
accepted incoming = record {
  fd = 5;
  sin_port = 40000;
  sin_family = 2;
  s_addr = 1;
  incoming = incoming;
}

abbrev visits : List Visit
visits =
    record {
      accepted = some (accepted (wire.cut (requests two_requests)));
      stale = conn_to 9;
      rounds = 3;
    }
    ∷ record { accepted = some (accepted []); stale = conn_to 9; rounds = 1 }
    ∷ []

listen_loop-ServesAll_example :
    (conns : List Conn) × (listen_loop os visits (record { memory = four_bytes; host = [] })
      ≡ some (conns, record { memory = freed; host = [] }))
    × (map (λ (c : Conn). c.sent) conns ≡ (freed_reply ++ []) ∷ [] ∷ [])
listen_loop-ServesAll_example =
    listen_loop-ServesAll os visits (record { memory = four_bytes; host = [] })
      (record { memory = freed; host = [] }) ((freed_reply ++ []) ∷ [] ∷ [])
      (client (accepted (wire.cut (requests two_requests))) (conn_to 9) two_requests
        (wire.whole (requests two_requests)) two_served
        (client (accepted []) (conn_to 9) [] refl finished nobody))

-- The second request alone.
abbrev verifying : Conn
verifying = record (conn_to 4) { incoming = wire.cut (encode_req_head verify_head ++ []) }

dic_node_recv_send-unanswered_example :
    (left : List Bytes) × (dic_node_recv_send os verifying
        (record { memory = four_bytes; host = [] })
      ≡ some (record {
        res = 0;
        conn = record verifying { incoming = left };
        process = record { memory = four_bytes; host = [] };
      }))
    × (stream left ≡ [])
unfolding operation_of
dic_node_recv_send-unanswered_example =
    dic_node_recv_send-unanswered os verifying 4 (record { memory = four_bytes; host = [] })
      verify_head [] [] refl
      (record {
        operation = omega arith;
        version = omega arith;
        body_size = omega arith;
        length_body = refl;
      })
      (inl refl) (wire.whole (encode_req_head verify_head ++ []))
