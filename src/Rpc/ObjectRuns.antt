-- ===== src/Rpc/ObjectRuns.antt =====
-- The calls for shared objects, functions and threads on the sample node.
use dicon.Base.{ℕ, ◌≡◌, refl, none, some, List, [], ◌∷◌, arith}
use dicon.Wire.{Bytes}
use dicon.Platform.{Platform, Process}
use dicon.Protocol.{dic_so_upload, dic_func_load, dic_run}
use dicon.Protocol.ObjectBodies.{encode_req_so_load, encode_req_so_upload, encode_resp_so_upload}
use dicon.Protocol.FunctionBodies.{
  encode_req_func_load, encode_resp_func_load, encode_req_run, encode_resp_run,
}
use dicon.Handlers.Reply.{c_string}
use dicon.Handlers.ObjectHandlers.{so_path, handle_so_load}
use dicon.Client.Transport.{Session}
use dicon.Client.ObjectCalls.{dic_so_load_call, dic_so_upload_call, dic_so_verify_call}
use dicon.Client.ThreadCalls.{dic_func_load_call, dic_rthread_run}
use dicon.Rpc.{NodeEnd, node_peer}
use dicon.Rpc.Transparent.{reply, after_call}
use dicon.Rpc.Calls.{message}
use dicon.Rpc.Objects.{
  IsCString, load_of, upload_of, after_load, dic_so_load-dlopen, dic_so_verify-dlopen,
  dic_so_upload-write_file,
}
use dicon.Rpc.Objects.Handled.{handle_so_load-overrun}
use dicon.Rpc.Threads.{dic_rthread_run-pthread_create, dic_func_load-dlsym}
use dicon.Rpc.Sample.{os, wire, empty, session, session-IsIdle}

abbrev slack : ℕ → Bytes
slack n = 0 ∷ []

-- "ab"
abbrev name : Bytes
name = b'a' ∷ b'b' ∷ []

name_is : IsCString name
name_is = (omega arith, (omega arith, tt))

abbrev start : Session (NodeEnd (List Bytes))
start = session empty

abbrev process : Process (List Bytes)
process = record { memory = empty; host = [] }

-- The same node on an allocator that grants what it is asked for and no more.
abbrev tight : Platform (List Bytes)
tight = record os { slack = λ n. [] }

handle_so_load-overrun_example :
    handle_so_load tight (encode_req_so_load (load_of name)) process ≡ none
handle_so_load-overrun_example =
    handle_so_load-overrun tight name process name_is (omega arith) (omega arith)

dic_so_load-dlopen_example :
    dic_so_load_call slack (node_peer os wire) name start
    ≡ some
        (1018, after_load slack os wire start (session-IsIdle empty) name 1018 (so_path name ∷ []))
dic_so_load-dlopen_example =
    dic_so_load-dlopen slack os wire start (session-IsIdle empty) name 1018 (so_path name ∷ [])
      name_is (omega arith) (omega arith) (omega arith) refl

dic_so_verify-dlopen_example :
    dic_so_verify_call slack (node_peer os wire) name start
    ≡ some
        (1018, after_load slack os wire start (session-IsIdle empty) name 1018 (so_path name ∷ []))
dic_so_verify-dlopen_example =
    dic_so_verify-dlopen slack os wire start (session-IsIdle empty) name 1018 (so_path name ∷ [])
      name_is (omega arith) (omega arith) (omega arith) refl

dic_so_upload-write_file_example :
    dic_so_upload_call slack (node_peer os wire) (some (1 ∷ 2 ∷ [])) name start
    ≡ some (
      7,
      after_call start
          (message dic_so_upload (encode_req_so_upload (upload_of name (1 ∷ 2 ∷ []))))
          (reply (encode_resp_so_upload (record { success = 7 })))
          (record { memory = empty; host = (1 ∷ 2 ∷ []) ∷ so_path name ∷ [] }),
    )
dic_so_upload-write_file_example =
    dic_so_upload-write_file slack os wire start (session-IsIdle empty) name (1 ∷ 2 ∷ [])
      ((1 ∷ 2 ∷ []) ∷ so_path name ∷ []) name_is (omega arith) refl (omega arith)

dic_rthread_run-pthread_create_example :
    dic_rthread_run slack (node_peer os wire) 1020 4096 start
    ≡ some (
      5116,
      after_call start
          (message dic_run (encode_req_run (record { func_ptr = 1020; args_ptr = 4096 })))
          (reply (encode_resp_run (record { tid = 5116 })))
          process,
    )
dic_rthread_run-pthread_create_example =
    dic_rthread_run-pthread_create slack os wire start (session-IsIdle empty) 1020 4096 5116 process
      (omega arith) (omega arith) (omega arith) refl

dic_func_load-dlsym_example :
    dic_func_load_call slack (node_peer os wire) 1018 name start
    ≡ some (
      1020,
      after_call start
          (message dic_func_load
            (encode_req_func_load (record { so_handle = 1018; symlen = 2; symbol = name })))
          (reply (encode_resp_func_load (record { func_ptr = 1020 })))
          process,
    )
unfolding c_string
dic_func_load-dlsym_example =
    dic_func_load-dlsym slack os wire start (session-IsIdle empty) 1018 name name (omega arith)
      (omega arith) (omega arith) refl (omega arith)
