-- ===== src/Protocol.antt =====
-- common/include/dicon_protocol.h: the operations of the client-node protocol, and its structures.
pub mod Heads
pub mod MemoryBodies
pub mod CopyBodies
pub mod ObjectBodies
pub mod FunctionBodies
use dicon.Base.{◌<◌, ℕ, Option, none, some, ◌==◌, if◌then◌else◌, ◌≡◌, refl, arith}

-- `enum DIC_OPERATION`
pub data Operation : Type 0 where
  dic_malloc dic_realloc dic_free : Operation
  dic_memcpy_c2n dic_memcpy_n2c : Operation
  dic_so_verify dic_so_load dic_so_unload dic_so_upload : Operation
  dic_func_load : Operation
  dic_run dic_join : Operation

-- The values of the enumeration.
unfoldable pub code : Operation → ℕ
code dic_malloc = 0
code dic_realloc = 1
code dic_free = 2
code dic_memcpy_c2n = 3
code dic_memcpy_n2c = 4
code dic_so_verify = 5
code dic_so_load = 6
code dic_so_unload = 7
code dic_so_upload = 8
code dic_func_load = 9
code dic_run = 10
code dic_join = 11

-- The operation that a value of `head.operation` stands for, as the node's `switch` reads it.
unfoldable pub operation_of : ℕ → Option Operation
operation_of n =
    if n == 0
    then some dic_malloc
    else if n == 1
    then some dic_realloc
    else if n == 2
    then some dic_free
    else if n == 3
    then some dic_memcpy_c2n
    else if n == 4
    then some dic_memcpy_n2c
    else if n == 5
    then some dic_so_verify
    else if n == 6
    then some dic_so_load
    else if n == 7
    then some dic_so_unload
    else if n == 8
    then some dic_so_upload
    else if n == 9
    then some dic_func_load
    else if n == 10
    then some dic_run
    else if n == 11
    then some dic_join
    else none

-- The values of the enumeration are told apart.
pub operation_of-code : (o : Operation) → operation_of (code o) ≡ some o
unfolding code operation_of
operation_of-code o = ground arith

pub code-lt : (o : Operation) → code o < 12
unfolding code
code-lt o = ground arith
