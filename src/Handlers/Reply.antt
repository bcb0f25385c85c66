-- ===== src/Handlers/Reply.antt =====
-- RESP_BUILDER_INIT, RESP_SET_HEAD and RESP_BUILD_RET, and reads that may run into a block's slack.
use dicon.Base.{
  ℕ, ◌+◌, ◌-◌, ◌%◌, ◌^◌, Option, none, some, [], ◌∷◌, ◌++◌, ltb, leb, ◌==◌, if◌then◌else◌, length,
  take,
}
use dicon.Wire.{Bytes, ◌>>=◌, ◌>>◌, guard}
use dicon.Platform.{Platform, Process}
use dicon.Protocol.Heads.{encode_resp_head}

abbrev pub Handler : Type 0 → Type 0
Handler Host = Bytes → Process Host → Option (Bytes × Process Host)

abbrev pub resp_head_size : ℕ
resp_head_size = 4

-- A C string in a buffer, without its NUL; `none` where the buffer ends first.
unfoldable pub c_string : Bytes → Option Bytes
c_string [] = none
c_string (c ∷ cs) =
    let rest = c_string cs in if c == 0 then some [] else (rest >>= λ s. some (c ∷ s))

-- A response whose structure and flexible array take `size` bytes, with `body` written into it. The
-- `int` that holds the length must not be negative, as `malloc` would get a huge size and fail, and
-- the writes must stay in the block.
unfoldable pub response : {Host : Type 0} → Platform Host → ℕ → Bytes → Option Bytes
response os size body = do
  let msg_len = (resp_head_size + size) % 2 ^ 32
  guard (ltb msg_len (2 ^ 31))
  guard (leb (resp_head_size + length body) (msg_len + length (os.slack msg_len)))
  some (
      take msg_len (
        encode_resp_head (record { body_size = (msg_len + 2 ^ 32 - resp_head_size) % 2 ^ 32 })
        ++ body))
