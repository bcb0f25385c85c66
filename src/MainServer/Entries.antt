-- ===== src/MainServer/Entries.antt =====
-- common/include/dicon_main_server_protocol.h: an entry of the list, and the response that holds them.
-- A node's entry is its address, which is 20 bytes, and its number of cores.
use dicon.Base.{
  ℕ, zero, suc, ◌+◌, ◌*◌, ◌<◌, ◌^◌, ◌≡◌, refl, Option, none, some, List, [], ◌∷◌, ◌++◌, arith,
  length, length-append, append_assoc,
}
use dicon.Wire.{Bytes, le_bytes, get_field, ◌>>=◌}
use dicon.Wire.Fields.{length-le_bytes, get_field-le_bytes}
use dicon.Registry.{NodeInfo}

-- Reading an array of bytes.
pub get_bytes : ℕ → Bytes → Option (Bytes × Bytes)
get_bytes zero bs = some ([], bs)
get_bytes (suc n) [] = none
get_bytes (suc n) (b ∷ bs) = do (front, rest) ← get_bytes n bs; some (b ∷ front, rest)

pub get_bytes-append :
    (n : ℕ) (front rest : Bytes)
    → length front ≡ n
    → get_bytes n (front ++ rest) ≡ some (front, rest)
unfolding get_bytes
get_bytes-append zero [] rest is = refl
get_bytes-append zero (b ∷ front) rest is = absurd (omega arith)
get_bytes-append (suc n) [] rest is = absurd (omega arith)
get_bytes-append (suc n) (b ∷ front) rest is = rw (get_bytes-append n front rest (omega arith))

unfoldable pub encode_node_info : NodeInfo → Bytes
encode_node_info i =
    le_bytes 4 i.address.family
    ++ (le_bytes 4 i.address.ipv4 ++ (i.address.ipv6_tail ++ le_bytes 4 i.core_count))

unfoldable pub decode_node_info : Bytes → Option (NodeInfo × Bytes)
decode_node_info bytes = do
  (family, after_family) ← get_field 4 bytes
  (ipv4, after_ipv4) ← get_field 4 after_family
  (tail, after_address) ← get_bytes 12 after_ipv4
  (core_count, rest) ← get_field 4 after_address
  some (
    record {
      address = record { family = family; ipv4 = ipv4; ipv6_tail = tail };
      core_count = core_count;
    },
    rest,
  )

unfoldable pub encode_node_infos : List NodeInfo → Bytes
encode_node_infos [] = []
encode_node_infos (i ∷ is) = encode_node_info i ++ encode_node_infos is

unfoldable pub decode_node_infos : ℕ → Bytes → Option (List NodeInfo)
decode_node_infos zero bytes = some []
decode_node_infos (suc n) bytes = do
  (i, rest) ← decode_node_info bytes
  is ← decode_node_infos n rest
  some (i ∷ is)

-- `dic_resp_get_info`
unfoldable pub encode_get_info : ℕ → List NodeInfo → Bytes
encode_get_info count nodes = le_bytes 4 count ++ encode_node_infos nodes

unfoldable pub decode_get_info : Bytes → Option (ℕ × List NodeInfo)
decode_get_info bytes = do
  (count, rest) ← get_field 4 bytes
  nodes ← decode_node_infos count rest
  some (count, nodes)

-- The fields of an entry fit their widths.
pub record Fits (i : NodeInfo) : Type 0 where
  pub family : i.address.family < 2 ^ 32
  pub ipv4 : i.address.ipv4 < 2 ^ 32
  pub tail : length i.address.ipv6_tail ≡ 12
  pub core_count : i.core_count < 2 ^ 32

abbrev pub AllFit : List NodeInfo → Type 0
AllFit [] = Unit {0}
AllFit (i ∷ is) = Fits i × AllFit is

pub AllFit-append : (is js : List NodeInfo) → AllFit is → AllFit js → AllFit (is ++ js)
AllFit-append [] js all all' = all'
AllFit-append (i ∷ is) js (fits, all) all' = (fits, AllFit-append is js all all')

decode_node_info-encode_node_info :
    (i : NodeInfo) (rest : Bytes)
    → Fits i
    → decode_node_info (encode_node_info i ++ rest) ≡ some (i, rest)
unfolding encode_node_info decode_node_info
decode_node_info-encode_node_info i rest fits =
    let family = le_bytes 4 i.address.family in
    let ipv4 = le_bytes 4 i.address.ipv4 in
    let tail = i.address.ipv6_tail in
    let cores = le_bytes 4 i.core_count in
    rw (
      append_assoc family (ipv4 ++ (tail ++ cores)) rest,
      append_assoc ipv4 (tail ++ cores) rest,
      append_assoc tail cores rest,
      get_field-le_bytes 4 i.address.family (ipv4 ++ (tail ++ (cores ++ rest))) fits.family,
      get_field-le_bytes 4 i.address.ipv4 (tail ++ (cores ++ rest)) fits.ipv4,
      get_bytes-append 12 tail (cores ++ rest) fits.tail,
      get_field-le_bytes 4 i.core_count rest fits.core_count,
    )

pub decode_node_infos-encode_node_infos :
    (is : List NodeInfo)
    → AllFit is
    → decode_node_infos (length is) (encode_node_infos is) ≡ some is
unfolding encode_node_infos decode_node_infos
decode_node_infos-encode_node_infos [] fits = refl
decode_node_infos-encode_node_infos (i ∷ is) (fits, all) = rw (
  decode_node_info-encode_node_info i (encode_node_infos is) fits,
  decode_node_infos-encode_node_infos is all,
)

pub length-encode_node_info : (i : NodeInfo) → Fits i → length (encode_node_info i) ≡ 24
unfolding encode_node_info
length-encode_node_info i fits =
    let family = le_bytes 4 i.address.family in
    let ipv4 = le_bytes 4 i.address.ipv4 in
    let tail = i.address.ipv6_tail in
    let cores = le_bytes 4 i.core_count in
    omega (
      arith,
      fits.tail,
      length-append family (ipv4 ++ (tail ++ cores)),
      length-append ipv4 (tail ++ cores),
      length-append tail cores,
      length-le_bytes 4 i.address.family,
      length-le_bytes 4 i.address.ipv4,
      length-le_bytes 4 i.core_count,
    )

pub length-encode_node_infos :
    (is : List NodeInfo) → AllFit is → length (encode_node_infos is) ≡ 24 * length is
unfolding encode_node_infos
length-encode_node_infos [] fits = omega arith
length-encode_node_infos (i ∷ is) (fits, all) = omega (
  arith,
  length-append (encode_node_info i) (encode_node_infos is),
  length-encode_node_info i fits,
  length-encode_node_infos is all,
)

-- A response is read back as it was written.
pub decode_get_info-encode_get_info :
    (is : List NodeInfo)
    → AllFit is
    → length is < 2 ^ 32
    → decode_get_info (encode_get_info (length is) is) ≡ some (length is, is)
unfolding encode_get_info decode_get_info
decode_get_info-encode_get_info is all fits = rw (
  get_field-le_bytes 4 (length is) (encode_node_infos is) fits,
  decode_node_infos-encode_node_infos is all,
)

pub length-encode_get_info :
    (is : List NodeInfo) → AllFit is → length (encode_get_info (length is) is) ≡ 4 + 24 * length is
unfolding encode_get_info
length-encode_get_info is all = omega (
  arith,
  length-append (le_bytes 4 (length is)) (encode_node_infos is),
  length-le_bytes 4 (length is),
  length-encode_node_infos is all,
)
