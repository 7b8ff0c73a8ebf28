-- ===== src/Dns/Wire.antt =====
-- src/dnsWire.ts: the encoding of PTR queries and the decoding of answers, over lists of bytes. A
-- `Uint8Array` keeps each number modulo 256; a read past the end by a `DataView` throws, one by an
-- index gives `undefined`, which the shifts read as 0. Exceptions are `none` or `loops`.
pub mod Ends
pub mod Names
use gwsdb.Prelude.{
  ℕ, zero, suc, ◌+◌, ◌*◌, ◌/◌, ◌%◌, Text, codes, Bool, Option, none, some, List, [], ◌∷◌, ◌++◌, map,
  ltb, leb, ◌==◌, if◌then◌else◌, length, take, drop, get_or, or_else, join, split,
}
use gwsdb.Dns.Names.{reverse_name}

abbrev pub Bytes : Type 0
Bytes = List ℕ

abbrev pub byte : ℕ → ℕ
byte n = n % 256

unfoldable pub encode_labels : List Text → Bytes
encode_labels [] = 0 ∷ []
encode_labels ([] ∷ ps) = encode_labels ps
encode_labels ((c ∷ p) ∷ ps) = byte (length (c ∷ p)) ∷ (map byte (c ∷ p) ++ encode_labels ps)

-- `encodeQName`
unfoldable pub encode_qname : Text → Bytes
unfolding encode_labels split
encode_qname name = encode_labels (split (codes ".") name)

-- `setUint16`
abbrev pub put16 : ℕ → Bytes
put16 n = n / 256 % 256 ∷ n % 256 ∷ []

-- The message of `buildPTRQuery`, without its length prefix.
unfoldable pub query_message : ℕ → Bytes → Bytes
query_message id qname =
    put16 (id % 65536)
    ++ (put16 0x0100
        ++ (put16 1 ++ (put16 0 ++ (put16 0 ++ (put16 0 ++ (qname ++ (put16 12 ++ put16 1)))))))

abbrev pub frame : Bytes → Bytes
frame msg = put16 (length msg) ++ msg

-- `buildPTRQuery`
unfoldable pub build_ptr_query : ℕ → Text → Option Bytes
unfolding query_message encode_qname reverse_name
build_ptr_query id ip = elim (reverse_name ip) [
  | none ↦ none
  | some name ↦ some (frame (query_message id (encode_qname name)))
]

-- `(len & 0xc0) === 0xc0`, of a byte.
abbrev pub is_pointer : ℕ → Bool
is_pointer b = leb 192 b

-- The loop of `skipName`: a round for each byte of the message is enough.
unfoldable pub skip_rounds : ℕ → Bytes → ℕ → ℕ
skip_rounds zero buf o = o
skip_rounds (suc f) buf o =
    let b = get_or buf o 0 in
    let rest = skip_rounds f buf (o + 1 + b) in
    if ltb o (length buf)
    then (if b == 0 then o + 1 else if is_pointer b then o + 2 else rest)
    else o

unfoldable pub skip_name : Bytes → ℕ → ℕ
unfolding skip_rounds
skip_name buf offset = skip_rounds (length buf) buf offset

pub data Decoded : Type 0 where
  decoded : Text → ℕ → Decoded
  loops : Decoded
  out_of_fuel : Decoded

-- The variables of the loop of `decodeName`.
pub record Cursor : Type 0 where
  pub labels : List Text
  pub at : ℕ
  pub next : Option ℕ
  pub jumps : ℕ

abbrev finish : Cursor → ℕ → Decoded
finish c after = decoded (join (codes ".") c.labels) (or_else c.next after)

-- A pointer is followed; only the first one moves the end of the name.
abbrev pub jump : Bytes → Cursor → Cursor
jump buf c = record c {
  at = get_or buf c.at 0 % 64 * 256 + get_or buf (c.at + 1) 0;
  next = some (or_else c.next (c.at + 2));
  jumps = c.jumps + 1;
}

-- A label is read.
abbrev pub walk : Bytes → Cursor → Cursor
walk buf c = record c {
  labels = c.labels ++ take (get_or buf c.at 0) (drop (c.at + 1) buf) ∷ [];
  at = c.at + 1 + get_or buf c.at 0;
}

unfoldable pub decode_rounds : ℕ → Bytes → Cursor → Decoded
unfolding join
decode_rounds zero buf c = out_of_fuel
decode_rounds (suc f) buf c =
    let b = get_or buf c.at 0 in
    let jumped = decode_rounds f buf (jump buf c) in
    let walked = decode_rounds f buf (walk buf c) in
    if ltb c.at (length buf)
    then (if b == 0
        then finish c (c.at + 1)
        else if is_pointer b
        then (if ltb 20 c.jumps then loops else jumped)
        else walked)
    else finish c c.at

-- Between two jumps the loop walks forward, and it follows 21 pointers at most.
abbrev pub decode_fuel : Bytes → ℕ
decode_fuel buf = 23 * (length buf + 2)

-- `decodeName`
unfoldable pub decode_name : Bytes → ℕ → Decoded
unfolding decode_rounds
decode_name buf offset =
    decode_rounds (decode_fuel buf) buf
      (record { labels = []; at = offset; next = none; jumps = 0 })

pub record DnsAnswer : Type 0 where
  pub type : ℕ
  pub ttl : ℕ
  pub content : Text

pub record DnsResponse : Type 0 where
  pub id : ℕ
  pub rcode : ℕ
  pub answers : List DnsAnswer

-- `getUint16` and `getUint32`
unfoldable pub get16 : Bytes → ℕ → Option ℕ
get16 buf o =
    if leb (o + 2) (length buf) then some (get_or buf o 0 * 256 + get_or buf (o + 1) 0) else none

infixl 5 ◌>>=◌
abbrev pub ◌>>=◌ {ℓ κ} : {A : Type ℓ} {B : Type κ} → Option A → (A → Option B) → Option B
none >>= f = none
some a >>= f = f a

unfoldable pub get32 : Bytes → ℕ → Option ℕ
unfolding get16
get32 buf o = do hi ← get16 buf o; lo ← get16 buf (o + 2); some (hi * 65536 + lo)

-- The loop over the questions.
unfoldable pub skip_questions : ℕ → Bytes → ℕ → ℕ
unfolding skip_name
skip_questions zero buf o = o
skip_questions (suc n) buf o = skip_questions n buf (skip_name buf o + 4)

-- The record of an answer of type PTR.
unfoldable pub ptr_answer : ℕ → Decoded → Option (List DnsAnswer)
ptr_answer ttl (decoded name next) = some (record { type = 12; ttl = ttl; content = name } ∷ [])
ptr_answer ttl _ = none

-- The loop over the answers.
unfoldable pub read_answers : ℕ → Bytes → ℕ → Option (List DnsAnswer)
unfolding get16 get32 decode_name ptr_answer
read_answers zero buf o = some []
read_answers (suc n) buf o =
    let name_end = skip_name buf o in
    do
      type ← get16 buf name_end
      ttl ← get32 buf (name_end + 4)
      rdlength ← get16 buf (name_end + 8)
      here ← if type == 12 then ptr_answer ttl (decode_name buf (name_end + 10)) else some []
      rest ← read_answers n buf (name_end + 10 + rdlength)
      some (here ++ rest)

-- `parseMessage`
unfoldable pub parse_message : Bytes → Option DnsResponse
unfolding get16 skip_questions read_answers
parse_message buf = if ltb (length buf) 12 then none else do
  id ← get16 buf 0
  qdcount ← get16 buf 4
  ancount ← get16 buf 6
  answers ← read_answers ancount buf (skip_questions qdcount buf 12)
  some (record { id = id; rcode = get_or buf 3 0 % 16; answers = answers })
