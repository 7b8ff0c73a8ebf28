-- ===== src/Dns/Wire/Names.antt =====
-- A name that `encodeQName` of src/dnsWire.ts writes, read by its `decodeName`.
use mathlib.Core.List.{append_assoc, append-nil}
use gwsdb.Prelude.{
  ℕ, zero, suc, ◌+◌, ◌≤◌, ◌<◌, Text, codes, true, false, none, List, [], ◌∷◌, ◌++◌, map, ◌≡◌, refl,
  sym, ap, ◌∙◌, arith, ltb, ◌==◌, length, get_or, take, drop, any, every, All, length-append, join,
  split, split-piece_of_one, split-none_of_one,
}
use gwsdb.Dns.Wire.{
  Bytes, byte, is_pointer, decoded, Cursor, decode_rounds, decode_name, encode_labels, encode_qname,
}

-- A label that the wire can hold: 1 to 191 bytes, with no dot. (The protocol allows 63.)
pub record IsLabel (l : Text) : Type 0 where
  pub some_byte : 1 ≤ length l
  pub short : length l ≤ 191
  pub bytes : every (λ c. ltb c 256) l ≡ true
  pub no_dot : any (λ c. c == b'.') l ≡ false

map-byte : (l : Text) → every (λ c. ltb c 256) l ≡ true → map byte l ≡ l
map-byte [] h = refl
map-byte (c ∷ l) h =
    let same : byte c ≡ c = ground arith in rw same (ap (◌∷◌ c) (map-byte l (ground arith)))

get_or-here : (xs : Bytes) (b : ℕ) (ys : Bytes) → get_or (xs ++ b ∷ ys) (length xs) 0 ≡ b
get_or-here [] b ys = refl
get_or-here (x ∷ xs) b ys = get_or-here xs b ys

drop-here : (xs : Bytes) (b : ℕ) (ys : Bytes) → drop (length xs + 1) (xs ++ b ∷ ys) ≡ ys
drop-here [] b ys = refl
drop-here (x ∷ xs) b ys =
    let next : suc (length xs) + 1 ≡ suc (length xs + 1) = omega arith in
    rw next (drop-here xs b ys)

take-length : (xs ys : Bytes) → take (length xs) (xs ++ ys) ≡ xs
take-length [] ys = refl
take-length (x ∷ xs) ys = ap (◌∷◌ x) (take-length xs ys)

abbrev cursor : List Text → ℕ → Cursor
cursor labels at = record { labels = labels; at = at; next = none; jumps = 0 }

decode_rounds-label :
    (f b : ℕ) (buf : Bytes) (labels : List Text) (at : ℕ)
    → get_or buf at 0 ≡ b
    → at < length buf
    → 1 ≤ b
    → b ≤ 191
    → decode_rounds (suc f) buf (cursor labels at)
      ≡ decode_rounds f buf (cursor (labels ++ take b (drop (at + 1) buf) ∷ []) (at + 1 + b))
unfolding decode_rounds
decode_rounds-label f b buf labels at e within low high =
    let inside : ltb at (length buf) ≡ true = ground arith in
    let more : (b == 0) ≡ false = ground arith in
    let label : is_pointer b ≡ false = ground arith in rw (e, inside, more, label) refl

decode_rounds-end :
    (f : ℕ) (buf : Bytes) (labels : List Text) (at : ℕ)
    → get_or buf at 0 ≡ 0
    → at < length buf
    → decode_rounds (suc f) buf (cursor labels at) ≡ decoded (join (codes ".") labels) (at + 1)
unfolding decode_rounds
decode_rounds-end f buf labels at e within =
    let inside : ltb at (length buf) ≡ true = ground arith in rw (e, inside) refl

encode_labels-cons :
    (l : Text) (ls : List Text)
    → IsLabel l
    → encode_labels (l ∷ ls) ≡ length l ∷ (l ++ encode_labels ls)
unfolding encode_labels
encode_labels-cons [] ls h = absurd (omega (arith, h.some_byte))
encode_labels-cons (c ∷ l) ls h =
    let size : byte (length (c ∷ l)) ≡ length (c ∷ l) = omega (arith, h.short) in
    let same = map-byte (c ∷ l) h.bytes in
    ap (λ n. n ∷ (map byte (c ∷ l) ++ encode_labels ls)) size
    ∙ ap (λ t. length (c ∷ l) ∷ (t ++ encode_labels ls)) same

split-join :
    (l : Text) (ls : List Text)
    → All IsLabel (l ∷ ls)
    → split (codes ".") (join (codes ".") (l ∷ ls)) ≡ l ∷ ls
unfolding join
split-join l [] h = split-none_of_one b'.' l h.0.no_dot
split-join l (k ∷ ls) h = split-piece_of_one b'.' l _ h.0.no_dot ∙ ap (◌∷◌ l) (split-join k ls h.1)

decode_rounds-labels :
    (ls : List Text) (f : ℕ) (before rest : Bytes) (labels : List Text)
    → All IsLabel ls
    → length ls < f
    → decode_rounds f (before ++ (encode_labels ls ++ rest)) (cursor labels (length before))
      ≡ decoded (join (codes ".") (labels ++ ls)) (length before + length (encode_labels ls))
unfolding encode_labels
decode_rounds-labels ls zero before rest labels h enough = absurd (omega arith)
decode_rounds-labels [] (suc f) before rest labels h enough =
    decode_rounds-end f (before ++ 0 ∷ rest) labels (length before) (get_or-here before 0 rest)
      (omega (arith, length-append before (0 ∷ rest)))
    ∙ ap (λ ls. decoded (join (codes ".") ls) (length before + 1)) (sym (append-nil labels))
decode_rounds-labels (l ∷ ls) (suc f) before rest labels (hl, h) enough =
    let tail = l ++ (encode_labels ls ++ rest) in
    let buf = before ++ length l ∷ tail in
    let before2 = before ++ length l ∷ l in
    let written : before ++ (encode_labels (l ∷ ls) ++ rest) ≡ buf =
      ap (λ e. before ++ (e ++ rest)) (encode_labels-cons l ls hl)
      ∙ ap (λ t. before ++ length l ∷ t) (append_assoc l (encode_labels ls) rest) in
    let one =
      decode_rounds-label f (length l) buf labels (length before)
        (get_or-here before (length l) tail) (omega (arith, length-append before (length l ∷ tail)))
        hl.some_byte hl.short in
    let read : take (length l) (drop (length before + 1) buf) ≡ l =
      ap (take (length l)) (drop-here before (length l) tail)
      ∙ take-length l (encode_labels ls ++ rest) in
    let moved : length before + 1 + length l ≡ length before2 =
      omega (arith, length-append before (length l ∷ l)) in
    let size : length before2 + length (encode_labels ls)
        ≡ length before + length (encode_labels (l ∷ ls)) =
      omega (
        arith,
        length-append before (length l ∷ l),
        ap length (encode_labels-cons l ls hl),
        length-append l (encode_labels ls),
      ) in
    ap (λ b. decode_rounds (suc f) b (cursor labels (length before))) written
    ∙ one
    ∙ ap (λ t. decode_rounds f buf (cursor (labels ++ t ∷ []) (length before + 1 + length l))) read
    ∙ ap (λ n. decode_rounds f buf (cursor (labels ++ l ∷ []) n)) moved
    ∙ ap (λ b. decode_rounds f b (cursor (labels ++ l ∷ []) (length before2)))
        (sym (append_assoc before (length l ∷ l) (encode_labels ls ++ rest)))
    ∙ decode_rounds-labels ls f before2 rest (labels ++ l ∷ []) h (omega arith)
    ∙ ap (λ xs. decoded (join (codes ".") xs) (length before2 + length (encode_labels ls)))
        (append_assoc labels (l ∷ []) ls)
    ∙ ap (decoded (join (codes ".") (labels ++ l ∷ ls))) size

labels_fit : (ls : List Text) → All IsLabel ls → length ls ≤ length (encode_labels ls)
labels_fit [] h = omega arith
labels_fit (l ∷ ls) (hl, h) = omega (
  arith,
  labels_fit ls h,
  ap length (encode_labels-cons l ls hl),
  length-append l (encode_labels ls),
)

-- A name of labels that have 1 to 191 bytes and no dot is read back as it was written, wherever it
-- stands in a message and whatever follows it, and the reader stops right behind it.
pub decode_name-encode_qname :
    (l : Text) (ls : List Text) (before rest : Bytes)
    → All IsLabel (l ∷ ls)
    → let name = join (codes ".") (l ∷ ls) in
      decode_name (before ++ (encode_qname name ++ rest)) (length before)
      ≡ decoded name (length before + length (encode_qname name))
unfolding decode_name encode_qname
decode_name-encode_qname l ls before rest h = rw (split-join l ls h) (
    decode_rounds-labels (l ∷ ls) _ before rest [] h (
      omega (
        arith,
        labels_fit (l ∷ ls) h,
        length-append before (encode_labels (l ∷ ls) ++ rest),
        length-append (encode_labels (l ∷ ls)) rest,
      )))
