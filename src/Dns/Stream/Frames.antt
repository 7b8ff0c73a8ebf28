-- ===== src/Dns/Stream/Frames.antt =====
-- Messages that are framed as `buildPTRQuery` of src/dnsWire.ts frames them, in the stream of
-- src/ptrRefresh.ts.
use gwsdb.Prelude.{
  ℕ, suc, ◌+◌, ◌<◌, false, List, [], ◌∷◌, ◌++◌, ◌≡◌, refl, ap, ◌∙◌, arith, map, concat, All, length,
  take, drop, length-append,
}
use gwsdb.Dns.Wire.{Bytes, frame}
use gwsdb.Dns.Stream.{message_length, is_partial, drain}
use gwsdb.Dns.Stream.Pieces.{drain_full, rest_of}

-- The length of a message fits into the two bytes of its prefix.
abbrev pub Fits : Bytes → Type 0
Fits msg = length msg < 65_536

message_length-frame :
    (msg rest : Bytes) → Fits msg → message_length (frame msg ++ rest) ≡ length msg
message_length-frame msg rest h = omega arith

frame-full : (msg rest : Bytes) → Fits msg → is_partial (frame msg ++ rest) ≡ false
frame-full msg rest h = ground (arith, message_length-frame msg rest h, length-append msg rest)

take-first : (xs ys : Bytes) → take (length xs) (xs ++ ys) ≡ xs
take-first [] ys = refl
take-first (x ∷ xs) ys = ap (◌∷◌ x) (take-first xs ys)

drop-first : (xs ys : Bytes) → drop (length xs) (xs ++ ys) ≡ ys
drop-first [] ys = refl
drop-first (x ∷ xs) ys = drop-first xs ys

message-frame :
    (msg rest : Bytes)
    → Fits msg
    → take (message_length (frame msg ++ rest)) (drop 2 (frame msg ++ rest)) ≡ msg
message-frame msg rest h =
    ap (λ n. take n (msg ++ rest)) (message_length-frame msg rest h) ∙ take-first msg rest

two_more : (n : ℕ) → 2 + n ≡ suc (suc n)
two_more n = omega arith

rest_of-frame : (msg rest : Bytes) → Fits msg → rest_of (frame msg ++ rest) ≡ rest
rest_of-frame msg rest h =
    ap (λ n. drop (2 + n) (frame msg ++ rest)) (message_length-frame msg rest h)
    ∙ ap (λ n. drop n (frame msg ++ rest)) (two_more (length msg))
    ∙ drop-first msg rest

drain-frame :
    (msg rest : Bytes)
    → Fits msg
    → drain (frame msg ++ rest) ≡ (msg ∷ (drain rest).0, (drain rest).1)
drain-frame msg rest h =
    drain_full (frame msg ++ rest) (frame-full msg rest h)
    ∙ ap
        (λ m.
          (m ∷ (drain (rest_of (frame msg ++ rest))).0, (drain (rest_of (frame msg ++ rest))).1))
        (message-frame msg rest h)
    ∙ ap (λ r. (msg ∷ (drain r).0, (drain r).1)) (rest_of-frame msg rest h)

pub drain-frames :
    (msgs : List Bytes) → All Fits msgs → drain (concat (map frame msgs)) ≡ (msgs, [])
drain-frames [] h = unfold drain in refl
drain-frames (msg ∷ msgs) (fits, h) =
    drain-frame msg (concat (map frame msgs)) fits
    ∙ ap (λ (r : List Bytes × Bytes). (msg ∷ r.0, r.1)) (drain-frames msgs h)
