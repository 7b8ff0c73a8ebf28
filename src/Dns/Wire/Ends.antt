-- ===== src/Dns/Wire/Ends.antt =====
-- The loops of src/dnsWire.ts, and the fuel of their models.
use gwsdb.Prelude.{
  ℕ, zero, suc, ◌+◌, ◌-◌, ◌*◌, ◌≤◌, ◌<◌, Bool, true, false, ◌≡◌, refl, ◌∙◌, arith, Bool-cases, inl,
  inr, ltb→lt, ltb, ◌==◌, if◌then◌else◌, length, get_or,
}
use gwsdb.Dns.Wire.{
  Bytes, is_pointer, skip_rounds, skip_name, Decoded, out_of_fuel, Cursor, decode_rounds,
  decode_name, decode_fuel, walk, jump,
}

abbrev pub is_out_of_fuel : Decoded → Bool
is_out_of_fuel out_of_fuel = true
is_out_of_fuel _ = false

pointer_left : (left size : ℕ) → 0 < left → left * size ≡ size + (left - 1) * size
pointer_left zero size h = absurd (omega arith)
pointer_left (suc left) size h = grind arith

-- `left` more pointers may be followed; between two of them the loop walks forward.
decode_rounds-ends :
    (f : ℕ) (buf : Bytes) (c : Cursor) (left : ℕ)
    → c.jumps + left ≡ 21
    → left * (length buf + 2) + (length buf - c.at) < f
    → is_out_of_fuel (decode_rounds f buf c) ≡ false
unfolding decode_rounds
decode_rounds-ends zero buf c left e h = absurd (omega arith)
decode_rounds-ends (suc f) buf c left e h = elim (Bool-cases (ltb c.at (length buf))) [
  | inr past ↦ rw past refl
  | inl within ↦ elim (Bool-cases (get_or buf c.at 0 == 0)) [
    | inl last ↦ rw (within, last) refl
    | inr more ↦ elim (Bool-cases (is_pointer (get_or buf c.at 0))) [
      | inr label ↦
          rw (within, more, label)
            (decode_rounds-ends f buf (walk buf c) left e
              (omega (arith, ltb→lt c.at (length buf) within)))
      | inl pointer ↦ elim (Bool-cases (ltb 20 c.jumps)) [
        | inl many ↦ rw (within, more, pointer, many) refl
        | inr few ↦
            rw (within, more, pointer, few)
              (decode_rounds-ends f buf (jump buf c) (left - 1) (ground arith) (
                omega (
                  arith,
                  pointer_left left (length buf + 2) (ground arith),
                  ltb→lt c.at (length buf) within,
                )))
      ]
    ]
  ]
]

-- `decodeName` always ends: it gives a name, or the exception for pointers that loop.
pub decode_name-ends : (buf : Bytes) (offset : ℕ) → is_out_of_fuel (decode_name buf offset) ≡ false
unfolding decode_name
decode_name-ends buf offset = decode_rounds-ends (decode_fuel buf) buf _ 21 refl (omega arith)

more_skip_rounds :
    (f g : ℕ) (buf : Bytes) (o : ℕ)
    → length buf - o ≤ f
    → length buf - o ≤ g
    → skip_rounds f buf o ≡ skip_rounds g buf o
unfolding skip_rounds
more_skip_rounds zero zero buf o h k = refl
more_skip_rounds zero (suc g) buf o h k = ground arith
more_skip_rounds (suc f) zero buf o h k = ground arith
more_skip_rounds (suc f) (suc g) buf o h k =
    ground (arith, more_skip_rounds f g buf (o + 1 + get_or buf o 0))

-- The model of `skipName` is the source's loop, whatever the bytes: while it stands inside the
-- message it stops behind a zero byte or a pointer, and else goes on behind the label; past the
-- message it stays.
pub skip_name-loop :
    (buf : Bytes) (o : ℕ)
    → skip_name buf o ≡ (
        if ltb o (length buf)
        then (if get_or buf o 0 == 0
            then o + 1
            else if is_pointer (get_or buf o 0)
            then o + 2
            else skip_name buf (o + 1 + get_or buf o 0))
        else o)
unfolding skip_name
skip_name-loop buf o =
    more_skip_rounds (length buf) (suc (length buf)) buf o (omega arith) (omega arith) ∙ step
  where
    step : skip_rounds (suc (length buf)) buf o ≡ (
        if ltb o (length buf)
        then (if get_or buf o 0 == 0
            then o + 1
            else if is_pointer (get_or buf o 0)
            then o + 2
            else skip_rounds (length buf) buf (o + 1 + get_or buf o 0))
        else o)
    step = unfold skip_rounds in refl
