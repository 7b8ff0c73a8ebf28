-- ===== src/Dns/Stream.antt =====
-- The inner loop of `pipelinePTRQueries` (src/ptrRefresh.ts): DNS messages over TCP, each behind its
-- length, cut out of the bytes that have arrived.
pub mod Pieces
pub mod Frames
use gwsdb.Prelude.{
  ℕ, zero, suc, ◌+◌, ◌*◌, Bool, ◌||◌, List, [], ◌∷◌, ltb, if◌then◌else◌, length, take, drop, get_or,
}
use gwsdb.Dns.Wire.{Bytes}

abbrev pub message_length : Bytes → ℕ
message_length buf = get_or buf 0 0 * 256 + get_or buf 1 0

-- `recvBuf.length < 2 || recvBuf.length < 2 + msgLen`
abbrev pub is_partial : Bytes → Bool
is_partial buf = ltb (length buf) 2 || ltb (length buf) (2 + message_length buf)

-- The messages that are complete, and what is left in the buffer; a round for each byte is enough.
unfoldable pub drain_rounds : ℕ → Bytes → List Bytes × Bytes
drain_rounds zero buf = ([], buf)
drain_rounds (suc f) buf =
    let more = drain_rounds f (drop (2 + message_length buf) buf) in
    if is_partial buf then ([], buf) else (take (message_length buf) (drop 2 buf) ∷ more.0, more.1)

unfoldable pub drain : Bytes → List Bytes × Bytes
unfolding drain_rounds
drain buf = drain_rounds (length buf) buf
