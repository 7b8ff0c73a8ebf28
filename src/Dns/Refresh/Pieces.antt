-- ===== src/Dns/Refresh/Pieces.antt =====
-- The results of `pipelinePTRQueries` (src/ptrRefresh.ts), and the pieces in which TCP delivers the
-- answers. The loop stops reading once every query is answered.
use mathlib.Core.List.{append_assoc, append-nil}
use gwsdb.Prelude.{
  Text, true, List, [], ◌∷◌, ◌++◌, ◌≡◌, refl, sym, ap, ◌∙◌, subst, Bool-cases, inl, inr, ltb,
  length, All, concat, map,
}
use gwsdb.Dns.Wire.{Bytes, frame}
use gwsdb.Dns.Stream.{is_partial, drain}
use gwsdb.Dns.Stream.Pieces.{then_drain, drain-append, drain_partial, drain-left}
use gwsdb.Dns.Stream.Frames.{Fits, drain-frames}
use gwsdb.Dns.Refresh.{Answer, Results, note_message, note_messages, read_answers_from}
use gwsdb.Dns.Refresh.Matching.{IsAsked, note_messages-IsAsked}
use gwsdb.Dns.Refresh.Full.{Agrees, IsTrue, note_messages-IsTrue, note_messages-full}

module _ (ips : List Text) (truth : Text → Answer) where
  note_messages-append :
      (ms ns : List Bytes) (m : Results)
      → note_messages ips (ms ++ ns) m ≡ note_messages ips ns (note_messages ips ms m)
  unfolding note_messages
  note_messages-append [] ns m = refl
  note_messages-append (msg ∷ ms) ns m = note_messages-append ms ns (note_message ips msg m)

  All-parts :
      (ms ns : List Bytes)
      → All (Agrees ips truth) (ms ++ ns)
      → All (Agrees ips truth) ms × All (Agrees ips truth) ns
  All-parts [] ns g = (tt, g)
  All-parts (msg ∷ ms) ns (x, g) = let (a, b) = All-parts ms ns g in ((x, a), b)

  read_answers_from-drain :
      (buf : Bytes) (values : List Bytes) (m : Results)
      → is_partial buf ≡ true
      → All (Agrees ips truth) (drain (buf ++ concat values)).0
      → IsTrue ips truth m
      → All (IsAsked ips) m
      → read_answers_from ips buf values m ≡ note_messages ips (drain (buf ++ concat values)).0 m
  unfolding read_answers_from
  read_answers_from-drain buf [] m p g t h = sym (
      ap (λ (r : List Bytes × Bytes). note_messages ips r.0 m)
        (ap drain (append-nil buf) ∙ drain_partial buf p))
  read_answers_from-drain buf (value ∷ values) m p g t h =
      let whole : drain (buf ++ concat (value ∷ values))
          ≡ then_drain (drain (buf ++ value)) (concat values) =
        sym (ap drain (append_assoc buf value (concat values)))
        ∙ drain-append (buf ++ value) (concat values) in
      let msgs = (drain (buf ++ value)).0 in
      let later = (drain ((drain (buf ++ value)).1 ++ concat values)).0 in
      let (g1, g2) =
        All-parts msgs later
          (subst (λ (r : List Bytes × Bytes). All (Agrees ips truth) r.0) whole g) in
      elim (Bool-cases (ltb (length m) (length ips))) [
        | inr full ↦ rw full (sym (note_messages-full ips truth _ m g t h full))
        | inl more ↦ rw more (
            read_answers_from-drain (drain (buf ++ value)).1 values (note_messages ips msgs m)
              (drain-left (buf ++ value)) g2 (note_messages-IsTrue ips truth msgs m g1 t)
              (note_messages-IsAsked ips msgs m h)
            ∙ sym (note_messages-append msgs later m)
            ∙ sym (ap (λ (r : List Bytes × Bytes). note_messages ips r.0 m) whole))
      ]

-- The resolver's answers to one address agree, however often it answers. Then the results are those
-- of all the messages of the stream, whatever the pieces in which it arrives before the deadline, and
-- although the loop stops reading once every query is answered.
pub read_answers_from-pieces :
    (ips : List Text) (truth : Text → Answer) (values : List Bytes)
    → All (Agrees ips truth) (drain (concat values)).0
    → read_answers_from ips [] values [] ≡ note_messages ips (drain (concat values)).0 []
read_answers_from-pieces ips truth values g =
    read_answers_from-drain ips truth [] values [] refl g tt tt

-- Messages of less than 65,536 bytes, each behind its length, whose answers to one address agree, are
-- all taken in as they were sent, whatever the pieces in which their bytes arrive before the deadline.
pub read_answers_from-frames :
    (ips : List Text) (truth : Text → Answer) (msgs values : List Bytes)
    → All Fits msgs
    → All (Agrees ips truth) msgs
    → concat values ≡ concat (map frame msgs)
    → read_answers_from ips [] values [] ≡ note_messages ips msgs []
read_answers_from-frames ips truth msgs values fits g same =
    let read : drain (concat values) ≡ (msgs, []) = ap drain same ∙ drain-frames msgs fits in
    read_answers_from-pieces ips truth values
      (subst (λ (r : List Bytes × Bytes). All (Agrees ips truth) r.0) (sym read) g)
    ∙ ap (λ (r : List Bytes × Bytes). note_messages ips r.0 []) read
