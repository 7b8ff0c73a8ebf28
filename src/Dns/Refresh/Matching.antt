-- ===== src/Dns/Refresh/Matching.antt =====
-- To which addresses the answers of `pipelinePTRQueries` are matched.
use gwsdb.Prelude.{
  ℕ, zero, suc, Text, text_eq, text_eq_refl, true, Option, none, some, List, [], ◌∷◌, ◌++◌, ◌≡◌,
  subst, arith, Bool-cases, Option-cases, inl, inr, ltb, length, mem_text, All,
}
use gwsdb.Dns.Wire.{Bytes, parse_message}
use gwsdb.Dns.Stream.{drain}
use gwsdb.Dns.Refresh.{
  Answer, Results, set_result, ip_of_id, answer_of, note_message, note_messages, read_answers_from,
  pipeline_ptr_queries, queries,
}

-- The answer stands under an address that was asked for.
abbrev pub IsAsked : List Text → Text × Answer → Type 0
IsAsked ips p = mem_text p.0 ips ≡ true

pub ip_of_id-asked :
    (ips : List Text) (id : ℕ) (ip : Text) → ip_of_id ips id ≡ some ip → mem_text ip ips ≡ true
unfolding ip_of_id
ip_of_id-asked [] id ip e = absurd (ground arith)
ip_of_id-asked (i ∷ ips) zero ip e = absurd (ground arith)
ip_of_id-asked (i ∷ ips) (suc zero) ip e = ground (arith, text_eq_refl ip)
ip_of_id-asked (i ∷ ips) (suc (suc id)) ip e = ground (arith, ip_of_id-asked ips (suc id) ip e)

module _ (ips : List Text) where
  set_result-IsAsked :
      (ip : Text) (a : Answer) (m : Results)
      → mem_text ip ips ≡ true
      → All (IsAsked ips) m
      → All (IsAsked ips) (set_result ip a m)
  unfolding set_result
  set_result-IsAsked ip a [] h k = (h, tt)
  set_result-IsAsked ip a ((i, b) ∷ m) h (x, k) = elim (Bool-cases (text_eq i ip)) [
    | inl e ↦ rw e (x, k)
    | inr e ↦ rw e (x, set_result-IsAsked ip a m h k)
  ]

  note_message-IsAsked :
      (msg : Bytes) (m : Results) → All (IsAsked ips) m → All (IsAsked ips) (note_message ips msg m)
  unfolding note_message
  note_message-IsAsked msg m k = elim (Option-cases (parse_message msg)) [
    | inl e ↦ rw (e, note_message) k
    | inr (r, e) ↦ elim (Option-cases (ip_of_id ips r.id)) [
      | inl f ↦ rw (e, f, note_message) k
      | inr (ip, f) ↦
          rw (e, f, note_message)
            (set_result-IsAsked ip (answer_of r) m (ip_of_id-asked ips r.id ip f) k)
    ]
  ]

  pub note_messages-IsAsked :
      (ms : List Bytes) (m : Results)
      → All (IsAsked ips) m
      → All (IsAsked ips) (note_messages ips ms m)
  unfolding note_messages
  note_messages-IsAsked [] m k = k
  note_messages-IsAsked (msg ∷ ms) m k =
      note_messages-IsAsked ms (note_message ips msg m) (note_message-IsAsked msg m k)

  read_answers_from-IsAsked :
      (buf : Bytes) (values : List Bytes) (m : Results)
      → All (IsAsked ips) m
      → All (IsAsked ips) (read_answers_from ips buf values m)
  unfolding read_answers_from
  read_answers_from-IsAsked buf [] m k = k
  read_answers_from-IsAsked buf (value ∷ values) m k =
      elim (Bool-cases (ltb (length m) (length ips))) [
        | inr e ↦ rw e k
        | inl e ↦ rw e (
            read_answers_from-IsAsked (drain (buf ++ value)).1 values
              (note_messages ips (drain (buf ++ value)).0 m)
              (note_messages-IsAsked (drain (buf ++ value)).0 m k))
      ]

-- Whatever bytes the resolver sends, malformed messages, strange ids and repeated answers included,
-- every result stands under an address that was asked for.
pub pipeline_ptr_queries-IsAsked :
    (socket : Bytes → List Bytes) (ips : List Text) (results : Results)
    → pipeline_ptr_queries socket ips ≡ some results
    → All (IsAsked ips) results
unfolding pipeline_ptr_queries
pipeline_ptr_queries-IsAsked socket ips results h = on_written (queries 1 ips) h
  where
    on_written :
        (o : Option Bytes)
        → elim o as (λ x. Option Results) [
          | none ↦ none
          | some written ↦ some (read_answers_from ips [] (socket written) [])
        ]
          ≡ some results
        → All (IsAsked ips) results
    on_written none h = absurd (ground arith)
    on_written (some written) h =
        subst (All (IsAsked ips)) (ground arith)
          (read_answers_from-IsAsked ips [] (socket written) [] tt)
