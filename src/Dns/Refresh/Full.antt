-- ===== src/Dns/Refresh/Full.antt =====
-- The results of `pipelinePTRQueries` (src/ptrRefresh.ts): one to an address, and what more messages
-- do once every query is answered.
use gwsdb.Prelude.{
  suc, ◌≤◌, Text, text_eq, text_eq_iff, text_eq-swap, Bool, true, false, not, ◌||◌, Option, none,
  some, List, [], ◌∷◌, ◌≡◌, refl, sym, ap, ◌∙◌, arith, Bool-cases, inl, inr, ltb, length, keep, any,
  mem_text, All,
}
use gwsdb.Dns.Wire.{Bytes, DnsResponse, parse_message}
use gwsdb.Dns.Refresh.{
  Answer, Results, set_result, ip_of_id, answer_of, note_message, note_messages,
}
use gwsdb.Dns.Refresh.Matching.{IsAsked, ip_of_id-asked}

module _ (ips : List Text) (truth : Text → Answer) where
  -- The message, if it is read and matched at all, has the address's one answer.
  abbrev MatchedAgrees : DnsResponse → Option Text → Type 0
  MatchedAgrees r none = Unit
  MatchedAgrees r (some ip) = answer_of r ≡ truth ip

  abbrev ParsedAgrees : Option DnsResponse → Type 0
  ParsedAgrees none = Unit
  ParsedAgrees (some r) = MatchedAgrees r (ip_of_id ips r.id)

  abbrev pub Agrees : Bytes → Type 0
  Agrees msg = ParsedAgrees (parse_message msg)

  abbrev has_result : Text → Results → Bool
  has_result ip m = any (λ (p : Text × Answer). text_eq p.0 ip) m

  -- One result to an address, and its one answer.
  abbrev pub IsTrue : Results → Type 0
  IsTrue [] = Unit
  IsTrue ((k, a) ∷ m) = (has_result k m ≡ false) × (a ≡ truth k) × IsTrue m

  has_result-set_result :
      (ip k : Text) (a : Answer) (m : Results)
      → has_result ip (set_result k a m) ≡ (has_result ip m || text_eq k ip)
  unfolding set_result
  has_result-set_result ip k a [] = ground arith
  has_result-set_result ip k a ((j, b) ∷ m) =
      ground (arith, has_result-set_result ip k a m, ap (λ t. text_eq t ip), text_eq_iff j k)

  set_result-IsTrue :
      (k : Text) (a : Answer) (m : Results) → a ≡ truth k → IsTrue m → IsTrue (set_result k a m)
  unfolding set_result
  set_result-IsTrue k a [] e t = (refl, e, tt)
  set_result-IsTrue k a ((j, b) ∷ m) e (fresh, f, t) = elim (Bool-cases (text_eq j k)) [
    | inl same ↦ rw same (fresh, e ∙ ap truth (sym ((text_eq_iff j k).0 same)), t)
    | inr other ↦ rw other (
      ground (arith, has_result-set_result j k a m, text_eq-swap j k),
      f,
      set_result-IsTrue k a m e t,
    )
  ]

  -- An answer that stands there already changes nothing.
  set_result-same :
      (k : Text) (a : Answer) (m : Results)
      → a ≡ truth k
      → IsTrue m
      → has_result k m ≡ true
      → set_result k a m ≡ m
  unfolding set_result
  set_result-same k a [] e t h = absurd (ground arith)
  set_result-same k a ((j, b) ∷ m) e (fresh, f, t) h = elim (Bool-cases (text_eq j k)) [
    | inl same ↦
        rw same (ap (λ c. (j, c) ∷ m) (e ∙ ap truth (sym ((text_eq_iff j k).0 same)) ∙ sym f))
    | inr other ↦ rw other (ap (λ n. (j, b) ∷ n) (set_result-same k a m e t (ground arith)))
  ]

  note_message-IsTrue :
      (msg : Bytes) (m : Results) → Agrees msg → IsTrue m → IsTrue (note_message ips msg m)
  unfolding note_message
  note_message-IsTrue msg m g t = on_parsed (parse_message msg) g
    where
      on_matched :
          (r : DnsResponse) (o : Option Text)
          → MatchedAgrees r o
          → IsTrue (elim o [ none ↦ m | some ip ↦ set_result ip (answer_of r) m ])
      on_matched r none g = t
      on_matched r (some ip) g = set_result-IsTrue ip (answer_of r) m g t

      on_parsed :
          (o : Option DnsResponse)
          → ParsedAgrees o
          → IsTrue (elim o [
            | none ↦ m
            | some r ↦ elim (ip_of_id ips r.id) [
              | none ↦ m
              | some ip ↦ set_result ip (answer_of r) m
            ]
          ])
      on_parsed none g = t
      on_parsed (some r) g = on_matched r (ip_of_id ips r.id) g

  pub note_messages-IsTrue :
      (ms : List Bytes) (m : Results) → All Agrees ms → IsTrue m → IsTrue (note_messages ips ms m)
  unfolding note_messages
  note_messages-IsTrue [] m g t = t
  note_messages-IsTrue (msg ∷ ms) m (x, g) t =
      note_messages-IsTrue ms (note_message ips msg m) g (note_message-IsTrue msg m x t)

  abbrev others : Text → List Text → List Text
  others k ts = keep (λ t. not (text_eq t k)) ts

  others-shorter : (k : Text) (ts : List Text) → length (others k ts) ≤ length ts
  others-shorter k [] = omega arith
  others-shorter k (t ∷ ts) = ground (arith, others-shorter k ts)

  others-fewer :
      (k : Text) (ts : List Text) → mem_text k ts ≡ true → suc (length (others k ts)) ≤ length ts
  others-fewer k [] h = absurd (ground arith)
  others-fewer k (t ∷ ts) h = ground (arith, others-fewer k ts, others-shorter k ts)

  mem-others :
      (j k : Text) (ts : List Text)
      → text_eq j k ≡ false
      → mem_text j ts ≡ true
      → mem_text j (others k ts) ≡ true
  mem-others j k [] ne h = h
  mem-others j k (t ∷ ts) ne h =
      ground (arith, mem-others j k ts ne, text_eq_iff t j, text_eq_iff t k, text_eq_iff j k)

  IsAsked-others :
      (k : Text) (ts : List Text) (m : Results)
      → has_result k m ≡ false
      → All (IsAsked ts) m
      → All (IsAsked (others k ts)) m
  IsAsked-others k ts [] fresh h = tt
  IsAsked-others k ts ((j, b) ∷ m) fresh (x, h) =
      (mem-others j k ts (ground arith) x, IsAsked-others k ts m (ground arith) h)

  -- No more addresses have a result than were asked for.
  results-fit :
      (m : Results) (ts : List Text) → IsTrue m → All (IsAsked ts) m → length m ≤ length ts
  results-fit [] ts t h = omega arith
  results-fit ((k, a) ∷ m) ts (fresh, e, t) (x, h) =
      omega
        (arith, others-fewer k ts x, results-fit m (others k ts) t (IsAsked-others k ts m fresh h))

  abbrev pub IsFull : Results → Type 0
  IsFull m = ltb (length m) (length ips) ≡ false

  -- Once as many results are there as queries, every address has one.
  full-has_result :
      (ip : Text) (m : Results)
      → IsTrue m
      → All (IsAsked ips) m
      → IsFull m
      → mem_text ip ips ≡ true
      → has_result ip m ≡ true
  full-has_result ip m t h full there = elim (Bool-cases (has_result ip m)) [
    | inl e ↦ e
    | inr fresh ↦
        let more = results-fit ((ip, truth ip) ∷ m) ips (fresh, refl, t) (there, h) in
        absurd (ground (arith, more))
  ]

  note_message-full :
      (msg : Bytes) (m : Results)
      → Agrees msg
      → IsTrue m
      → All (IsAsked ips) m
      → IsFull m
      → note_message ips msg m ≡ m
  unfolding note_message
  note_message-full msg m g t h full = on_parsed (parse_message msg) g
    where
      on_matched :
          (r : DnsResponse) (o : Option Text)
          → o ≡ ip_of_id ips r.id
          → MatchedAgrees r o
          → elim o as (λ x. Results) [ none ↦ m | some ip ↦ set_result ip (answer_of r) m ] ≡ m
      on_matched r none e g = refl
      on_matched r (some ip) e g =
          set_result-same ip (answer_of r) m g t
            (full-has_result ip m t h full (ip_of_id-asked ips r.id ip (sym e)))

      on_parsed :
          (o : Option DnsResponse)
          → ParsedAgrees o
          → elim o as (λ x. Results) [
            | none ↦ m
            | some r ↦ elim (ip_of_id ips r.id) [
              | none ↦ m
              | some ip ↦ set_result ip (answer_of r) m
            ]
          ]
            ≡ m
      on_parsed none g = refl
      on_parsed (some r) g = on_matched r (ip_of_id ips r.id) refl g

  pub note_messages-full :
      (ms : List Bytes) (m : Results)
      → All Agrees ms
      → IsTrue m
      → All (IsAsked ips) m
      → IsFull m
      → note_messages ips ms m ≡ m
  unfolding note_messages
  note_messages-full [] m g t h full = refl
  note_messages-full (msg ∷ ms) m (x, g) t h full =
      ap (note_messages ips ms) (note_message-full msg m x t h full)
      ∙ note_messages-full ms m g t h full
