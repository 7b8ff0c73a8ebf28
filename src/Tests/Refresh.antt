-- ===== src/Tests/Refresh.antt =====
-- One PTR query and its answer, which comes in two pieces, once or twice.
use gwsdb.Prelude.{concat, List, ◌++◌, drop, arith, codes, [], ◌∷◌, ◌≡◌, refl, some, All}
use gwsdb.Dns.Wire.{Bytes, parse_message}
use gwsdb.Dns.Stream.{drain}
use gwsdb.Dns.Refresh.Full.{Agrees}
use gwsdb.Dns.Refresh.Pieces.{read_answers_from-pieces, read_answers_from-frames}
use gwsdb.Dns.Refresh.{
  Answer, Results, ip_of_id, answer_of, note_messages, read_answers_from, pipeline_ptr_queries,
}
use gwsdb.Dns.Refresh.Matching.{IsAsked, pipeline_ptr_queries-IsAsked}
use gwsdb.Tests.Fixtures.{google}

abbrev reply_head : Bytes
reply_head = 0 ∷ 28 ∷ 0 ∷ 1 ∷ 129 ∷ 128 ∷ 0 ∷ 0 ∷ 0 ∷ 1 ∷ 0 ∷ 0 ∷ 0 ∷ 0 ∷ []

abbrev reply_record : Bytes
reply_record = 0 ∷ 0 ∷ 12 ∷ 0 ∷ 1 ∷ 0 ∷ 0 ∷ 14 ∷ 16 ∷ 0 ∷ 5 ∷ 3 ∷ 100 ∷ 110 ∷ 115 ∷ 0 ∷ []

abbrev answers : Results
answers = (google, record { rcode = 0; hostnames = codes "dns" ∷ []; ttl_seconds = 3600 }) ∷ []

answered :
    pipeline_ptr_queries (λ written. reply_head ∷ reply_record ∷ []) (google ∷ []) ≡ some answers
unfolding pipeline_ptr_queries
answered = refl

pipeline_ptr_queries-IsAsked_example : All (IsAsked (google ∷ [])) answers
pipeline_ptr_queries-IsAsked_example =
    pipeline_ptr_queries-IsAsked (λ written. reply_head ∷ reply_record ∷ []) (google ∷ []) answers
      answered

abbrev dns_answer : Answer
dns_answer = record { rcode = 0; hostnames = codes "dns" ∷ []; ttl_seconds = 3600 }

-- The answer comes twice, the second time after the loop has stopped.
abbrev reads : List Bytes
reads = reply_head ∷ reply_record ∷ (reply_head ++ reply_record) ∷ []

reads-agree : All (Agrees (google ∷ []) (λ ip. dns_answer)) (drain (concat reads)).0
unfolding drain parse_message ip_of_id answer_of
reads-agree = (refl, (refl, tt))

read_answers_from-pieces_example :
    read_answers_from (google ∷ []) [] reads []
    ≡ note_messages (google ∷ []) (drain (concat reads)).0 []
read_answers_from-pieces_example =
    read_answers_from-pieces (google ∷ []) (λ ip. dns_answer) reads reads-agree

abbrev reply : Bytes
reply = drop 2 (reply_head ++ reply_record)

reply-Agrees : Agrees (google ∷ []) (λ ip. dns_answer) reply
unfolding parse_message ip_of_id answer_of
reply-Agrees = refl

read_answers_from-frames_example :
    read_answers_from (google ∷ []) [] (reply_head ∷ reply_record ∷ []) []
    ≡ note_messages (google ∷ []) (reply ∷ []) []
read_answers_from-frames_example =
    read_answers_from-frames (google ∷ []) (λ ip. dns_answer) (reply ∷ [])
      (reply_head ∷ reply_record ∷ []) (omega arith, tt) (reply-Agrees, tt) refl
