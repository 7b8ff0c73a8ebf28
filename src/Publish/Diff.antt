-- ===== src/Publish/Diff.antt =====
-- Which records `syncFamily` creates and deletes.
use gwsdb.Prelude.{
  ℕ, Text, text_eq, text_eq_iff, text_eq_refl, Bool, true, false, not, ◌&&◌, ◌||◌, List, [], ◌∷◌,
  ◌≡◌, refl, sym, ap, ◌∙◌, map, if◌then◌else◌, keep, any, mem_text, unique, mem_text-unique,
  any-append, any-map, any-keep, any-ext, any-none, text_eq-swap, arith, Bool-cases, inl, inr, ◌==◌,
}
use gwsdb.Publish.{
  DnsRecord, Call, create_record, delete_record, set_content, by_content, contents, creations,
  deletions, family_calls,
}

abbrev pub is_create : Text → Call → Bool
is_create ip (create_record content) = text_eq content ip
is_create ip (delete_record id) = false

abbrev pub is_delete : ℕ → Call → Bool
is_delete id (create_record content) = false
is_delete id (delete_record k) = k == id

-- The addresses on file.
abbrev pub on_file : List DnsRecord → List Text
on_file records = map (λ r. r.content) records

set_content-mem :
    (k : Text) (r : DnsRecord) (m : List (Text × ℕ))
    → mem_text k (contents (set_content r m)) ≡ (text_eq r.content k || mem_text k (contents m))
unfolding set_content
set_content-mem k r [] = refl
set_content-mem k r ((c, id) ∷ m) = ground (
  arith,
  set_content-mem k r m,
  text_eq_iff c r.content,
  text_eq_iff c k,
  text_eq_iff r.content k,
)

by_content-mem :
    (k : Text) (records : List DnsRecord) (m : List (Text × ℕ))
    → mem_text k (contents (by_content records m))
      ≡ (mem_text k (on_file records) || mem_text k (contents m))
unfolding by_content
by_content-mem k [] m = refl
by_content-mem k (r ∷ rs) m =
    ground (arith, by_content-mem k rs (set_content r m), set_content-mem k r m)

-- The wanted addresses that pass a test of the address.
any_text-keep :
    (ip : Text) (q : Text → Bool) (want : List Text)
    → any (λ w. q w && text_eq w ip) want ≡ (mem_text ip want && q ip)
any_text-keep ip q [] = refl
any_text-keep ip q (w ∷ want) = elim (Bool-cases (text_eq w ip)) [
  | inr e ↦ ground (arith, any_text-keep ip q want)
  | inl e ↦ ground (arith, any_text-keep ip q want, ap q ((text_eq_iff w ip).0 e))
]

creates-creations :
    (ip : Text) (want : List Text) (have : List (Text × ℕ))
    → any (is_create ip) (creations want have)
      ≡ (mem_text ip want && not (mem_text ip (contents have)))
unfolding creations
creates-creations ip want have =
    let missing = λ (w : Text). not (mem_text w (contents have)) in
    any-map (is_create ip) create_record (keep missing want)
    ∙ any-keep (λ w. text_eq w ip) missing want
    ∙ any_text-keep ip missing want

deletes-creations :
    (id : ℕ) (want : List Text) (have : List (Text × ℕ))
    → any (is_delete id) (creations want have) ≡ false
unfolding creations
deletes-creations id want have =
    let missing = λ (w : Text). not (mem_text w (contents have)) in
    any-map (is_delete id) create_record (keep missing want)
    ∙ any-none (λ w. false) (keep missing want) (λ w. refl)

creates-deletions :
    (ip : Text) (want : List Text) (have : List (Text × ℕ))
    → any (is_create ip) (deletions want have) ≡ false
unfolding deletions
creates-deletions ip want have =
    let stale = λ (p : Text × ℕ). not (mem_text p.0 want) in
    any-map (is_create ip) (λ (p : Text × ℕ). delete_record p.1) (keep stale have)
    ∙ any-none (λ p. false) (keep stale have) (λ p. refl)

-- A record is created for exactly the wanted addresses that no record on file holds.
pub family_calls-creates :
    (ip : Text) (want : List Text) (records : List DnsRecord)
    → any (is_create ip) (family_calls want records)
      ≡ (mem_text ip want && not (mem_text ip (on_file records)))
unfolding family_calls
family_calls-creates ip want records =
    let have = by_content records [] in
    ground (
      arith,
      any-append (is_create ip) (creations (unique want) have) (deletions (unique want) have),
      creates-creations ip (unique want) have,
      creates-deletions ip (unique want) have,
      by_content-mem ip records [],
      mem_text-unique ip want,
    )

-- The records that no later record of the same content follows.
unfoldable pub last_of_each : List DnsRecord → List DnsRecord
last_of_each [] = []
last_of_each (r ∷ rs) =
    let rest = last_of_each rs in if mem_text r.content (on_file rs) then rest else r ∷ rest

abbrev IsDistinct : List (Text × ℕ) → Type 0
IsDistinct [] = Unit
IsDistinct ((k, id) ∷ m) = (mem_text k (contents m) ≡ false) × IsDistinct m

set_content-IsDistinct :
    (r : DnsRecord) (m : List (Text × ℕ)) → IsDistinct m → IsDistinct (set_content r m)
unfolding set_content
set_content-IsDistinct r [] d = (refl, tt)
set_content-IsDistinct r ((k, id) ∷ m) (fresh, d) = elim (Bool-cases (text_eq k r.content)) [
  | inl e ↦ rw e (fresh, d)
  | inr e ↦ rw e (
    ground (arith, set_content-mem k r m, text_eq-swap k r.content),
    set_content-IsDistinct r m d,
  )
]

module _ (q : Text × ℕ → Bool) where
  any-others :
      (c : Text) (m : List (Text × ℕ))
      → mem_text c (contents m) ≡ false
      → any (λ (p : Text × ℕ). not (text_eq c p.0) && q p) m ≡ any q m
  any-others c [] h = refl
  any-others c ((k, id) ∷ m) h = ground (arith, any-others c m, text_eq-swap k c)

  any-set_content :
      (r : DnsRecord) (m : List (Text × ℕ))
      → IsDistinct m
      → any q (set_content r m)
        ≡ (q (r.content, r.id) || any (λ (p : Text × ℕ). not (text_eq r.content p.0) && q p) m)
  unfolding set_content
  any-set_content r [] d = refl
  any-set_content r ((k, id) ∷ m) (fresh, d) = elim (Bool-cases (text_eq k r.content)) [
    | inl e ↦
        let same = (text_eq_iff k r.content).0 e in
        ground (
          arith,
          any-others r.content m (ap (λ c. mem_text c (contents m)) (sym same) ∙ fresh),
          ap (λ c. q (c, r.id)) same,
          text_eq-swap k r.content,
        )
    | inr e ↦ ground (arith, any-set_content r m d, text_eq-swap k r.content)
  ]

abbrev pair_of : DnsRecord → Text × ℕ
pair_of r = (r.content, r.id)

any-by_content :
    (q : Text × ℕ → Bool) (rs : List DnsRecord) (m : List (Text × ℕ))
    → IsDistinct m
    → any q (by_content rs m) ≡ (
        any (λ r. q (pair_of r)) (last_of_each rs)
        || any (λ (p : Text × ℕ). not (mem_text p.0 (on_file rs)) && q p) m)
unfolding by_content last_of_each
any-by_content q [] m d = refl
any-by_content q (r ∷ rs) m d =
    let unshadowed = λ (p : Text × ℕ). not (mem_text p.0 (on_file rs)) && q p in
    ground (
      arith,
      any-by_content q rs (set_content r m) (set_content-IsDistinct r m d),
      any-set_content unshadowed r m d,
      any-ext (λ (p : Text × ℕ). not (text_eq r.content p.0) && unshadowed p)
          (λ (p : Text × ℕ). not (mem_text p.0 (on_file (r ∷ rs))) && q p) m
          (λ p. by_cases (text_eq r.content p.0) (mem_text p.0 (on_file rs)) (q p)),
    )
  where
    by_cases : (a b c : Bool) → (not a && (not b && c)) ≡ (not (a || b) && c)
    by_cases true b c = refl
    by_cases false b c = refl

-- A record is deleted exactly if no later record has its content and that is not wanted; the record
-- is named by its id.
pub family_calls-deletes :
    (id : ℕ) (want : List Text) (records : List DnsRecord)
    → any (is_delete id) (family_calls want records)
      ≡ any (λ r. not (mem_text r.content want) && (r.id == id)) (last_of_each records)
unfolding family_calls deletions
family_calls-deletes id want records =
    let have = by_content records [] in
    let stale = λ (p : Text × ℕ). not (mem_text p.0 (unique want)) in
    ground (
      arith,
      any-append (is_delete id) (creations (unique want) have) (deletions (unique want) have),
      deletes-creations id (unique want) have,
      any-map (is_delete id) (λ (p : Text × ℕ). delete_record p.1) (keep stale have),
      any-keep (λ (p : Text × ℕ). p.1 == id) stale have,
      any-by_content (λ p. stale p && (p.1 == id)) records [] tt,
      any-ext (λ (r : DnsRecord). not (mem_text r.content (unique want)) && (r.id == id))
          (λ r. not (mem_text r.content want) && (r.id == id)) (last_of_each records)
          (λ r. ap (λ b. not b && (r.id == id)) (mem_text-unique r.content want)),
    )

-- No address is wanted that is not on file, and none is on file that is not wanted.
abbrev pub SameSet : List Text → List DnsRecord → Type 0
SameSet want records = (ip : Text) → mem_text ip want ≡ mem_text ip (on_file records)

no_calls :
    (calls : List Call)
    → ((ip : Text) → any (is_create ip) calls ≡ false)
    → ((id : ℕ) → any (is_delete id) calls ≡ false)
    → calls ≡ []
no_calls [] c d = refl
no_calls (create_record ip ∷ calls) c d = absurd (ground (arith, c ip, text_eq_refl ip))
no_calls (delete_record id ∷ calls) c d = absurd (ground (arith, d id))

none_stale :
    (g : DnsRecord → Bool) (want : List Text) (rs : List DnsRecord)
    → ((ip : Text) → mem_text ip (on_file rs) ≡ true → mem_text ip want ≡ true)
    → any (λ r. not (mem_text r.content want) && g r) (last_of_each rs) ≡ false
unfolding last_of_each
none_stale g want [] h = refl
none_stale g want (r ∷ rs) h = ground (
  arith,
  h r.content (ground (arith, text_eq_refl r.content)),
  none_stale g want rs (λ ip m. h ip (ground arith)),
)

-- While the wanted addresses are those on file, whatever the order and the duplicates of either,
-- nothing is written.
family_calls-unchanged :
    (want : List Text) (records : List DnsRecord)
    → SameSet want records
    → family_calls want records ≡ []
family_calls-unchanged want records h =
    no_calls (family_calls want records)
      (λ ip. family_calls-creates ip want records ∙ ground (arith, h ip))
      (λ id.
        family_calls-deletes id want records
        ∙ none_stale (λ r. r.id == id) want records (λ ip m. h ip ∙ m))
