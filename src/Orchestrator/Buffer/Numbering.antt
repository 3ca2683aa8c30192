-- ===== src/Orchestrator/Buffer/Numbering.antt =====
-- Lemmas on the sequence numbers of src/orchestrator/buffer.py.
use xray_vision.Base.{
  ℕ, suc, ◌+◌, ◌≤◌, ◌<◌, ◌≡◌, refl, Option, none, some, List, [], ◌∷◌, ◌++◌, ok, arith, length,
  keep, last?, length-append, Option-cases, ◌⊎◌, inl, inr,
}
use xray_vision.MarketData.Contracts.{RawMarketEvent}
use xray_vision.Orchestrator.Buffer.{
  RawInputBuffer, RawInputBufferRecord, create, append, new_record, in_range, last_ingest_seq,
}

-- The records carry the numbers `n`, `n + 1`, ... in order.
abbrev pub NumberedFrom : ℕ → List RawInputBufferRecord → Type 0
NumberedFrom n [] = Unit {0}
NumberedFrom n (r ∷ rs) = (r.ingest_seq ≡ n) × NumberedFrom (suc n) rs

pub record IsValid (b : RawInputBuffer) : Type 0 where
  pub numbered : NumberedFrom 1 b.records
  pub next : b.next_seq ≡ length b.records + 1
  pub bounded : length b.records ≤ b.max_records

NumberedFrom-snoc :
    (n : ℕ) (rs : List RawInputBufferRecord) (r : RawInputBufferRecord)
    → NumberedFrom n rs
    → r.ingest_seq ≡ n + length rs
    → NumberedFrom n (rs ++ r ∷ [])
NumberedFrom-snoc n [] r h e = (omega arith, tt)
NumberedFrom-snoc n (x ∷ rs) r h e = (h.0, NumberedFrom-snoc (suc n) rs r h.1 (omega arith))

pub create-IsValid : (n : ℕ) (b : RawInputBuffer) → create n ≡ ok b → IsValid b
unfolding create
create-IsValid n b h = ground arith

-- Appending to a valid buffer, where it succeeds, gives a valid one: the records are numbered from
-- 1 without gaps, the next number follows the last, and the capacity is kept.
pub append-IsValid :
    (b : RawInputBuffer) (event : RawMarketEvent) (ts : Option ℕ) (now : ℕ) {c : RawInputBuffer}
    {r : RawInputBufferRecord}
    → IsValid b
    → append b event ts now ≡ ok (c, r)
    → IsValid c
unfolding append
append-IsValid b event ts now v h = ground (
  arith,
  length-append b.records (new_record b event ts now ∷ []),
  NumberedFrom-snoc 1 b.records (new_record b event ts now) v.numbered,
)

pub keep-beyond :
    (s m n : ℕ) (rs : List RawInputBufferRecord)
    → NumberedFrom n rs
    → m < n
    → keep (in_range s m) rs ≡ []
unfolding keep
keep-beyond s m n [] h lt = refl
keep-beyond s m n (r ∷ rs) h lt = ground (arith, keep-beyond s m (suc n) rs h.1)

pub keep-split :
    (s m e n : ℕ) (rs : List RawInputBufferRecord)
    → NumberedFrom n rs
    → s ≤ m + 1
    → m ≤ e
    → keep (in_range s e) rs ≡ keep (in_range s m) rs ++ keep (in_range (m + 1) e) rs
unfolding keep
keep-split s m e n [] h p q = refl
keep-split s m e n (r ∷ rs) h p q =
    ground (arith, keep-split s m e (suc n) rs h.1, keep-beyond s m (suc n) rs h.1)

last?-numbered :
    (n : ℕ) (rs : List RawInputBufferRecord) (r : RawInputBufferRecord)
    → NumberedFrom n rs
    → last? rs ≡ some r
    → r.ingest_seq + 1 ≡ n + length rs
last?-numbered n [] r h e = ground arith
last?-numbered n (x ∷ []) r h e = ground arith
last?-numbered n (x ∷ y ∷ rs) r h e = omega (arith, last?-numbered (suc n) (y ∷ rs) r h.1 e)

last?-none : (rs : List RawInputBufferRecord) → last? rs ≡ none → rs ≡ []
last?-none [] e = refl
last?-none (x ∷ []) e = ground arith
last?-none (x ∷ y ∷ rs) e = absurd (cc (last?-none (y ∷ rs) e))

last?-some :
    (rs : List RawInputBufferRecord) (r : RawInputBufferRecord) → last? rs ≡ some r → 1 ≤ length rs
last?-some [] r e = ground arith
last?-some (x ∷ rs) r e = omega arith

-- The last number in use is the number of records, and an empty buffer has none.
pub last_ingest_seq-length :
    (b : RawInputBuffer)
    → IsValid b
    → ((last_ingest_seq b ≡ none) × (b.records ≡ []))
      ⊎ ((last_ingest_seq b ≡ some (length b.records)) × (1 ≤ length b.records))
unfolding last_ingest_seq
last_ingest_seq-length b v = elim (Option-cases (last? b.records)) [
  | inl e ↦ inl (ground arith, last?-none b.records e)
  | inr (r, e) ↦
      inr (ground (arith, last?-numbered 1 b.records r v.numbered), last?-some b.records r e)
]

-- The full range holds all records.
pub keep_all :
    (n : ℕ) (rs : List RawInputBufferRecord) (e : ℕ)
    → NumberedFrom n rs
    → 1 ≤ n
    → n + length rs ≤ e + 1
    → keep (in_range 1 e) rs ≡ rs
unfolding keep
keep_all n [] e h p q = refl
keep_all n (r ∷ rs) e h p q = ground (arith, keep_all (suc n) rs e h.1)
