-- ===== src/Orchestrator/Cuts/Coverage.antt =====
-- What the cuts of src/orchestrator/cuts.py hold, for one symbol.
use xray_vision.Base.{
  ℕ, suc, ◌+◌, ◌≤◌, ◌≡◌, refl, String, Option, none, some, List, [], ◌∷◌, ◌++◌, ok, arith,
  Result-cases, keep, keep-append, ap, ◌∙◌, inl, inr,
}
use xray_vision.Base.Dict
use xray_vision.Base.Dict.{get-put_self}
use xray_vision.Orchestrator.Buffer.{
  RawInputBuffer, RawInputBufferRecord, in_range, has_symbol, range_by_seq,
}
use xray_vision.Orchestrator.Buffer.Numbering.{NumberedFrom, IsValid, keep-split}
use xray_vision.Orchestrator.Cuts.{
  Cut, CutSelector, first_seq, first_seq_for_symbol, start_of, next_cut,
}

-- The records of the symbol with a number from `s` to `e`.
abbrev pub slice : RawInputBuffer → String → ℕ → ℕ → List RawInputBufferRecord
slice b symbol s e = keep (has_symbol symbol) (keep (in_range s e) b.records)

-- What the cuts so far have handed out for the symbol.
abbrev pub covered_to : Option ℕ → RawInputBuffer → String → List RawInputBufferRecord
covered_to none b symbol = []
covered_to (some last_end) b symbol = slice b symbol 1 last_end

abbrev pub covered : CutSelector → RawInputBuffer → String → List RawInputBufferRecord
covered sel b symbol = covered_to (Dict.get sel.last_end_by_symbol symbol) b symbol

slice-split :
    (b : RawInputBuffer) (symbol : String) (s m e : ℕ)
    → NumberedFrom 1 b.records
    → s ≤ m + 1
    → m ≤ e
    → slice b symbol s e ≡ slice b symbol s m ++ slice b symbol (m + 1) e
slice-split b symbol s m e h p q =
    ap (keep (has_symbol symbol)) (keep-split s m e 1 b.records h p q)
    ∙ keep-append (has_symbol symbol) (keep (in_range s m) b.records)
        (keep (in_range (m + 1) e) b.records)

keep-lower :
    (k e n : ℕ) (rs : List RawInputBufferRecord)
    → NumberedFrom n rs
    → 1 ≤ n
    → k ≤ n
    → keep (in_range 1 e) rs ≡ keep (in_range k e) rs
unfolding keep
keep-lower k e n [] h p q = refl
keep-lower k e n (r ∷ rs) h p q = ground (arith, keep-lower k e (suc n) rs h.1)

-- Before the first record of the symbol there is none of it.
pub first_seq-lower :
    (symbol : String) (n e k : ℕ) (rs : List RawInputBufferRecord)
    → NumberedFrom n rs
    → 1 ≤ n
    → first_seq symbol (keep (in_range 1 e) rs) ≡ some k
    → (n ≤ k)
      × (k ≤ e)
      × (keep (has_symbol symbol) (keep (in_range 1 e) rs)
          ≡ keep (has_symbol symbol) (keep (in_range k e) rs))
unfolding first_seq keep
first_seq-lower symbol n e k [] h p f = ground arith
first_seq-lower symbol n e k (r ∷ rs) h p f =
    ground (arith, first_seq-lower symbol (suc n) e k rs h.1, keep-lower k e (suc n) rs h.1)

-- What a successful call has found and returned.
pub record CutFrom (sel : CutSelector) (b : RawInputBuffer) (symbol kind : String) (e : ℕ)
    (sel' : CutSelector) (c : Cut) : Type 0 where
  pub start : ℕ
  pub found : start_of sel b symbol e ≡ ok (some start)
  pub ordered : start ≤ e
  pub positive : 1 ≤ e
  pub selector : sel' ≡ record { last_end_by_symbol = Dict.put sel.last_end_by_symbol symbol e }
  pub cut : c ≡ record {
    symbol = symbol;
    cut_start_ingest_seq = start;
    cut_end_ingest_seq = e;
    cut_kind = kind;
  }

CutFrom-of_found :
    (sel : CutSelector) (b : RawInputBuffer) (symbol kind : String) (e : ℕ) {sel' : CutSelector}
    {c : Cut} (o : Option ℕ)
    → start_of sel b symbol e ≡ ok o
    → next_cut sel b symbol e kind ≡ ok (sel', c)
    → CutFrom sel b symbol kind e sel' c
unfolding next_cut
CutFrom-of_found sel b symbol kind e none f h = absurd (ground arith)
CutFrom-of_found sel b symbol kind e (some k) f h = record {
  start = k;
  found = f;
  ordered = ground arith;
  positive = ground arith;
  selector = ground arith;
  cut = ground arith;
}

pub next_cut-CutFrom :
    (sel : CutSelector) (b : RawInputBuffer) (symbol kind : String) (e : ℕ) {sel' : CutSelector}
    {c : Cut}
    → next_cut sel b symbol e kind ≡ ok (sel', c)
    → CutFrom sel b symbol kind e sel' c
next_cut-CutFrom sel b symbol kind e h = elim (Result-cases (start_of sel b symbol e)) [
  | inl (o, f) ↦ CutFrom-of_found sel b symbol kind e o f h
  | inr (x, f) ↦ absurd (unfold next_cut in ground arith)
]

start_of-covered :
    (sel : CutSelector) (b : RawInputBuffer) (symbol : String) (e k : ℕ) (last : Option ℕ)
    → Dict.get sel.last_end_by_symbol symbol ≡ last
    → NumberedFrom 1 b.records
    → start_of sel b symbol e ≡ ok (some k)
    → k ≤ e
    → slice b symbol 1 e ≡ covered_to last b symbol ++ slice b symbol k e
unfolding start_of first_seq_for_symbol range_by_seq
start_of-covered sel b symbol e k none l v f h =
    (first_seq-lower symbol 1 e k b.records v (omega arith) (ground arith)).2
start_of-covered sel b symbol e k (some last) l v f h =
    let p : k ≡ last + 1 = ground arith in
    rw p (slice-split b symbol 1 last e v (omega arith) (omega arith))

pub CutFrom-covered :
    {sel : CutSelector} {b : RawInputBuffer} {symbol kind : String} {e : ℕ} {sel' : CutSelector}
    {c : Cut}
    → IsValid b
    → CutFrom sel b symbol kind e sel' c
    → (c.cut_start_ingest_seq ≤ c.cut_end_ingest_seq)
      × (c.cut_end_ingest_seq ≡ e)
      × (Dict.get sel'.last_end_by_symbol symbol ≡ some e)
      × (covered sel' b symbol
          ≡ covered sel b symbol ++ slice b symbol c.cut_start_ingest_seq c.cut_end_ingest_seq)
CutFrom-covered {sel} {b} {symbol} {kind} {e} v f =
    rw (f.cut, f.selector, get-put_self sel.last_end_by_symbol symbol e)
      (
        f.ordered,
        refl,
        refl,
        start_of-covered sel b symbol e f.start (Dict.get sel.last_end_by_symbol symbol) refl
            v.numbered f.found f.ordered,
      )

-- In a valid buffer a cut that succeeds ends where it was asked to, does not begin after its end,
-- and together with the earlier cuts of the symbol holds every record of the symbol up to its end,
-- in order and once.
pub next_cut-covered :
    (sel : CutSelector) (b : RawInputBuffer) (symbol kind : String) (e : ℕ) {sel' : CutSelector}
    {c : Cut}
    → IsValid b
    → next_cut sel b symbol e kind ≡ ok (sel', c)
    → (c.cut_start_ingest_seq ≤ c.cut_end_ingest_seq)
      × (c.cut_end_ingest_seq ≡ e)
      × (Dict.get sel'.last_end_by_symbol symbol ≡ some e)
      × (covered sel' b symbol
          ≡ covered sel b symbol ++ slice b symbol c.cut_start_ingest_seq c.cut_end_ingest_seq)
next_cut-covered sel b symbol kind e v h =
    CutFrom-covered v (next_cut-CutFrom sel b symbol kind e h)
