-- ===== src/Orchestrator/Cuts/Refusal.antt =====
-- The refusals of `CutSelector.next_cut` in src/orchestrator/cuts.py.
use xray_vision.Base.{
  ℕ, ◌+◌, ◌≤◌, ◌≡◌, refl, sym, String, Option, none, some, List, [], ◌∷◌, ok, err, arith,
  Result-cases, inl, inr, keep,
}
use xray_vision.Base.Dict
use xray_vision.Orchestrator.Errors.{Error}
use xray_vision.Orchestrator.Buffer.{
  RawInputBuffer, RawInputBufferRecord, in_range, has_symbol, range_by_seq,
}
use xray_vision.Orchestrator.Buffer.Numbering.{NumberedFrom}
use xray_vision.Orchestrator.Cuts.{CutSelector, first_seq, first_seq_for_symbol, start_of, next_cut}
use xray_vision.Orchestrator.Cuts.Coverage.{slice, covered_to, first_seq-lower}

first_seq-none :
    (symbol : String) (rs : List RawInputBufferRecord)
    → first_seq symbol rs ≡ none
    → keep (has_symbol symbol) rs ≡ []
unfolding first_seq keep
first_seq-none symbol [] h = refl
first_seq-none symbol (r ∷ rs) h = ground (arith, first_seq-none symbol rs)

-- The first number from which the symbol is still to be cut, if there is one.
start_of-eq :
    (sel : CutSelector) (b : RawInputBuffer) (symbol : String) (e : ℕ) (last : Option ℕ)
    → Dict.get sel.last_end_by_symbol symbol ≡ last
    → 1 ≤ e
    → start_of sel b symbol e ≡ elim last [
      | none ↦ ok (first_seq symbol (keep (in_range 1 e) b.records))
      | some l ↦ ok (some (l + 1))
    ]
unfolding start_of first_seq_for_symbol range_by_seq
start_of-eq sel b symbol e none h p = ground arith
start_of-eq sel b symbol e (some l) h p = ground arith

refused :
    (sel : CutSelector) (b : RawInputBuffer) (symbol kind : String) (e : ℕ) (last o : Option ℕ)
    {x : Error}
    → Dict.get sel.last_end_by_symbol symbol ≡ last
    → NumberedFrom 1 b.records
    → 1 ≤ e
    → ((l : ℕ) → last ≡ some l → l ≤ e)
    → start_of sel b symbol e ≡ ok o
    → next_cut sel b symbol e kind ≡ err x
    → covered_to last b symbol ≡ slice b symbol 1 e
unfolding next_cut
refused sel b symbol kind e none none g v p q s h = sym (
    first_seq-none symbol (keep (in_range 1 e) b.records)
      (ground (arith, start_of-eq sel b symbol e none g p)))
refused sel b symbol kind e none (some k) g v p q s h =
    absurd (
      ground (arith, start_of-eq sel b symbol e none g p, first_seq-lower symbol 1 e k b.records v))
refused sel b symbol kind e (some l) none g v p q s h =
    absurd (ground (arith, start_of-eq sel b symbol e (some l) g p))
refused sel b symbol kind e (some l) (some k) g v p q s h =
    let same : l ≡ e = ground (arith, start_of-eq sel b symbol e (some l) g p, q l) in rw same

-- Where a cut of a symbol up to a positive number is refused, in a buffer numbered from 1 and no
-- earlier than the last cut of the symbol, nothing is lost: the earlier cuts have covered all its
-- records up to that number.
pub next_cut_refused :
    (sel : CutSelector) (b : RawInputBuffer) (symbol kind : String) (e : ℕ) {x : Error}
    → NumberedFrom 1 b.records
    → 1 ≤ e
    → ((l : ℕ) → Dict.get sel.last_end_by_symbol symbol ≡ some l → l ≤ e)
    → next_cut sel b symbol e kind ≡ err x
    → covered_to (Dict.get sel.last_end_by_symbol symbol) b symbol ≡ slice b symbol 1 e
next_cut_refused sel b symbol kind e v p q h = elim (Result-cases (start_of sel b symbol e)) [
  | inl (o, s) ↦
      refused sel b symbol kind e (Dict.get sel.last_end_by_symbol symbol) o refl v p q s h
  | inr (y, s) ↦
      absurd
        (ground (arith, start_of-eq sel b symbol e (Dict.get sel.last_end_by_symbol symbol) refl p))
]
