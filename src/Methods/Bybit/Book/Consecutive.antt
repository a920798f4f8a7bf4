-- ===== src/Methods/Bybit/Book/Consecutive.antt =====
-- What an unflagged run of Bybit's deltas holds.
use v_exchanges.Prelude.{
  ℕ, ℤ, ◌+◌, ◌≡◌, refl, sym, Bool, true, false, not, ◌&&◌, Option, some, List, [], ◌∷◌, Map, Eq,
  map, insert, insert_self, arith, Option-cases, inl, inr, u64_mod, ◌>>=◌, ltb, Bool-cases, ◌==◌,
  ◌%◌,
}
use v_exchanges.Ws.Messages.{ContentEvent}
use v_exchanges.Methods.Trades.{PrecisionPriceQty}
use v_exchanges.Methods.Streams
use v_exchanges.Methods.Streams.{BookShape, BookUpdate, Readers}
use mathlib.Core.Path.{subst}
use v_exchanges.Methods.Bybit.Book.{
  BybitSeq, Parsers, has_gap_from_prev, read_event, updates, update_of, gapped,
}

abbrev pub count_from : ℕ → List ℕ → List ℕ
count_from n [] = []
count_from n (_ ∷ us) = n ∷ count_from (n + 1) us

-- Every update is a delta without a gap.
abbrev pub all_clear : List BookUpdate → Bool
all_clear [] = true
all_clear (Streams.snapshot _ ∷ out) = false
all_clear (Streams.batch_delta _ gap ∷ out) = not gap && all_clear out

abbrev pub all_below_end : List ℕ → Bool
all_below_end [] = true
all_below_end (u ∷ us) = ltb (u + 1) u64_mod && all_below_end us

module _ {Value Pair : Type 0} ⦃e : Eq Pair⦄ (lib : Readers Pair) (parsers : Parsers Value Pair)
    (precisions : Map Pair PrecisionPriceQty) (now : ℤ) where
  abbrev pub read_all : List (ContentEvent Value) → Option (List (Pair × BybitSeq × BookShape))
  read_all [] = some []
  read_all (event ∷ events) =
      read_event lib parsers precisions now event >>= λ r. read_all events >>= λ rs. some (r ∷ rs)

  abbrev pub all_of : Pair → List (Pair × BybitSeq × BookShape) → Bool
  all_of p [] = true
  all_of p ((q, _, _) ∷ read) = e.beq q p && all_of p read

  abbrev pub u_of : Pair × BybitSeq × BookShape → ℕ
  u_of (_, seq, _) = seq.u

  -- An update that is a delta without a gap, behind a delta, has the next id.
  clear-follows :
      (prev seq : BybitSeq) (shape : BookShape) (out : List BookUpdate)
      → prev.is_snapshot ≡ false
      → ltb (prev.u + 1) u64_mod ≡ true
      → all_clear (update_of seq shape (gapped (some prev) seq) ∷ out) ≡ true
      → (seq.is_snapshot ≡ false) × (seq.u ≡ prev.u + 1) × (all_clear out ≡ true)
  unfolding has_gap_from_prev
  clear-follows prev seq shape out delta small clear = elim (Bool-cases seq.is_snapshot) [
    | inl s ↦ absurd (ground arith)
    | inr s ↦ elim (Bool-cases (seq.u == (prev.u + 1) % u64_mod)) [
      | inl g ↦ (s, ground arith, ground arith)
      | inr g ↦ absurd (ground arith)
    ]
  ]

  -- What a run over an event and some more events does.
  updates-cons :
      (q : Pair) (seq : BybitSeq) (shape : BookShape) (event : ContentEvent Value)
      (events : List (ContentEvent Value)) (last_seq last : Map Pair BybitSeq)
      (out : List BookUpdate)
      → read_event lib parsers precisions now event ≡ some (q, seq, shape)
      → updates lib parsers precisions now (event ∷ events) last_seq ≡ some (out, last)
      → (later : List BookUpdate) × (updates lib parsers precisions now events
            (insert q seq last_seq)
          ≡ some (later, last))
        × (out ≡ update_of seq shape (gapped (last_seq q) seq) ∷ later)
  unfolding updates
  updates-cons q seq shape event events last_seq last out f run =
      elim (Option-cases (updates lib parsers precisions now events (insert q seq last_seq))) [
        | inl g ↦ absurd (ground arith)
        | inr ((later, end), g) ↦ (later, ground arith, ground arith)
      ]

  -- If a batch is of one pair, whose last event was a delta with id `prev.u`, and every update it
  -- becomes is a delta that is not flagged, then no delta was lost: the ids go on by one from
  -- `prev.u`, as far as they do not reach 2 ^ 64.
  pub unflagged-consecutive :
      (p : Pair) (events : List (ContentEvent Value)) (read : List (Pair × BybitSeq × BookShape))
      (prev : BybitSeq) (last_seq last : Map Pair BybitSeq) (out : List BookUpdate)
      → read_all events ≡ some read
      → all_of p read ≡ true
      → last_seq p ≡ some prev
      → prev.is_snapshot ≡ false
      → all_below_end (prev.u ∷ map u_of read) ≡ true
      → updates lib parsers precisions now events last_seq ≡ some (out, last)
      → all_clear out ≡ true
      → map u_of read ≡ count_from (prev.u + 1) (map u_of read)
  unfolding updates
  unflagged-consecutive p [] read prev last_seq last out h all known delta small run clear =
      let same : [] ≡ read = ground arith in rw (sym same) refl
  unflagged-consecutive p (event ∷ events) read prev last_seq last out h all known delta small run
        clear =
      elim (Option-cases (read_event lib parsers precisions now event)) [
        | inl f ↦ absurd (ground arith)
        | inr ((q, seq, shape), f) ↦ elim (Option-cases (read_all events)) [
          | inl g ↦ absurd (ground arith)
          | inr (rs, g) ↦
              (let same : read ≡ (q, seq, shape) ∷ rs = ground arith in
                let (later, rest, made) =
                  updates-cons q seq shape event events last_seq last out f run in
                let all1 = subst (λ r. all_of p r ≡ true) same all in
                let small1 = subst (λ r. all_below_end (prev.u ∷ map u_of r) ≡ true) same small in
                let q_is : q ≡ p = (e.beq_iff q p).0 (ground arith) in
                let seen : last_seq q ≡ some prev = rw q_is known in
                let clear0 = subst (λ o. all_clear o ≡ true) made clear in
                let (plain, next_id, clear1) =
                  clear-follows prev seq shape later delta (ground arith) (
                    subst (λ o. all_clear (update_of seq shape (gapped o seq) ∷ later) ≡ true) seen
                      clear0) in
                let ih =
                  unflagged-consecutive p events rs seq (insert q seq last_seq) last later g
                    (ground arith)
                    (subst (λ k. insert q seq last_seq k ≡ some seq) q_is
                      (insert_self q seq last_seq))
                    plain (ground arith) rest clear1 in
                let ih1 = subst (λ n. map u_of rs ≡ count_from (n + 1) (map u_of rs)) next_id ih in
                rw same cc)
        ]
      ]
