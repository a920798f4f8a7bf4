-- ===== src/Methods/Binance/Book/Rotation.antt =====
-- The snapshots of a book connection go round its pairs.
use mathlib.Core.Path.{subst}
use native.Mathlib.Nat.{zero-add, mod-lt, mod-add-mod, mod-eq_of_lt}
use v_exchanges.Prelude.{
  ℕ, ℤ, zero, suc, ◌+◌, ◌%◌, ◌<◌, ◌≡◌, ◌∙◌, refl, Bool, true, false, not, ◌&&◌, Option, none, some,
  List, [], ◌∷◌, Map, Eq, Text, Result, ok, err, length, get_elem?, is_none, arith, Option-cases,
  inl, inr, Bool-cases, ◌>>=◌, ltb, if◌then◌else◌, ◌==◌, ◌^◌, ◌/◌,
}
use v_exchanges.Methods.Info.{Instrument}
use v_exchanges.Methods.Trades.{PrecisionPriceQty}
use v_exchanges.Methods.Streams.{BookShape, BookUpdate, Readers}
use v_exchanges.Ws.Messages.{WsError, ContentEvent}
use v_exchanges.Methods.Binance.Book.{
  BookConnection, Parsers, Branch, delta, updates, fetching, snapshot_ready, opened,
  build_next_snapshot_fut, next, snapshot_answer,
}

get_elem?-some {ℓ} :
    {A : Type ℓ} (xs : List A) (i : ℕ) → i < length xs → (x : A) × (get_elem? xs i ≡ some x)
get_elem?-some [] i h = absurd (omega arith)
get_elem?-some (x ∷ xs) zero h = (x, refl)
get_elem?-some (x ∷ xs) (suc i) h = get_elem?-some xs i (omega arith)

first : (n : ℕ) → 0 < suc n
first n = omega arith

second : (n : ℕ) → (if ltb 1 (suc n) then 1 else 0) ≡ (0 + 1) % suc n
second zero = refl
second (suc n) = grind (arith, mod-eq_of_lt)

module _ {Value Pair : Type 0} ⦃e : Eq Pair⦄ (lib : Readers Pair)
    (parsers : Parsers Value Pair) where
  abbrev pub all_listed : Map Pair PrecisionPriceQty → List Pair → Bool
  all_listed precisions [] = true
  all_listed precisions (p ∷ ps) = not (is_none (precisions p)) && all_listed precisions ps

  -- The answer of a call of `next`: what was ready, and the two clocks then.
  abbrev pub Ready : Type 0
  Ready = Branch Value × ℕ × ℤ

  -- The state behind some calls, unless one of them panics.
  abbrev pub behind_calls : List Ready → BookConnection Pair → Option (BookConnection Pair)
  behind_calls [] c = some c
  behind_calls ((branch, instant, now) ∷ calls) c =
      next lib parsers branch instant now c >>= λ (_, c'). behind_calls calls c'

  -- How many of some calls ended with a snapshot, be it one that failed.
  abbrev pub snapshots_in : List Ready → ℕ
  snapshots_in [] = 0
  snapshots_in ((snapshot_ready _, _, _) ∷ calls) = 1 + snapshots_in calls
  snapshots_in ((delta _, _, _) ∷ calls) = snapshots_in calls

  module _ (precisions : Map Pair PrecisionPriceQty) (pairs : List Pair) where
    -- The pair with the number `n`, counted round and round, is awaited.
    pub record IsAt (n : ℕ) (c : BookConnection Pair) : Type 0 where
      pub same_pairs : c.pairs ≡ pairs
      pub same_precisions : c.pair_precisions ≡ precisions
      pub turn : c.next_pair_idx ≡ (n + 1) % length pairs
      pub repeats : is_none c.per_pair_interval ≡ false
      pub awaited :
          (p : Pair) × (deadline : ℕ) × (c.pending_snapshot_fut ≡ fetching p deadline)
          × (get_elem? pairs (n % length pairs) ≡ some p)

    listed :
        (ps : List Pair) (i : ℕ) (p : Pair)
        → all_listed precisions ps ≡ true
        → get_elem? ps i ≡ some p
        → is_none (precisions p) ≡ false
    listed [] i p h g = absurd (ground arith)
    listed (q ∷ ps) zero p h g = ground arith
    listed (q ∷ ps) (suc i) p h g = listed ps i p (ground arith) g

    -- The state behind a snapshot, when the pair `p` is next.
    abbrev behind : Pair → ℕ → BookConnection Pair → BookConnection Pair
    behind p deadline c = record c {
      next_pair_idx = (c.next_pair_idx + 1) % length c.pairs;
      pending_snapshot_fut = fetching p deadline;
    }

    build-IsAt :
        (n : ℕ) (c : BookConnection Pair) (instant : ℕ)
        → all_listed precisions pairs ≡ true
        → 0 < length pairs
        → IsAt n c
        → (p : Pair) × (deadline : ℕ) × (build_next_snapshot_fut instant c
            ≡ some (
              fetching p deadline,
              record c { next_pair_idx = (c.next_pair_idx + 1) % length c.pairs },
            ))
          × (get_elem? pairs ((n + 1) % length pairs) ≡ some p)
    unfolding build_next_snapshot_fut
    build-IsAt n c instant all some_pair at =
        let (p, g) = get_elem?-some pairs ((n + 1) % length pairs) (mod-lt (n + 1) some_pair) in
        let known = listed pairs ((n + 1) % length pairs) p all g in
        elim (Option-cases c.per_pair_interval) [
          | inl f ↦ absurd (ground arith)
          | inr (interval, f) ↦ elim (Option-cases (precisions p)) [
            | inl f' ↦ absurd (ground arith)
            | inr (q, f') ↦ (
              p,
              instant + interval,
              rw f (rw at.same_pairs (rw at.turn (rw g (rw at.same_precisions (rw f' refl))))),
              g,
            )
          ]
        ]

    next-IsAt :
        (n : ℕ) (c : BookConnection Pair) (r : Result Text BookShape) (instant : ℕ) (now : ℤ)
        → all_listed precisions pairs ≡ true
        → 0 < length pairs
        → IsAt n c
        → (out : Result WsError (List BookUpdate)) × (c' : BookConnection Pair) × (next lib parsers
              (snapshot_ready r)
              instant
              now
              c
            ≡ some (out, c'))
          × IsAt (n + 1) c'
    unfolding next
    next-IsAt n c r instant now all some_pair at =
        let (p, deadline, built, g) = build-IsAt n c instant all some_pair at in
        (
          snapshot_answer r,
          behind p deadline c,
          rw built refl,
          record {
            same_pairs = at.same_pairs;
            same_precisions = at.same_precisions;
            turn = rw at.same_pairs (rw at.turn (mod-add-mod (n + 1) (length pairs) 1));
            repeats = at.repeats;
            awaited = (p, deadline, refl, g);
          },
        )

    -- Deltas leave the turn of the snapshots as it is.
    delta-IsAt :
        (n : ℕ) (c c' : BookConnection Pair) (r : Result WsError (List (ContentEvent Value)))
        (instant : ℕ) (now : ℤ) (out : Result WsError (List BookUpdate))
        → next lib parsers (delta r) instant now c ≡ some (out, c')
        → IsAt n c
        → IsAt n c'
    unfolding next
    delta-IsAt n c c' (err e) instant now out h at =
        let same : c ≡ c' = ground arith in subst (λ x. IsAt n x) same at
    delta-IsAt n c c' (ok batch) instant now out h at =
        elim (Option-cases
          (updates lib parsers c.instrument c.pair_precisions now batch c.last_seq)) [
            | inl f ↦ absurd (ground arith)
            | inr ((made, last), f) ↦
                (let same : record c { last_seq = last } ≡ c' = ground arith in
                  subst (λ x. IsAt n x) same
                    (record {
                      same_pairs = at.same_pairs;
                      same_precisions = at.same_precisions;
                      turn = at.turn;
                      repeats = at.repeats;
                      awaited = at.awaited;
                    }))
          ]

    calls-IsAt :
        (calls : List Ready) (n : ℕ) (c c' : BookConnection Pair)
        → all_listed precisions pairs ≡ true
        → 0 < length pairs
        → behind_calls calls c ≡ some c'
        → IsAt n c
        → IsAt (n + snapshots_in calls) c'
    calls-IsAt [] n c c' all some_pair run at =
        let same : c ≡ c' = ground arith in
        subst (λ k. IsAt k c') (omega arith) (subst (λ x. IsAt n x) same at)
    calls-IsAt ((snapshot_ready r, instant, now) ∷ calls) n c c' all some_pair run at =
        let (out, c₁, step, at₁) = next-IsAt n c r instant now all some_pair at in
        let rest : behind_calls calls c₁ ≡ some c' = ground arith in
        subst (λ k. IsAt k c') (omega arith) (calls-IsAt calls (n + 1) c₁ c' all some_pair rest at₁)
    calls-IsAt ((delta r, instant, now) ∷ calls) n c c' all some_pair run at =
        elim (Option-cases (next lib parsers (delta r) instant now c)) [
          | inl f ↦ absurd (ground arith)
          | inr ((out, c₁), f) ↦
              calls-IsAt calls n c₁ c' all some_pair (ground arith)
                (delta-IsAt n c c₁ r instant now out f at)
        ]

  opened-IsAt :
      (precisions : Map Pair PrecisionPriceQty) (p : Pair) (ps : List Pair)
      (instrument : Instrument) (freq now : ℕ) (c : BookConnection Pair)
      → opened (p ∷ ps) instrument precisions (some freq) now ≡ some c
      → IsAt precisions (p ∷ ps) 0 c
  unfolding opened
  opened-IsAt precisions p ps instrument freq now c h =
      elim (Bool-cases (length (p ∷ ps) % 2 ^ 32 == 0)) [
        | inl f ↦ absurd (ground arith)
        | inr f ↦ elim (Option-cases (precisions p)) [
          | inl g ↦ absurd (ground arith)
          | inr (q, g) ↦ record {
            same_pairs = ground arith;
            same_precisions = ground arith;
            turn =
                (let idx : c.next_pair_idx ≡ (if ltb 1 (suc (length ps)) then 1 else 0) =
                    ground arith in
                  idx ∙ second (length ps));
            repeats = ground arith;
            awaited = (p, now, ground arith, rw (mod-eq_of_lt (first (length ps))) refl);
          }
        ]
      ]

  opened-some :
      (precisions : Map Pair PrecisionPriceQty) (p : Pair) (ps : List Pair)
      (instrument : Instrument) (freq now : ℕ)
      → length (p ∷ ps) < 2 ^ 32
      → all_listed precisions (p ∷ ps) ≡ true
      → (c : BookConnection Pair) × (opened (p ∷ ps) instrument precisions (some freq) now ≡ some c)
  unfolding opened
  opened-some precisions p ps instrument freq now small all =
      let few : (length (p ∷ ps) % 2 ^ 32 == 0) ≡ false = ground arith in
      elim (Option-cases (precisions p)) [
        | inl g ↦ absurd (ground arith)
        | inr (q, g) ↦ (
          record {
            pair_precisions = precisions;
            instrument = instrument;
            pairs = p ∷ ps;
            next_pair_idx = if ltb 1 (length (p ∷ ps)) then 1 else 0;
            per_pair_interval = some (freq / (length (p ∷ ps) % 2 ^ 32));
            pending_snapshot_fut = fetching p now;
            last_seq = λ _. none;
          },
          rw few (rw g refl),
        )
      ]

  -- A book connection opens with snapshots for some pairs that are all listed (fewer than 2 ^ 32).
  -- Behind any calls of `next`, with deltas, errors and snapshots in any order, of which `k` ended
  -- with a snapshot that arrived or failed, it awaits the snapshot of the pair with the number `k`
  -- modulo the number of pairs; and whether that arrives or fails, the call does not panic over it.
  pub snapshots_rotate :
      (precisions : Map Pair PrecisionPriceQty) (p : Pair) (ps : List Pair)
      (instrument : Instrument) (freq now : ℕ)
      → length (p ∷ ps) < 2 ^ 32
      → all_listed precisions (p ∷ ps) ≡ true
      → (c : BookConnection Pair) × (opened (p ∷ ps) instrument precisions (some freq) now ≡ some c)
        × ((calls : List Ready) (c' : BookConnection Pair)
            → behind_calls calls c ≡ some c'
            → ((q : Pair) × (deadline : ℕ) × (c'.pending_snapshot_fut ≡ fetching q deadline)
                × (get_elem? (p ∷ ps) (snapshots_in calls % length (p ∷ ps)) ≡ some q))
              × ((r : Result Text BookShape) (instant : ℕ) (time : ℤ)
                  → is_none (next lib parsers (snapshot_ready r) instant time c') ≡ false))
  snapshots_rotate precisions p ps instrument freq now small all =
      let (c, made) = opened-some precisions p ps instrument freq now small all in
      let at = opened-IsAt precisions p ps instrument freq now c made in
      (
        c,
        made,
        λ calls c' run.
            (let there =
                calls-IsAt precisions (p ∷ ps) calls 0 c c' all (first (length ps)) run at in
              let at' =
                subst (λ n. IsAt precisions (p ∷ ps) n c') (zero-add (snapshots_in calls)) there in
              (
                at'.awaited,
                λ r instant time.
                    (let (out, c₂, step, _) =
                        next-IsAt precisions (p ∷ ps) (snapshots_in calls) c' r instant time all
                          (first (length ps)) at' in
                      rw step refl),
              )),
      )
