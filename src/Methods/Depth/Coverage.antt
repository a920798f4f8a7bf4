-- ===== src/Methods/Depth/Coverage.antt =====
-- What a run of book updates without a gap covers, and that a connection of one market never panics
-- over a mismatch of its tokens.
use v_exchanges.Prelude.{
  ℕ, ◌+◌, Option, ◌>>=◌, ◌≤◌, ◌<◌, ◌≡◌, ◌⊎◌, inl, inr, refl, Bool, true, false, some, List, [], ◌∷◌,
  Map, Eq, insert, insert_self, u64_mod, map, not, ◌&&◌, arith, leb, Bool-cases,
}
use v_exchanges.Methods.Depth.{
  BinanceSpotSeq, BinanceDepthSeq, spot, has_gap_spot, DepthEvent, seq_of, gapped,
}
use v_exchanges.Methods.Info.{Instrument, spot_market}

-- A run of spot tokens in which none has a gap from the one before, each well-ordered.
abbrev pub IsUngapped : BinanceSpotSeq → List BinanceSpotSeq → Type 0
IsUngapped prev [] = Unit {0}
IsUngapped prev (s ∷ ss) =
    (has_gap_spot s prev ≡ false)
    × (s.u_first ≤ s.u_final)
    × (prev.u_final + 1 < u64_mod)
    × IsUngapped s ss

abbrev pub last_final : BinanceSpotSeq → List BinanceSpotSeq → ℕ
last_final prev [] = prev.u_final
last_final prev (s ∷ ss) = last_final s ss

abbrev pub IsCovered : ℕ → List BinanceSpotSeq → Type 0
IsCovered id [] = id < 0
IsCovered id (s ∷ ss) = ((s.u_first ≤ id) × (id ≤ s.u_final)) ⊎ IsCovered id ss

ungapped-covers :
    (prev : BinanceSpotSeq) (ss : List BinanceSpotSeq) (id : ℕ)
    → IsUngapped prev ss
    → prev.u_final < id
    → id ≤ last_final prev ss
    → IsCovered id ss
ungapped-covers prev [] id h low high = ground arith
ungapped-covers prev (s ∷ ss) id (g, o, b, h) low high = elim (Bool-cases (leb id s.u_final)) [
  | inl e ↦ inl (ground arith)
  | inr e ↦ inr (ungapped-covers s ss id h (ground arith) high)
]

abbrev pub token : DepthEvent → BinanceSpotSeq
token e = record { u_first = e.first_update_id; u_final = e.final_update_id }

-- Events whose ids are in order and do not wrap behind a token.
abbrev pub IsOrdered : BinanceSpotSeq → List DepthEvent → Type 0
IsOrdered prev [] = Unit {0}
IsOrdered prev (e ∷ es) =
    (e.first_update_id ≤ e.final_update_id) × (prev.u_final + 1 < u64_mod) × IsOrdered (token e) es

abbrev pub all_clear : {Pair : Type 0} → List (Pair × Bool) → Bool
all_clear [] = true
all_clear ((_, gap) ∷ out) = not gap && all_clear out

-- What the ids of a batch say by themselves: a gap flag for each, and the last tokens behind them.
unfoldable pub deltas :
    {Pair : Type 0}
    → ⦃e : Eq Pair⦄ → Instrument
    → List (Pair × DepthEvent)
    → Map Pair BinanceDepthSeq
    → Option (List (Pair × Bool) × Map Pair BinanceDepthSeq)
unfolding seq_of gapped
deltas instrument [] last_seq = some ([], last_seq)
deltas instrument ((pair, event) ∷ events) last_seq = seq_of instrument event >>= (λ seq.
    gapped (last_seq pair) seq >>= (λ gap.
      deltas instrument events (insert pair seq last_seq)
      >>= (λ (out, last). some ((pair, gap) ∷ out, last))))

module _ {Pair : Type 0} ⦃e : Eq Pair⦄ (pair : Pair) where
  abbrev pub batch : List DepthEvent → List (Pair × DepthEvent)
  batch [] = []
  batch (e ∷ es) = (pair, e) ∷ batch es

  abbrev pub flags : BinanceSpotSeq → List DepthEvent → List (Pair × Bool)
  flags prev [] = []
  flags prev (e ∷ es) = (pair, has_gap_spot (token e) prev) ∷ flags (token e) es

  -- A batch of spot events of a pair with a last token never panics, and each of its updates is
  -- flagged exactly by a gap from the token before it.
  pub deltas-flags :
      (events : List DepthEvent) (prev : BinanceSpotSeq) (m : Map Pair BinanceDepthSeq)
      → m pair ≡ some (spot prev)
      → (last : Map Pair BinanceDepthSeq) × (deltas spot_market (batch events) m
          ≡ some (flags prev events, last))
  unfolding deltas
  deltas-flags [] prev m h = (m, refl)
  deltas-flags (event ∷ events) prev m h =
      let (last, p) =
        deltas-flags events (token event) (insert pair (spot (token event)) m)
          (insert_self pair (spot (token event)) m) in
      (last, rw (h, deltas) (rw p refl))

  flags-IsUngapped :
      (events : List DepthEvent) (prev : BinanceSpotSeq)
      → all_clear (flags prev events) ≡ true
      → IsOrdered prev events
      → IsUngapped prev (map token events)
  flags-IsUngapped [] prev h o = tt
  flags-IsUngapped (event ∷ events) prev h (o, b, os) =
      (ground arith, o, b, flags-IsUngapped events (token event) (ground arith) os)

  -- If the ids of a batch of spot events are in order and no update of it is flagged as gapped,
  -- none is lost: every update id behind the pair's last token, up to the last of the batch,
  -- stands in one of the events.
  pub deltas-covers :
      (events : List DepthEvent) (prev : BinanceSpotSeq) (m last : Map Pair BinanceDepthSeq)
      (out : List (Pair × Bool)) (id : ℕ)
      → m pair ≡ some (spot prev)
      → IsOrdered prev events
      → deltas spot_market (batch events) m ≡ some (out, last)
      → all_clear out ≡ true
      → prev.u_final < id
      → id ≤ last_final prev (map token events)
      → IsCovered id (map token events)
  deltas-covers events prev m last out id h o run clear low high =
      let (last', p) = deltas-flags events prev m h in
      let same : flags prev events ≡ out = ground (arith, p, run) in
      ungapped-covers prev (map token events) id (flags-IsUngapped events prev (rw same clear) o)
        low high
