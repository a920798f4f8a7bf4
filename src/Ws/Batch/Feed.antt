-- ===== src/Ws/Batch/Feed.antt =====
-- What a batch of frames amounts to: the values before its end, fed to the handler in order.
use v_exchanges.Prelude.{
  ◌≡◌, ◌⊎◌, inl, inr, refl, Bool, true, false, Option, none, some, List, [], ◌∷◌, ◌++◌, ok, err,
  if◌then◌else◌, ◌&&◌, Bool-cases, Result-cases, arith,
}
use v_exchanges.Ws.Messages.{
  Protocol, Frame, text, ping, pong, close, binary, raw, failed, is_reconnecting,
}
use v_exchanges.Ws.Batch
use v_exchanges.Ws.Batch.{Drain, Drained, drain, answer, answer_handler}

pub reconnecting_cases : (r : Option Bool) → (r ≡ none) ⊎ ((r ≡ some true) ⊎ (r ≡ some false))
reconnecting_cases none = inl refl
reconnecting_cases (some true) = inr (inl refl)
reconnecting_cases (some false) = inr (inr refl)

module _ (p : Protocol) where
  open p use {Value, is_pong}

  -- Whether a frame ends its batch: a close, or an error that needs a reconnection.
  abbrev pub ends : Frame Value → Bool
  ends close = true
  ends (failed e) = elim (is_reconnecting e) [ some true ↦ true | _ ↦ false ]
  ends _ = false

  -- Frames that the code does not panic on.
  abbrev pub is_expected : Frame Value → Bool
  is_expected (text none) = false
  is_expected binary = false
  is_expected raw = false
  is_expected (failed e) = elim (is_reconnecting e) [ none ↦ false | _ ↦ true ]
  is_expected _ = true

  -- The frames before the first that ends the batch, and whether there is one.
  abbrev pub before_end : List (Frame Value) → List (Frame Value)
  before_end [] = []
  before_end (f ∷ fs) = let rest = before_end fs in if ends f then [] else f ∷ rest

  abbrev pub has_end : List (Frame Value) → Bool
  has_end [] = false
  has_end (f ∷ fs) = let rest = has_end fs in if ends f then true else rest

  abbrev pub all_expected : List (Frame Value) → Bool
  all_expected [] = true
  all_expected (f ∷ fs) = is_expected f && all_expected fs

  -- The value that a frame hands to the handler: none from an acknowledgement or from upkeep.
  abbrev pub value_of : Frame Value → List Value
  value_of (text (some v)) = if is_pong v then [] else v ∷ []
  value_of _ = []

  abbrev pub values : List (Frame Value) → List Value
  values [] = []
  values (f ∷ fs) = value_of f ++ values fs

  -- The handler on a list of values, up to its first error; `closed` is for the end of the batch.
  abbrev pub feed : Bool → List Value → Drain p → Drained p
  feed closed [] d = Batch.ended closed d
  feed closed (v ∷ vs) d = elim (answer p v d) [
    | err e ↦ Batch.errored e (answer_handler p v d)
    | ok d' ↦ feed closed vs d'
  ]

  -- If the code panics on none of the frames before the end of a batch, the batch is its values
  -- before the first close or fatal error, fed to the handler in the order they came; what stands
  -- behind that is dropped, and acknowledgements never reach the handler.
  pub drain-feed :
      (frames : List (Frame Value)) (d : Drain p)
      → all_expected (before_end frames) ≡ true
      → drain p frames d ≡ feed (has_end frames) (values (before_end frames)) d
  unfolding drain
  drain-feed [] d h = refl
  drain-feed (text none ∷ fs) d h = ground arith
  drain-feed (text (some v) ∷ fs) d h = elim (Bool-cases (is_pong v)) [
    | inl q ↦ rw (q, drain) (drain-feed fs d h)
    | inr q ↦
        rw (q, drain)
          (elim (Result-cases (answer p v d)) [
            | inl (d', e) ↦ rw (e, drain, feed) (drain-feed fs d' h)
            | inr (a, e) ↦ rw (e, drain, feed) refl
          ])
  ]
  drain-feed (ping ∷ fs) d h = drain-feed fs d h
  drain-feed (pong ∷ fs) d h = drain-feed fs d h
  drain-feed (close ∷ fs) d h = refl
  drain-feed (binary ∷ fs) d h = ground arith
  drain-feed (raw ∷ fs) d h = ground arith
  drain-feed (failed e ∷ fs) d h = elim (reconnecting_cases (is_reconnecting e)) [
    | inl q ↦ ground (arith, q)
    | inr (inl q) ↦ rw (q, drain, has_end, before_end, ends) refl
    | inr (inr q) ↦ rw (q, drain, has_end, before_end, ends) (drain-feed fs d (ground (arith, q)))
  ]
