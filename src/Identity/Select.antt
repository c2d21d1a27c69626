-- ===== src/Identity/Select.antt =====
-- `select_best_identity_matches` of netbox_sync/source_identity.py.
use infra_sync.Prelude.{
  ℕ, Bool-cases, ltb_iff, inl, inr, ◌≢◌, ap, ◌∙◌, ◌<◌, ◌≡◌, refl, ◌&&◌, false, not, List, [], ◌∷◌,
  ◌++◌, arith, if◌then◌else◌, Result, ok, ◌>>=◌, ltb, eqb, keep, All,
}
use Prim.Native.Nat.{max}
use mathlib.Core.List.{append-nil, append_assoc}

module _ {E A : Type 0} (ranker : A → Result E ℕ) where
  -- The loop over the candidates, with `best_rank` and `matches`. A rank that raises ends it.
  unfoldable pub select_from : ℕ → List A → List A → Result E (List A)
  select_from best_rank matches [] = ok matches
  select_from best_rank matches (candidate ∷ candidates) = ranker candidate >>= λ rank.
      select_from (if ltb best_rank rank then rank else best_rank)
        (if ltb best_rank rank
          then candidate ∷ []
          else if not (eqb rank 0) && eqb rank best_rank
          then matches ++ candidate ∷ []
          else matches)
        candidates

  unfoldable pub select_best : List A → Result E (List A)
  unfolding select_from
  select_best candidates = select_from 0 [] candidates

-- The highest rank among the candidates.
unfoldable pub best_of : {A : Type 0} → (A → ℕ) → List A → ℕ
best_of rank [] = 0
best_of rank (c ∷ cs) = max (rank c) (best_of rank cs)

module _ {E A : Type 0} (ranker : A → Result E ℕ) (rank : A → ℕ) where
  abbrev at_rank : ℕ → List A → List A
  at_rank n cs = keep (λ c. eqb (rank c) n) cs

  keep_above : (n : ℕ) (cs : List A) → best_of rank cs < n → at_rank n cs ≡ []
  unfolding best_of
  keep_above n [] h = refl
  keep_above n (c ∷ cs) h = ground (arith, keep_above n cs)

  -- What the loop returns from `best` and `ms` on.
  abbrev chosen : ℕ → List A → List A → List A
  chosen best ms cs =
      if ltb best (best_of rank cs)
      then at_rank (best_of rank cs) cs
      else ms ++ (if eqb best 0 then [] else at_rank best cs)

  module _ (best : ℕ) (ms : List A) (c : A) (cs : List A) where
    chosen_better : best < rank c → chosen best ms (c ∷ cs) ≡ chosen (rank c) (c ∷ []) cs
    unfolding best_of
    chosen_better h = ground arith

    chosen_equal :
        rank c ≢ 0 → rank c ≡ best → chosen best ms (c ∷ cs) ≡ chosen best (ms ++ c ∷ []) cs
    unfolding best_of
    chosen_equal pos h = rw append_assoc (ground arith)

    chosen_zero : rank c ≡ 0 → chosen best ms (c ∷ cs) ≡ chosen best ms cs
    unfolding best_of
    chosen_zero h = ground (arith, keep_above best cs)

    chosen_worse : rank c < best → chosen best ms (c ∷ cs) ≡ chosen best ms cs
    unfolding best_of
    chosen_worse h = ground arith

  chosen_skip :
      (best : ℕ) (ms : List A) (c : A) (cs : List A)
      → ltb best (rank c) ≡ false
      → (not (eqb (rank c) 0) && eqb (rank c) best) ≡ false
      → chosen best ms cs ≡ chosen best ms (c ∷ cs)
  chosen_skip best ms c cs stay other =
      ground (arith, chosen_zero best ms c cs, chosen_worse best ms c cs)

  select_from_lem :
      (best : ℕ) (ms cs : List A)
      → All (λ c. ranker c ≡ ok (rank c)) cs
      → select_from ranker best ms cs ≡ ok (chosen best ms cs)
  unfolding select_from best_of
  select_from_lem best ms [] h = ground (arith, append-nil ms)
  select_from_lem best ms (c ∷ cs) h = elim (Bool-cases (ltb best (rank c))) [
    | inl up ↦
        rw (h.0, up, chosen_better best ms c cs ((ltb_iff best (rank c)).0 up))
          (select_from_lem (rank c) (c ∷ []) cs h.1)
    | inr stay ↦ elim (Bool-cases (not (eqb (rank c) 0) && eqb (rank c) best)) [
      | inl same ↦
          rw (h.0, stay, same, chosen_equal best ms c cs (ground arith) (ground arith))
            (select_from_lem best (ms ++ c ∷ []) cs h.1)
      | inr other ↦
          rw (h.0, stay, other)
            (select_from_lem best ms cs h.1 ∙ ap ok (chosen_skip best ms c cs stay other))
    ]
  ]

  -- Where every candidate can be ranked, the loop returns, in their order, the candidates of the
  -- highest rank, and none if that is 0: a v2 match hides every legacy match, and candidates that
  -- tie are all returned.
  pub select_best_lem :
      (cs : List A)
      → All (λ c. ranker c ≡ ok (rank c)) cs
      → select_best ranker cs
        ≡ ok (if eqb (best_of rank cs) 0 then [] else at_rank (best_of rank cs) cs)
  unfolding select_best
  select_best_lem cs h = ground (arith, select_from_lem 0 [] cs h)
