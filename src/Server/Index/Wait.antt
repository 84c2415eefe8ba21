-- ===== src/Server/Index/Wait.antt =====
-- The loop of `run_server` that waits for Quickwit.
use yaffle.Base.{
  ap, map, ◌++◌, ◌*◌, ℕ, suc, ◌*◌, ◌≤◌, ◌≡◌, refl, List, [], ◌∷◌, Result, ok, err, min, arith, All,
  length,
}

-- What each attempt gives is an explicit sequence; the seconds slept between the attempts come out,
-- and whether an attempt succeeded.
pub data Ended : Type 0 where
  connected still_waiting : Ended

abbrev cons_wait : ℕ → List ℕ × Ended → List ℕ × Ended
cons_wait w (l, e) = (w ∷ l, e)

unfoldable pub connect_loop : {E : Type 0} → ℕ → List (Result E Unit) → List ℕ × Ended
connect_loop connect_wait [] = ([], still_waiting)
connect_loop connect_wait (ok tt ∷ attempts) = ([], connected)
connect_loop connect_wait (err e ∷ attempts) =
    cons_wait connect_wait (connect_loop (min (connect_wait * 2) 10) attempts)

module _ {E : Type 0} where
  bounded :
      (w : ℕ) (rs : List (Result E Unit))
      → 1 ≤ w
      → w ≤ 10
      → All (λ x. (1 ≤ x) × (x ≤ 10)) (connect_loop w rs).0
  unfolding connect_loop
  bounded w [] lo hi = tt
  bounded w (ok tt ∷ rs) lo hi = tt
  bounded w (err e ∷ rs) lo hi = ((lo, hi), bounded (min (w * 2) 10) rs (omega arith) (omega arith))

  counted :
      (w : ℕ) (es : List E) (rs : List (Result E Unit))
      → ((connect_loop w (map err es ++ (ok tt ∷ rs))).1 ≡ connected)
        × (length (connect_loop w (map err es ++ (ok tt ∷ rs))).0 ≡ length es)
  unfolding connect_loop
  counted w [] rs = (refl, refl)
  counted w (e ∷ es) rs = let (c, n) = counted (min (w * 2) 10) es rs in (c, ap suc n)

  -- The loop that starts with a wait of one second ends at the first attempt that succeeds, has then
  -- slept once for each attempt that failed, and never less than one or more than ten seconds.
  pub connect_loop-bounds :
      (es : List E) (rs : List (Result E Unit))
      → ((connect_loop 1 (map err es ++ (ok tt ∷ rs))).1 ≡ connected)
        × (length (connect_loop 1 (map err es ++ (ok tt ∷ rs))).0 ≡ length es)
        × All (λ w. (1 ≤ w) × (w ≤ 10)) (connect_loop 1 (map err es ++ (ok tt ∷ rs))).0
  connect_loop-bounds es rs =
      let (c, n) = counted 1 es rs in
      (c, n, bounded 1 (map err es ++ (ok tt ∷ rs)) (omega arith) (omega arith))
