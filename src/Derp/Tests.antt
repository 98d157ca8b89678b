-- ===== src/Derp/Tests.antt =====
-- The frames at concrete inputs.
use tailfeather.Common.{◌≡◌, arith, inr, [], ◌∷◌, ◌++◌, drop, replicate, ok}
use tailfeather.Derp.{other, write, parse}
use tailfeather.Derp.RoundTrip.{parse-write}

parse-write_example :
    let (out', written) = write (other 9) (1 ∷ 2 ∷ []) (replicate 8 7) in
    (written ≡ ok 7)
    × (parse out' ≡ ok (record { kind = other 9; length_of = 2 }))
    × (drop 5 out' ≡ (1 ∷ 2 ∷ []) ++ drop 7 (replicate 8 7))
parse-write_example =
    parse-write (other 9) (1 ∷ 2 ∷ []) (replicate 8 7) (inr (omega arith)) (omega arith)
      (omega arith)
