-- ===== src/Middleware/Parameter/Order.antt =====
-- The comparison by which items are sorted (internal/middleware/parameter.go).
use syndi.Common.{◌≡◌, Bool, true, false, arith, if◌then◌else◌}
use syndi.Golang.Sorting.{StrictWeak}
use syndi.Models.{Time, is_zero, after}
use syndi.Middleware.Parameter.{newer}

-- The comparison on the dates alone.
later_first : Time → Time → Bool
later_first t u = if is_zero t then false else if is_zero u then true else after t u

later_first_trans :
    (t u v : Time) → later_first t u ≡ true → later_first u v ≡ true → later_first t v ≡ true
unfolding later_first
later_first_trans t u v = ground arith

later_first_incomparable :
    (t u v : Time)
    → later_first t u ≡ false
    → later_first u t ≡ false
    → later_first u v ≡ false
    → later_first v u ≡ false
    → (later_first t v ≡ false) × (later_first v t ≡ false)
unfolding later_first
later_first_incomparable t u v = ground arith

pub newer-StrictWeak : StrictWeak newer
unfolding newer later_first
newer-StrictWeak = record {
  irrefl = λ a. ground arith;
  trans = λ a b c. later_first_trans a.pub_date b.pub_date c.pub_date;
  incomparable = λ a b c. later_first_incomparable a.pub_date b.pub_date c.pub_date;
}
