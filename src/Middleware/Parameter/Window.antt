-- ===== src/Middleware/Parameter/Window.antt =====
-- The time window of `filter_time` (internal/middleware/parameter.go): what it keeps, and where its
-- arithmetic on 64-bit nanoseconds wraps around.
use syndi.Common.{
  ℕ, ◌*◌, ◌+◌, ◌-◌, ◌^◌, ◌≤◌, ◌<◌, ◌≡◌, refl, Bool, not, ◌&&◌, List, [], ◌∷◌, some, arith, Text,
  pos, ◌+ℤ◌, ◌-ℤ◌, ◌*ℤ◌, ◌≤ℤ◌, wrap64, ltb_ℤ, keep_if, All,
}
use syndi.Golang.Numbers.{sscanf_d}
use syndi.Models.{Item, is_zero}
use syndi.Middleware.Parameter.{second, cutoff, within, filter_by_time}

-- Below 2^63 nanoseconds the window opens `n` seconds before now.
cutoff_exact :
    (n t : ℕ)
    → n * 1_000_000_000 < 2 ^ 63
    → n * 1_000_000_000 ≤ t
    → cutoff (pos t) (pos n) ≡ pos (t - n * 1_000_000_000)
unfolding cutoff second wrap64 ◌+ℤ◌ ◌-ℤ◌ ◌*ℤ◌
cutoff_exact n t h k = ground arith

-- From 2^63 nanoseconds on the product wraps around, and the window opens in the future.
cutoff_wraps :
    (n t : ℕ)
    → 2 ^ 63 < n * 1_000_000_000
    → n * 1_000_000_000 < 2 ^ 64
    → cutoff (pos t) (pos n) ≡ pos (t + (2 ^ 64 - n * 1_000_000_000))
unfolding cutoff second wrap64 ◌+ℤ◌ ◌-ℤ◌ ◌*ℤ◌
cutoff_wraps n t h k = ground arith

-- The item has a date, and it lies less than `n` seconds before `t`.
abbrev pub recent : ℕ → ℕ → Item → Bool
recent t n item = not (is_zero item.pub_date) && ltb_ℤ (pos (t - n * 1_000_000_000)) item.pub_date

-- A window of `n` seconds keeps exactly the items dated less than `n` seconds before now, as long as
-- it has less than 2^63 nanoseconds and does not reach back beyond the zero time.
pub filter_by_time-recent :
    (s : Text) (n t : ℕ) (items : List Item)
    → sscanf_d s ≡ some (pos n)
    → n * 1_000_000_000 < 2 ^ 63
    → n * 1_000_000_000 ≤ t
    → filter_by_time (pos t) items s ≡ keep_if (recent t n) items
unfolding filter_by_time within
filter_by_time-recent s n t items read fits back =
    rw (read, filter_by_time, cutoff_exact n t fits back)

none_within :
    (t : ℕ) (d : ℕ) (items : List Item)
    → All (λ i. i.pub_date ≤ℤ pos t) items
    → keep_if (within (pos (t + d))) items ≡ []
unfolding within
none_within t d [] h = refl
none_within t d (x ∷ xs) (p, h) = ground (arith, p, none_within t d xs h)

-- A window of more than 2^63 and less than 2^64 nanoseconds (from 9223372037 seconds, some 292
-- years, on) drops every item that is not dated in the future, where a shorter one keeps them.
pub filter_by_time-wraps :
    (s : Text) (n t : ℕ) (items : List Item)
    → sscanf_d s ≡ some (pos n)
    → 2 ^ 63 < n * 1_000_000_000
    → n * 1_000_000_000 < 2 ^ 64
    → All (λ i. i.pub_date ≤ℤ pos t) items
    → filter_by_time (pos t) items s ≡ []
unfolding filter_by_time
filter_by_time-wraps s n t items read over under past =
    rw (read, filter_by_time, cutoff_wraps n t over under)
      (none_within t (2 ^ 64 - n * 1_000_000_000) items past)
