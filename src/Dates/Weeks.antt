-- ===== src/Dates/Weeks.antt =====
-- The weekdays of pkg/utils/date/parser.go: StartOfWeek, and the days that parseNaturalLanguage
-- counts, over a calendar in which a day later is a weekday later.
use mathlib.Core.List.{Memᴰ, Permᴰ}
use mathlib.Core.Path.{subst}
use mathlib.Core.List.Permᴰ
use syndi.Common.{
  ℕ, ◌+◌, ◌-◌, ◌*◌, ◌%◌, ◌<◌, ◌≤◌, Bool, true, false, List, [], ◌∷◌, none, some, Text, codes, pos,
  sub_ℕ, All, All-perm, Bool-cases, Option-cases, if◌then◌else◌, ltb, ltb→lt, ◌≡◌, refl, sym, ◌∙◌,
  inl, inr, arith,
}
use syndi.Golang.Strings.{contains, has_prefix}
use syndi.Dates.{TimeApi}
use syndi.Dates.Natural.{
  weekday_map, find_weekday, days_until, weekday_time, parse_weekday_or_relative,
}
use syndi.Dates.Parse.{start_of_week}

sub_ℕ-zero : (n : ℕ) → sub_ℕ n 0 ≡ pos n
sub_ℕ-zero n = ground arith

abbrev is_day : (Text × ℕ) → Bool
is_day (name, day) = ltb day 7

abbrev IsAbsent : Text → (Text × ℕ) → Type 0
IsAbsent s (name, day) = contains s name ≡ false

-- Where no day is found, the text has none of the names.
find_weekday-none :
    (s : Text) (days : List (Text × ℕ)) → find_weekday s days ≡ none → All (IsAbsent s) days
unfolding find_weekday
find_weekday-none s [] e = tt
find_weekday-none s ((name, day) ∷ days) e = elim (Bool-cases (contains s name)) [
  | inl f ↦ absurd (none-some {day = day} (sym e ∙ rw f refl))
  | inr f ↦ (f, find_weekday-none s days (sym (rw f refl) ∙ e))
]
  where
    none-some : {day : ℕ} → none ≡ some day → ⊥
    none-some h = cc

find_weekday-is_day :
    (s : Text) (days : List (Text × ℕ)) (target : ℕ)
    → find_weekday s days ≡ some target
    → All (λ x. is_day x ≡ true) days
    → target < 7
unfolding find_weekday
find_weekday-is_day s [] target e h = cc
find_weekday-is_day s ((name, day) ∷ days) target e (p, h) =
    ground (arith, find_weekday-is_day s days target, ltb→lt day 7)

All-member {ℓ κ} : {A : Type ℓ} (P : A → Type κ) {x : A} (xs : List A) → Memᴰ x xs → All P xs → P x
All-member P [] m h = elim m [ ]
All-member P (y ∷ xs) (Memᴰ.head e) (p, h) = subst P (sym e) p
All-member P (y ∷ xs) (Memᴰ.tail m) (p, h) = All-member P xs m h

-- The days of `AddDate` go around the week; -1 is 6 modulo 7.
pub record IsCalendar (api : TimeApi) : Type 0 where
  pub weekday-lt : (t : api.Time) → api.weekday t < 7
  pub weekday-add_date :
      (t : api.Time) (a b : ℕ)
      → api.weekday (api.add_date t (pos 0) (pos 0) (sub_ℕ a b)) ≡ (api.weekday t + a + 6 * b) % 7
  pub add_date-zero : (t : api.Time) → api.add_date t (pos 0) (pos 0) (pos 0) ≡ t

weekday_map-All-is_day : All (λ x. is_day x ≡ true) weekday_map
weekday_map-All-is_day = (
  refl,
  (
    refl,
    (
      refl,
      (refl, (refl, (refl, (refl, (refl, (refl, (refl, (refl, (refl, (refl, (refl, tt))))))))))),
    ),
  ),
)

module _ (api : TimeApi) (h : IsCalendar api) where
  start_of_week-of_monday : (t : api.Time) → api.weekday t ≡ 1 → start_of_week api t ≡ t
  unfolding start_of_week
  start_of_week-of_monday t e = rw (start_of_week, e, h.add_date-zero t) refl

  -- The start of a week is a Monday, the date at most six days before, and its own start.
  pub start_of_week-monday :
      (t : api.Time)
      → (api.weekday (start_of_week api t) ≡ 1)
        × ((k : ℕ) × k ≤ 6 × (start_of_week api t ≡ api.add_date t (pos 0) (pos 0) (sub_ℕ 0 k)))
        × (start_of_week api (start_of_week api t) ≡ start_of_week api t)
  unfolding start_of_week
  start_of_week-monday t =
      let monday : api.weekday (start_of_week api t) ≡ 1 =
        h.weekday-add_date t 0 ((api.weekday t + 7 - 1) % 7) ∙ omega (arith, h.weekday-lt t) in
      (
        monday,
        ((api.weekday t + 7 - 1) % 7, omega arith, refl),
        start_of_week-of_monday (start_of_week api t) monday,
      )

  -- A day that was counted to a weekday is that weekday, and it is at most six days ahead, or for
  -- a text that starts with "last " between seven days and one day ago.
  pub weekday_time-weekday :
      (now : api.Time) (lower : Text) (target : ℕ)
      → target < 7
      → (api.weekday (weekday_time api now lower target) ≡ target)
        × ((k : ℕ) × k < 7
            × (weekday_time api now lower target
                ≡ api.add_date now
                    (pos 0)
                    (pos 0)
                    (if has_prefix lower (codes "last ") then sub_ℕ k 7 else pos k)))
  weekday_time-weekday now lower target p =
      let k = days_until target (api.weekday now) in
      (
        elim (Bool-cases (has_prefix lower (codes "last "))) [
          | inl e ↦
              rw (weekday_time, e) (h.weekday-add_date now k 7 ∙ omega (arith, h.weekday-lt now))
          | inr e ↦
              rw (weekday_time, e, sym (sub_ℕ-zero k))
                (h.weekday-add_date now k 0 ∙ omega (arith, h.weekday-lt now))
        ],
        (k, omega arith, refl),
      )

module _ (api : TimeApi) (now : api.Time) (order : List (Text × ℕ) → List (Text × ℕ)) where
  -- A text that has the name of a weekday anywhere in it is read as that weekday, or as another one
  -- whose name it has; no other reading is tried.
  pub parse_weekday_or_relative-contains :
      (lower name : Text) (day : ℕ)
      → Permᴰ weekday_map (order weekday_map)
      → Memᴰ (name, day) weekday_map
      → contains lower name ≡ true
      → (target : ℕ) × target < 7
        × (parse_weekday_or_relative api now order lower ≡ some (weekday_time api now lower target))
  unfolding parse_weekday_or_relative
  parse_weekday_or_relative-contains lower name day perm mem found =
      elim (Option-cases (find_weekday lower (order weekday_map))) [
        | inl e ↦ absurd (
            apart (
              All-member (IsAbsent lower) weekday_map mem (
                All-perm (IsAbsent lower) (Permᴰ.symm perm)
                  (find_weekday-none lower (order weekday_map) e))))
        | inr (target, e) ↦ (
          target,
          find_weekday-is_day lower (order weekday_map) target e
              (All-perm (λ x. is_day x ≡ true) perm weekday_map-All-is_day),
          rw (parse_weekday_or_relative, e) refl,
        )
      ]
    where
      apart : contains lower name ≡ false → ⊥
      apart h = cc
