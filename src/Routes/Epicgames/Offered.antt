-- ===== src/Routes/Epicgames/Offered.antt =====
-- Which games routes/epicgames/free.go lists, and when it calls them free.
use mathlib.Core.List.{append_assoc, append-nil}
use syndi.Common.{
  Bool, true, false, not, List, [], ◌∷◌, ◌++◌, Option, none, some, codes, text_eq, keep_if,
  keep_if-append, map, Bool-cases, inl, inr, if◌then◌else◌, ok, ◌≡◌, refl, sym, ◌∙◌,
}
use syndi.Models.{Feed, Item, Time, after}
use syndi.Routeutils.Items.{with_item, apply_item_defaults}
use syndi.Routes.Epicgames.{
  EpicElement, EpicPrice, Promotions, OfferWindow, Windows, collect_group, collect, windows_of,
  epic_free_windows, is_unoffered, epic_item, element_loop, epic_games_free_handler,
}

unfoldable all_of : List (List OfferWindow) → List OfferWindow
all_of [] = []
all_of (group ∷ groups) = group ++ all_of groups

-- The offers of a game whose price is 0, both lists of groups in order.
abbrev pub offers_of : Option Promotions → Option EpicPrice → List OfferWindow
unfolding all_of
offers_of none price = []
offers_of (some promotions) none = []
offers_of (some promotions) (some price) =
    if text_eq price.discount_price (codes "0")
    then all_of promotions.promotional_offers ++ all_of promotions.upcoming_promotional_offers
    else []

abbrev pub has_started : Time → OfferWindow → Bool
has_started now w = not (after w.start now)

abbrev pub future : Time → OfferWindow → Bool
future now w = after w.start now

abbrev split : Time → List OfferWindow → Windows → Windows
split now offers (active, upcoming) =
    (active ++ keep_if (has_started now) offers, upcoming ++ keep_if (future now) offers)

split-append :
    (now : Time) (front back : List OfferWindow) (ws : Windows)
    → split now back (split now front ws) ≡ split now (front ++ back) ws
split-append now front back (active, upcoming) =
    rw
      (
        append_assoc active (keep_if (has_started now) front) (keep_if (has_started now) back),
        append_assoc upcoming (keep_if (future now) front) (keep_if (future now) back),
        keep_if-append (has_started now) front back,
        keep_if-append (future now) front back,
      )
      refl

collect_group-split :
    (now : Time) (group : List OfferWindow) (ws : Windows)
    → collect_group true now group ws ≡ split now group ws
unfolding collect_group
collect_group-split now [] (active, upcoming) = rw (append-nil active, append-nil upcoming) refl
collect_group-split now (w ∷ group) (active, upcoming) = elim (Bool-cases (after w.start now)) [
  | inl e ↦
      rw
        (
          e,
          collect_group-split now group (active, upcoming ++ w ∷ []),
          append_assoc upcoming (w ∷ []) (keep_if (future now) group),
        )
        refl
  | inr e ↦
      rw
        (
          e,
          collect_group-split now group (active ++ w ∷ [], upcoming),
          append_assoc active (w ∷ []) (keep_if (has_started now) group),
        )
        refl
]

collect-split :
    (now : Time) (groups : List (List OfferWindow)) (ws : Windows)
    → collect true now groups ws ≡ split now (all_of groups) ws
unfolding collect all_of
collect-split now [] (active, upcoming) = rw (append-nil active, append-nil upcoming) refl
collect-split now (group ∷ groups) ws =
    rw (collect_group-split now group ws)
      (collect-split now groups (split now group ws) ∙ split-append now group (all_of groups) ws)

collect_group-unfree :
    (now : Time) (group : List OfferWindow) (ws : Windows) → collect_group false now group ws ≡ ws
unfolding collect_group
collect_group-unfree now [] ws = refl
collect_group-unfree now (w ∷ group) (active, upcoming) =
    collect_group-unfree now group (active, upcoming)

collect-unfree :
    (now : Time) (groups : List (List OfferWindow)) (ws : Windows)
    → collect false now groups ws ≡ ws
unfolding collect
collect-unfree now [] ws = refl
collect-unfree now (group ∷ groups) ws =
    rw (collect_group-unfree now group ws) (collect-unfree now groups ws)

windows_of-split :
    (now : Time) (promotions : Option Promotions) (price : Option EpicPrice)
    → windows_of promotions price now ≡ split now (offers_of promotions price) ([], [])
unfolding offers_of
windows_of-split now none price = refl
windows_of-split now (some promotions) none = refl
windows_of-split now (some promotions) (some price) =
    let groups = promotions.promotional_offers in
    let coming = promotions.upcoming_promotional_offers in
    elim (Bool-cases (text_eq price.discount_price (codes "0"))) [
      | inl e ↦
          rw
            (
              e,
              collect-split now groups ([], []),
              collect-split now coming (split now (all_of groups) ([], [])),
            )
            (split-append now (all_of groups) (all_of coming) ([], []))
      | inr e ↦ rw (e, collect-unfree now groups ([], []), collect-unfree now coming ([], [])) refl
    ]

abbrev has_any : List OfferWindow → Bool
has_any [] = false
has_any (w ∷ ws) = true

abbrev pub is_offered : EpicElement → Bool
is_offered el = has_any (offers_of el.promotions el.price)

upcoming-offered :
    (w : OfferWindow) (active upcoming : List OfferWindow)
    → is_unoffered (active, w ∷ upcoming) ≡ false
upcoming-offered w [] upcoming = refl
upcoming-offered w (v ∷ active) upcoming = refl

is_unoffered-split :
    (now : Time) (offers : List OfferWindow)
    → is_unoffered (split now offers ([], [])) ≡ not (has_any offers)
is_unoffered-split now [] = refl
is_unoffered-split now (w ∷ ws) = elim (Bool-cases (after w.start now)) [
  | inl e ↦ rw e (upcoming-offered w (keep_if (has_started now) ws) (keep_if (future now) ws))
  | inr e ↦ rw e refl
]

abbrev pub listed : Time → List EpicElement → List Item
listed now elements =
    map (λ el. apply_item_defaults (epic_item now el)) (keep_if is_offered elements)

element_loop-listed :
    (now : Time) (elements : List EpicElement) (feed : Feed)
    → (element_loop now elements feed).items ≡ feed.items ++ listed now elements
unfolding element_loop epic_free_windows
element_loop-listed now [] feed = sym (append-nil feed.items)
element_loop-listed now (el ∷ elements) feed =
    let unoffered : is_unoffered (epic_free_windows el now) ≡ not (is_offered el) =
      rw (windows_of-split now el.promotions el.price)
        (is_unoffered-split now (offers_of el.promotions el.price)) in
    elim (Bool-cases (is_offered el)) [
      | inl e ↦
          rw (unoffered, e)
            (element_loop-listed now elements (with_item feed (epic_item now el))
              ∙ append_assoc feed.items (apply_item_defaults (epic_item now el) ∷ [])
                  (listed now elements))
      | inr e ↦ rw (unoffered, e) (element_loop-listed now elements feed)
    ]

-- The feed has an item for each game with a price of 0 and an offer, in order, and no other. Its windows are
-- all of its offers, ended ones included: active if they have started, else upcoming.
pub epic_games_free_handler-listed :
    (now : Time) (elements : List EpicElement)
    → ((feed : Feed) × (epic_games_free_handler now (ok elements) ≡ ok feed)
        × (feed.items ≡ listed now elements))
      × ((el : EpicElement)
          → epic_free_windows el now ≡ (
            keep_if (has_started now) (offers_of el.promotions el.price),
            keep_if (future now) (offers_of el.promotions el.price),
          ))
unfolding epic_games_free_handler epic_free_windows
epic_games_free_handler-listed now elements = (
  (_, refl, element_loop-listed now elements _),
  λ el. windows_of-split now el.promotions el.price,
)
