-- ===== src/Disguise.antt =====
-- internal/disguise/profile.go: the headers of disguised requests. The host of a URL, the FNV-1a hash
-- of package hash and the random numbers are parameters; the profile of a method is its result.
pub mod Rotation
use syndi.Common.{
  ℕ, zero, suc, ◌+◌, ◌-◌, ◌%◌, ◌^◌, Bool, true, false, not, ◌&&◌, List, [], ◌∷◌, ◌++◌, Option, none,
  some, Text, codes, is_empty, text_eq, length, get_elem?, ℤ, pos, ltb_ℤ, if◌then◌else◌,
}
use syndi.Common.Maps

pub data RotateStrategy : Type 0 where
  round_robin : RotateStrategy
  random : RotateStrategy
  sticky_per_host : RotateStrategy

pub record Profile : Type 0 where
  pub name : Text
  pub user_agents : List Text
  pub rotate : RotateStrategy
  pub headers : List (Text × Text)
  pub cookie : Text
  pub referer : Text
  pub language : Text
  pub delay_min : ℤ
  pub delay_max : ℤ
  pub accept_set : Bool
  pub counter : ℕ

abbrev pub new_profile : Text → Profile
new_profile name = record {
  name = name;
  user_agents = [];
  rotate = sticky_per_host;
  headers = [];
  cookie = [];
  referer = [];
  language = [];
  delay_min = pos 0;
  delay_max = pos 0;
  accept_set = false;
  counter = 0;
}

abbrev pub custom : List Text → Profile
custom user_agents = record (new_profile (codes "custom")) { user_agents = user_agents }

abbrev pub with_rotate : RotateStrategy → Profile → Profile
with_rotate strategy p = record p { rotate = strategy }

abbrev pub accept : Text
accept = codes "Accept"

unfoldable pub with_header : Text → Text → Profile → Profile
with_header key value p =
    if is_empty value
    then record p {
      headers = Maps.delete key p.headers;
      accept_set = if text_eq key accept then false else p.accept_set;
    }
    else record p {
      headers = Maps.insert key value p.headers;
      accept_set = if text_eq key accept then true else p.accept_set;
    }

unfoldable pub json_accept : Profile → Profile
unfolding with_header
json_accept p =
    let p = with_header accept (codes "application/json, text/plain, */*") p in
    let p = with_header (codes "Sec-Fetch-Dest") (codes "empty") p in
    with_header (codes "Sec-Fetch-Mode") (codes "cors") p

abbrev pub with_referer : Text → Profile → Profile
with_referer referer p = record p { referer = referer }

abbrev pub with_language : Text → Profile → Profile
with_language language p = record p { language = language }

abbrev pub with_cookie : Text → Profile → Profile
with_cookie raw_cookie p = record p { cookie = raw_cookie }

unfoldable pub with_delay : ℤ → ℤ → Profile → Profile
with_delay min max p =
    let min = if ltb_ℤ min (pos 0) then pos 0 else min in
    let max = if ltb_ℤ max min then min else max in record p { delay_min = min; delay_max = max }

abbrev pub agent_at : Option Text → Text
agent_at none = []
agent_at (some agent) = agent

-- The agent of an index. In `int(n) % len` the counter is below 2^63, where an int is not negative.
abbrev pub agent : List Text → ℕ → Text
agent agents n = agent_at (get_elem? agents n)

abbrev pub set_unless_empty : Text → Text → List (Text × Text) → List (Text × Text)
set_unless_empty key value out = if is_empty value then out else Maps.insert key value out

-- The referer of the same site, where the URL has a scheme and a host, if none is set.
abbrev pub default_referer : Option Text → Option Text → List (Text × Text) → List (Text × Text)
default_referer (some []) (some base) out = Maps.insert (codes "Referer") base out
default_referer (some (c ∷ v)) base out = out
default_referer none (some base) out = Maps.insert (codes "Referer") base out
default_referer _ none out = out

-- The copy of the static headers, with the default of Accept.
abbrev pub static_headers : Profile → List (Text × Text)
static_headers p =
    if not p.accept_set then Maps.insert accept (codes "*/*") p.headers else p.headers

module _ (host_of : Text → Text) (fnv32a : Text → ℕ) (same_site : Text → Option Text) where
  unfoldable pub sticky_index : Text → ℕ → ℕ
  sticky_index target_url zero = 0
  sticky_index target_url (suc n) = fnv32a (host_of target_url) % suc n

  -- The agent, and the profile with its counter; `drawn` is the random index. An atomic uint64 goes
  -- around at 2^64.
  unfoldable pub pick_user_agent : Text → ℕ → Profile → Text × Profile
  pick_user_agent target_url drawn p = elim p.user_agents [
    | [] ↦ ([], p)
    | first ∷ others ↦ elim others [
      | [] ↦ (first, p)
      | second ∷ rest ↦ elim p.rotate [
        | random ↦ (agent p.user_agents drawn, p)
        | sticky_per_host ↦
            (agent p.user_agents (sticky_index target_url (length p.user_agents)), p)
        | round_robin ↦ (
          agent p.user_agents (p.counter % suc (suc (length rest))),
          record p { counter = (p.counter + 1) % 2 ^ 64 },
        )
      ]
    ]
  ]

  unfoldable pub referred : Text → Profile → List (Text × Text) → List (Text × Text)
  referred target_url p out =
      if not (is_empty p.referer)
      then Maps.insert (codes "Referer") p.referer out
      else default_referer (Maps.lookup (codes "Referer") out) (same_site target_url) out

  unfoldable pub headers : Text → ℕ → Profile → List (Text × Text) × Profile
  headers target_url drawn p =
      let out = static_headers p in
      let picked = pick_user_agent target_url drawn p in
      let out = set_unless_empty (codes "User-Agent") picked.0 out in
      let out = referred target_url p out in
      let out = set_unless_empty (codes "Accept-Language") p.language out in
      (set_unless_empty (codes "Cookie") p.cookie out, picked.1)
