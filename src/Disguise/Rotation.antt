-- ===== src/Disguise/Rotation.antt =====
-- The agents and the headers of a profile of internal/disguise/profile.go over requests.
use syndi.Common.{
  ℕ, zero, suc, ◌+◌, ◌%◌, ◌^◌, ◌<◌, false, List, [], ◌∷◌, Option, none, some, Text, codes, is_empty,
  text_eq, text_eq_refl, Bool-cases, inl, inr, length, if◌then◌else◌, ◌≡◌, refl, ap, ◌∙◌, arith,
}
use syndi.Common.Maps
use syndi.Disguise.{
  round_robin, Profile, agent, pick_user_agent, headers, referred, set_unless_empty, static_headers,
  accept, default_referer,
}

-- A profile of two agents or more that rotates round robin, at a value of its counter.
abbrev pub rotating : Profile → Text → Text → List Text → ℕ → Profile
rotating p first second rest c = record p {
  user_agents = first ∷ second ∷ rest;
  rotate = round_robin;
  counter = c;
}

module _ (host_of : Text → Text) (fnv32a : Text → ℕ) (same_site : Text → Option Text)
    (target_url : Text) (drawn : ℕ) where
  -- The profile after a number of requests.
  unfoldable pub after_requests : ℕ → Profile → Profile
  after_requests zero p = p
  after_requests (suc n) p =
      (pick_user_agent host_of fnv32a same_site target_url drawn (after_requests n p)).1

  module _ (p : Profile) (first second : Text) (rest : List Text) where
    after_requests-rotating :
        (n c : ℕ)
        → c + n < 2 ^ 63
        → after_requests n (rotating p first second rest c) ≡ rotating p first second rest (c + n)
    unfolding after_requests pick_user_agent
    after_requests-rotating zero c h = ap (rotating p first second rest) (omega arith)
    after_requests-rotating (suc n) c h =
        ap (λ q. (pick_user_agent host_of fnv32a same_site target_url drawn q).1)
          (after_requests-rotating n c (omega (arith, h)))
        ∙ ap (rotating p first second rest) (omega (arith, h))

    -- A profile of two agents or more that rotates round robin gives the request after `n` others
    -- the agent whose index is its counter and `n`, modulo the number of its agents.
    pub pick_user_agent-round_robin :
        (n c : ℕ)
        → c + n < 2 ^ 63
        → (pick_user_agent host_of fnv32a same_site target_url drawn
            (after_requests n (rotating p first second rest c))).0
          ≡ agent (first ∷ second ∷ rest) ((c + n) % length (first ∷ second ∷ rest))
    unfolding pick_user_agent
    pick_user_agent-round_robin n c h = rw (after_requests-rotating n c h) refl

lookup-set_unless_empty :
    (k j v : Text) (out : List (Text × Text))
    → text_eq j k ≡ false
    → Maps.lookup k (set_unless_empty j v out) ≡ Maps.lookup k out
lookup-set_unless_empty k j [] out h = refl
lookup-set_unless_empty k j (c ∷ v) out h = rw (Maps.lookup-insert j k (c ∷ v) out, h) refl

lookup-set_unless_empty_same :
    (k v : Text) (out : List (Text × Text))
    → Maps.lookup k (set_unless_empty k v out) ≡ (if is_empty v then Maps.lookup k out else some v)
lookup-set_unless_empty_same k [] out = refl
lookup-set_unless_empty_same k (c ∷ v) out =
    rw (Maps.lookup-insert k k (c ∷ v) out, text_eq_refl k) refl

lookup-static_headers :
    (k : Text) (p : Profile)
    → text_eq accept k ≡ false
    → Maps.lookup k (static_headers p) ≡ Maps.lookup k p.headers
lookup-static_headers k p h = elim (Bool-cases p.accept_set) [
  | inl e ↦ rw e refl
  | inr e ↦ rw (e, Maps.lookup-insert accept k (codes "*/*") p.headers, h) refl
]

module _ (host_of : Text → Text) (fnv32a : Text → ℕ) (same_site : Text → Option Text) where
  lookup-default_referer :
      (k : Text) (o base : Option Text) (out : List (Text × Text))
      → text_eq (codes "Referer") k ≡ false
      → Maps.lookup k (default_referer o base out) ≡ Maps.lookup k out
  lookup-default_referer k (some []) (some b) out h =
      rw (Maps.lookup-insert (codes "Referer") k b out, h) refl
  lookup-default_referer k (some (c ∷ v)) (some b) out h = refl
  lookup-default_referer k none (some b) out h =
      rw (Maps.lookup-insert (codes "Referer") k b out, h) refl
  lookup-default_referer k none none out h = refl
  lookup-default_referer k (some []) none out h = refl
  lookup-default_referer k (some (c ∷ v)) none out h = refl

  lookup-referred :
      (k target_url : Text) (p : Profile) (out : List (Text × Text))
      → text_eq (codes "Referer") k ≡ false
      → Maps.lookup k (referred host_of fnv32a same_site target_url p out) ≡ Maps.lookup k out
  unfolding referred
  lookup-referred k target_url p out h = elim (Bool-cases (is_empty p.referer)) [
    | inl e ↦
        rw e (
          lookup-default_referer k (Maps.lookup (codes "Referer") out) (same_site target_url) out h)
    | inr e ↦ rw (e, Maps.lookup-insert (codes "Referer") k p.referer out, h) refl
  ]

  -- A cookie of the profile, and the agent that is picked for a request, are the headers of the
  -- request, whatever WithHeader has set for their keys; where they are empty, what it has set is.
  pub headers-override :
      (target_url : Text) (drawn : ℕ) (p : Profile)
      → let sent = (headers host_of fnv32a same_site target_url drawn p).0 in
        let picked = (pick_user_agent host_of fnv32a same_site target_url drawn p).0 in
        (Maps.lookup (codes "Cookie") sent
          ≡ (if is_empty p.cookie then Maps.lookup (codes "Cookie") p.headers else some p.cookie))
        × (Maps.lookup (codes "User-Agent") sent
            ≡ (if is_empty picked then Maps.lookup (codes "User-Agent") p.headers else some picked))
  unfolding headers text_eq
  headers-override target_url drawn p =
      let picked = (pick_user_agent host_of fnv32a same_site target_url drawn p).0 in
      (
        lookup-set_unless_empty_same (codes "Cookie") p.cookie _
            ∙ ap (λ o. if is_empty p.cookie then o else some p.cookie)
                (lookup-set_unless_empty (codes "Cookie") (codes "Accept-Language") p.language _
                    refl
                  ∙ lookup-referred (codes "Cookie") target_url p _ refl
                  ∙ lookup-set_unless_empty (codes "Cookie") (codes "User-Agent") picked _ refl
                  ∙ lookup-static_headers (codes "Cookie") p refl),
        lookup-set_unless_empty (codes "User-Agent") (codes "Cookie") p.cookie _ refl
            ∙ lookup-set_unless_empty (codes "User-Agent") (codes "Accept-Language") p.language _
                refl
            ∙ lookup-referred (codes "User-Agent") target_url p _ refl
            ∙ lookup-set_unless_empty_same (codes "User-Agent") picked _
            ∙ ap (λ o. if is_empty picked then o else some picked)
                (lookup-static_headers (codes "User-Agent") p refl),
      )
