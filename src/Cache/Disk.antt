-- ===== src/Cache/Disk.antt =====
-- The documented behaviour of Badger and of package gob on which pkg/cache/badger.go stands. A read
-- of a key gives its bytes while they have not expired; writes and deletions are best effort, since
-- the source discards their errors, and touch no other key.
use syndi.Common.{
  ◌≡◌, sym, ◌⊎◌, inl, inr, Bool, true, false, List, [], ◌∷◌, Option, none, some, Text, text_eq,
  ◌+ℤ◌, ◌≤ℤ◌, arith, if◌then◌else◌, Bool-cases,
}
use syndi.Models.{Time, after}
use syndi.Cache.Lru.{find_key, drop_key, find_key-drop_key}

-- What a read transaction finds under a key: nothing, a version that expired during the read, or
-- bytes.
pub data Lookup (B : Type 0) : Type 0 where
  missing : Lookup B
  expired : Lookup B
  found : B → Lookup B

pub record Disk (V : Type 0) : Type 1 where
  pub State : Type 0
  pub Bytes : Type 0
  pub encode : V → Time → Option Bytes
  pub decode : Bytes → Option (V × Time)
  pub is_nil : V → Bool
  pub read : Time → Text → State → Lookup Bytes
  pub set_entry : Time → Text → Bytes → Time → State → State
  pub delete : Text → State → State
  pub expired_keys : Time → State → List Text
  pub decode-encode : (v : V) (e : Time) (b : Bytes) → encode v e ≡ some b → decode b ≡ some (v, e)
  pub read-set_entry :
      (now later : Time) (key j : Text) (b c : Bytes) (ttl : Time) (s : State)
      → read later j (set_entry now key b ttl s) ≡ found c
      → (read later j s ≡ found c) ⊎ ((text_eq key j ≡ true) × (c ≡ b) × (later ≤ℤ now +ℤ ttl))
  pub read-delete :
      (later : Time) (key j : Text) (c : Bytes) (s : State)
      → read later j (delete key s) ≡ found c
      → read later j s ≡ found c

-- A database that loses nothing: an association list of the values with their deadlines.
module _ {V : Type 0} where
  abbrev pub unless_late : Time → Option ((V × Time) × Time) → Lookup (V × Time)
  unless_late now none = missing
  unless_late now (some (b, exp)) = if after now exp then missing else found b

  abbrev pub late_keys : Time → List (Text × ((V × Time) × Time)) → List Text
  late_keys now [] = []
  late_keys now ((k, (b, exp)) ∷ m) =
      let rest = late_keys now m in if after now exp then k ∷ rest else rest

  unless_late-some :
      (later exp : Time) (b c : V × Time)
      → unless_late later (some (b, exp)) ≡ found c
      → (c ≡ b) × (later ≤ℤ exp)
  unless_late-some later exp b c h = ground arith

  pub read-list_set :
      (later exp : Time) (key j : Text) (b c : V × Time) (s : List (Text × ((V × Time) × Time)))
      → unless_late later (find_key j ((key, (b, exp)) ∷ drop_key key s)) ≡ found c
      → (unless_late later (find_key j s) ≡ found c)
        ⊎ ((text_eq key j ≡ true) × (c ≡ b) × (later ≤ℤ exp))
  read-list_set later exp key j b c s h = elim (Bool-cases (text_eq key j)) [
    | inl same ↦
        let e = unless_late-some later exp b c (ground (arith, h, same)) in inr (same, e.0, e.1)
    | inr other ↦ inl (ground (arith, h, find_key-drop_key j key s))
  ]

  pub read-list_delete :
      (later : Time) (key j : Text) (c : V × Time) (s : List (Text × ((V × Time) × Time)))
      → unless_late later (find_key j (drop_key key s)) ≡ found c
      → unless_late later (find_key j s) ≡ found c
  read-list_delete later key j c s h = ground (arith, h, find_key-drop_key j key s)

abbrev pub list_disk : (V : Type 0) → Disk V
list_disk V = record {
  State = List (Text × ((V × Time) × Time));
  Bytes = V × Time;
  encode = λ v e. some (v, e);
  decode = λ b. some b;
  is_nil = λ v. false;
  read = λ now k s. unless_late now (find_key k s);
  set_entry = λ now k b ttl s. (k, (b, now +ℤ ttl)) ∷ drop_key k s;
  delete = drop_key;
  expired_keys = late_keys;
  decode-encode = λ v e b h. sym h;
  read-set_entry = λ now later key j b c ttl s. read-list_set later (now +ℤ ttl) key j b c s;
  read-delete = read-list_delete;
}
