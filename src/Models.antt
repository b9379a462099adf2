-- ===== src/Models.antt =====
-- pkg/models/feed.go: feeds and their items. A time.Time is the number of nanoseconds since Go's
-- zero time (January 1 of year 1), so that IsZero is equality with 0; a time.Duration is an int64.
use syndi.Common.{Bool, false, List, Option, Text, ℤ, pos, negsuc, ltb_ℤ, ◌==◌}

abbrev pub Time : Type 0
Time = ℤ

abbrev pub is_zero : Time → Bool
is_zero (pos n) = n == 0
is_zero (negsuc n) = false

-- `t.After(u)`.
abbrev pub after : Time → Time → Bool
after t u = ltb_ℤ u t

pub record Author : Type 0 where
  pub name : Text
  pub email : Text
  pub uri : Text

pub record Item : Type 0 where
  pub title : Text
  pub description : Text
  pub link : Text
  pub pub_date : Time
  pub guid : Text
  pub author : Option Author
  pub updated : Option Time
  pub categories : List Text

pub record Feed : Type 0 where
  pub title : Text
  pub description : Text
  pub link : Text
  pub items : List Item
  pub author : Option Author
  pub updated : Option Time

pub record Category : Type 0 where
  pub name : Text
  pub description : Text

pub record Features : Type 0 where
  pub require_config : Bool
  pub require_password : Bool
  pub anti_crawler : Bool
  pub support_radar : Bool
  pub nsfw : Bool
  pub env_deps : List Text

pub record Parameter : Type 0 where
  pub name : Text
  pub required : Bool
  pub default : Text
  pub description : Text
  pub values : List Text
  pub multivalued : Bool

pub record RadarItem : Type 0 where
  pub title : Text
  pub source : List Text
  pub target : Text
  pub weight : ℤ
  pub method : Text
  pub body : Text
  pub link : Text
  pub description : Text

-- A route, over the type of its handlers.
pub record Route (H : Type 0) : Type 0 where
  pub path : Text
  pub name : Text
  pub url : Text
  pub handler : H
  pub example : Text
  pub maintainers : List Text
  pub description : Text
  pub categories : List Category
  pub features : Features
  pub parameters : List Parameter
  pub radar : List RadarItem
  pub cache_ttl : Option Time
