-- ===== src/Tests/Reading.antt =====
-- A feed that internal/parser/rssfeed/rssfeed.go reads, and lists of authors (internal/routeutils/author.go).
use syndi.Common.{◌≡◌, refl, true, List, [], ◌∷◌, Text, codes, text_eq, pos, ok, All}
use syndi.Golang.Strings.{index, trim_space, join, has_prefix, split_from, last_index}
use syndi.Models.{Feed}
use syndi.Reader.{
  RawItem, RawChannel, RawDoc, build_feed, parse, clean_html, clean_loop, strip_email,
}
use syndi.Reader.Items.{IsUsable, parse-IsUsable}
use syndi.Routeutils.Authors.{keep_names, merge_authors, parse_author_string}
use syndi.Routeutils.Authors.Lists.{are_free_of, parse_author_string-merge_authors}
use syndi.Extract.{absolute_url}
use syndi.Extract.Absolute.{is_absolute, absolute_url-absolute}
use syndi.Tests.Dating.{days, unordered}

abbrev raw_item : RawItem
raw_item = record {
  title = codes " A  post ";
  link = record { href = codes "/a"; rel = []; text = [] } ∷ [];
  guid = record { is_perma_link = []; value = [] };
  description = codes "<b>x  y</b>";
  summary = [];
  content_encoded = [];
  content = [];
  pub_date = codes "1700000000";
  dc_date = [];
  published = [];
  updated = [];
  author = record { name = []; email = []; raw = codes "Ann <ann@host>" };
  dc_creator = [];
  category = [];
  enclosure = [];
}

abbrev channel : RawChannel
channel = record {
  title = codes "posts";
  link = [];
  description = [];
  subtitle = [];
  items = raw_item ∷ [];
  entries = [];
}

abbrev doc : RawDoc
doc = record { local = codes "rss"; root = record channel { items = [] }; channel = channel }

clean_html_test : clean_html (codes " <b  c>x \n y</b> ") ≡ codes "<b  c>x y</b>"
unfolding clean_html clean_loop trim_space
clean_html_test = refl

strip_email_test : strip_email (codes "Ann <ann@host>") ≡ codes "Ann"
unfolding strip_email index trim_space
strip_email_test = refl

abbrev read : Feed
read = build_feed days (λ t. t) (pos 0) unordered channel (raw_item ∷ [])

was_read : parse days (λ t. t) (pos 0) unordered (λ s. ok doc) (codes "<rss/>") ≡ ok read
unfolding parse trim_space text_eq
was_read = refl

parse-IsUsable_example : All IsUsable read.items
parse-IsUsable_example =
    parse-IsUsable days (λ t. t) (pos 0) unordered (λ s. ok doc) (codes "<rss/>") read was_read

abbrev names : List Text
names = codes " Ann" ∷ codes "" ∷ codes "Bob Roe" ∷ []

merge_test : merge_authors names (codes ",") ≡ codes "Ann,Bob Roe"
unfolding merge_authors keep_names trim_space join
merge_test = refl

names_have_no_comma : are_free_of b',' (keep_names names) ≡ true
unfolding are_free_of keep_names trim_space
names_have_no_comma = refl

parse_author_string-merge_authors_example :
    parse_author_string (merge_authors names (codes ",")) (codes ",") ≡ keep_names names
parse_author_string-merge_authors_example =
    parse_author_string-merge_authors b',' names names_have_no_comma

link_tests :
    (absolute_url (codes "https://host/a/b") (codes "/c") ≡ codes "https://host/c")
    × (absolute_url (codes "https://host/a/b") (codes "c") ≡ codes "https://host/a/c")
    × (absolute_url (codes "http://host/a") (codes "//cdn/x") ≡ codes "http://cdn/x")
unfolding absolute_url has_prefix split_from last_index
link_tests = (refl, refl, refl)

absolute_url-absolute_example :
    is_absolute (absolute_url (codes "https://host/a/b") (codes "c")) ≡ true
absolute_url-absolute_example = absolute_url-absolute true (codes "host/a/b") (codes "c") refl
