-- ===== src/Http/Resolver/Examples.antt =====
-- A folder with one page, and a request that spells its name with an escape.
use workpane.Prelude.{◌≡◌, refl, true, false, ◌++◌, some, ◌↔◌, ◌||◌, [], ◌∷◌, drop, if◌then◌else◌}
use workpane.Prelude.Bytes.{Bytes, codes, same, starts_with}
use workpane.Result.{success, failure}
use workpane.Text.Utf8.{valid, valid_loop, sequence_length, follows, all_follow}
use workpane.Http.MimeTypes.{for_extension}
use workpane.Http.Resolver.{
  Files, ResolvedFile, decode, inside, page, leaves, resolve, missing, invalid,
}
use workpane.Http.Resolver.Decoding.{Spells, decode_iff-Spells}
use workpane.Http.Resolver.Served.{IsServed, resolve_iff-IsServed}

abbrev site : Files Bytes
site = record {
  is_plain = λ p. true;
  is_absolute = λ p. starts_with (codes "/") p;
  normal = λ p. p;
  named = λ p. p;
  has_root_name = λ p. false;
  components = λ p. if starts_with (codes "../") p then codes ".." ∷ drop 3 p ∷ [] else p ∷ [];
  join = λ p q. p ++ codes "/" ++ q;
  is_directory = λ p. same p (codes "/www");
  is_regular_file = λ p. same p (codes "/www/a b.html") || same p (codes "/etc/passwd");
  canonical = λ p. if same p (codes "/www/link") then some (codes "/etc/passwd") else some p;
  file_size = λ p. some 5;
  can_list = λ p. true;
  can_read = λ p. true;
  generic = λ p. p;
  extension = λ p. codes ".html";
}

abbrev request : Bytes
request = codes "/a%20b.html?x"

abbrev file : ResolvedFile Bytes
file = record { path = codes "/www/a b.html"; size = 5; mime_type = "text/html" }

request_resolved : resolve site (codes "/www") request ≡ success file
unfolding resolve leaves decode page inside valid valid_loop sequence_length follows all_follow
    for_extension
request_resolved = refl

-- A link that leads out of the root is not followed.
link_refused : resolve site (codes "/www") (codes "/link") ≡ failure (missing (codes "/link"))
unfolding resolve leaves decode page inside valid valid_loop sequence_length follows all_follow
link_refused = refl

-- Nor is a path that climbs out of it.
climb_refused :
    resolve site (codes "/www") (codes "/%2e./passwd") ≡ failure (invalid (codes "/%2e./passwd"))
unfolding resolve leaves decode valid valid_loop sequence_length follows all_follow
climb_refused = refl

resolve_iff-IsServed_example :
    (resolve site (codes "/www") request ≡ success file) ↔ IsServed site (codes "/www") request file
resolve_iff-IsServed_example = resolve_iff-IsServed site (codes "/www") request file

decode_iff-Spells_example :
    (decode (codes "/a%20b.html") ≡ some (codes "/a b.html"))
    ↔ Spells (codes "/a%20b.html") (codes "/a b.html")
decode_iff-Spells_example = decode_iff-Spells (codes "/a%20b.html") (codes "/a b.html")
