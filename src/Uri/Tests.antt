-- ===== src/Uri/Tests.antt =====
-- Runs of the URI functions on small inputs, and the theorems at them.
use hemp.Base.{
  ◌+◌, ◌≡◌, refl, true, false, none, some, [], ◌∷◌, ◌++◌, length, is_some, if◌then◌else◌,
}
use hemp.ListType.Items
use hemp.Chars.{
  Str, codes, span, after, after_all, str_eq, last_slash, is_alpha, is_digit, is_alnum,
}
use hemp.Uri.Split.{Uri, wiped, scheme_char, split}
use hemp.Uri.Join.{text, text_room, packed}
use hemp.Uri.Parts.{params, split_path, split_query, string_at}
use hemp.Uri.Paths.{
  path_join, base_part, base_length, adds_slash, needs_slash, directory, join_loop, join_step,
  copy_part, copied_part, dot_case, part_end, go_up, rewind, join_room, collapse, collapse_loop,
  collapse_step, copy_segment, up, starts,
}
use hemp.Uri.JoinLaws.{IsName, path_join-overflows}
use hemp.Uri.Relative.{relative_uri, Resolves, relative-Resolves}
use hemp.Uri.Whole.{bad_query, split_uri}
use hemp.Uri.Joined.{relative_text, relative_text_total}

program : Unit {0}
unfolding Items.grow Items.put Items.poke Items.resized Items.doubled span after after_all str_eq
    last_slash is_alpha is_digit is_alnum scheme_char split text text_room packed split_path
    split_query string_at path_join base_part base_length adds_slash needs_slash directory join_loop
    join_step copy_part copied_part dot_case part_end go_up rewind join_room collapse collapse_loop
    collapse_step copy_segment up starts relative_uri
program =
    let t0 : path_join (codes "/foo/bar") (codes "./baz") false
        ≡ some (codes "/foo/baz" ++ 0 ∷ []) =
      refl in
    let t1 : path_join (codes "/foo/bar/") (codes "../baz") true
        ≡ some (codes "/foo/baz" ++ 0 ∷ []) =
      refl in
    let t2 : collapse (codes "/a/./b/../c") ≡ some (codes "/a/c") = refl in tt

abbrev full : Str
full = codes "hemp://abw@badgerpower.com:420/over/there?animal=badger#nose"

abbrev full_uri : Uri
full_uri = record {
  scheme = some (codes "hemp");
  authority = some (codes "abw@badgerpower.com:420/over/there?animal=badger#nose");
  user = some (codes "abw");
  host = some (codes "badgerpower.com");
  port = some (codes "420");
  path = some (codes "/over/there");
  query = some (codes "animal=badger");
  fragment = some (codes "nose");
}

split-full : split full ≡ (full_uri, [])
unfolding program
split-full = refl

-- A fragment behind an empty query is lost.
split-lost : (split (codes "a?#b")).1 ≡ codes "?#b"
unfolding program
split-lost = refl

relative-full :
    relative_uri full_uri (split (codes "./here?cheese=cheddar#pickle")).0
    ≡ some (record full_uri {
      path = some (codes "/over/here");
      query = some (codes "cheese=cheddar");
      fragment = some (codes "pickle");
    })
unfolding program
relative-full = refl

join_up :
    path_join (codes "/foo/bar/baz") (codes "../../wam/bam") false
    ≡ some (codes "/wam/bam" ++ 0 ∷ [])
unfolding program
join_up = refl

two_params :
    split_query 8 (codes "a=1&b=2") []
    ≡ params ((codes "a", 2) ∷ (codes "&b", 6) ∷ []) (codes "a" ++ 0 ∷ codes "1&b" ++ 0 ∷ codes "2")
unfolding program
two_params = refl

abbrev plain_uri : Uri
plain_uri = record wiped { path = some (codes "/foo") }

baz-IsName : IsName b'b' (codes "az")
baz-IsName = record { undotted = refl; one_part = (refl, (refl, (refl, tt))) }

path_join-overflows_example :
    (end : Str) × (path_join (codes "foo") (codes "baz") true ≡ some end)
    × (length end + 1 ≡ join_room (codes "foo") (codes "baz") true + 1)
path_join-overflows_example =
    path_join-overflows b'f' (codes "oo") b'b' (codes "az") (unfold needs_slash in refl) baz-IsName

abbrev relative_path : Uri
relative_path = record wiped { path = some (codes "b") }

relative-made :
    relative_uri full_uri relative_path
    ≡ some (record full_uri { path = some (codes "/over/b"); query = none; fragment = none })
unfolding program
relative-made = refl

relative-Resolves_example :
    Resolves full_uri relative_path
      (record full_uri { path = some (codes "/over/b"); query = none; fragment = none })
relative-Resolves_example = relative-Resolves full_uri relative_path relative-made

-- A query without `=` stops the program.
bad : split_uri [] (codes "a?b") ≡ bad_query
unfolding program split_uri
bad = refl

relative_text_total_example :
    (u : Uri) × Resolves full_uri relative_path u
    × (relative_text full_uri relative_path ≡ (if is_some u.authority then some (text u) else none))
relative_text_total_example =
    relative_text_total full_uri relative_path (codes "/over/there") (codes "b") refl refl
