-- ===== src/Scans/Walks.antt =====
-- Where the walk to a closing quote ends.
use hemp.Base.{ℕ, Bool, true, false, [], ◌∷◌, Left, Left-same, Left-more, ◌==◌, if◌then◌else◌}
use hemp.Chars.{Str}
use hemp.Scans.Quoted.{Walk, closed, unclosed, past_end, with_escape, walk, at_end, backslash}

-- Where a walk ends is in the source.
unfoldable pub WalkLeft : Str → Walk → Type 0
WalkLeft src (closed closing plain) = Left src closing
WalkLeft src unclosed = Unit
WalkLeft src past_end = Unit

walk-more : (c : ℕ) (src : Str) (w : Walk) → WalkLeft src w → WalkLeft (c ∷ src) w
unfolding WalkLeft
walk-more c src (closed closing plain) l = Left-more c src closing l
walk-more c src unclosed l = tt
walk-more c src past_end l = tt

walk-escape : (src : Str) (w : Walk) → WalkLeft src w → WalkLeft src (with_escape w)
unfolding WalkLeft
walk-escape src (closed closing plain) l = l
walk-escape src unclosed l = tt
walk-escape src past_end l = tt

walk_if :
    (src : Str) (b : Bool) (v w : Walk)
    → WalkLeft src v
    → WalkLeft src w
    → WalkLeft src (if b then v else w)
walk_if src true v w l r = l
walk_if src false v w l r = r

pub walk-WalkLeft : (end src : Str) → WalkLeft src (walk end src)
unfolding walk WalkLeft
walk-WalkLeft end [] = walk_if [] (at_end end []) (closed [] true) past_end (Left-same []) tt
walk-WalkLeft end (c ∷ []) =
    let s = c ∷ [] in
    let rest = if c == backslash then past_end else unclosed in
    walk_if s (at_end end s) (closed s true) rest (Left-same s)
      (walk_if s (c == backslash) past_end unclosed tt tt)
walk-WalkLeft end (c ∷ d ∷ []) =
    let s = c ∷ d ∷ [] in
    let next = walk end (d ∷ []) in
    let rest = if c == backslash then unclosed else next in
    walk_if s (at_end end s) (closed s true) rest (Left-same s) (
      walk_if s (c == backslash) unclosed next tt
        (walk-more c (d ∷ []) next (walk-WalkLeft end (d ∷ []))))
walk-WalkLeft end (c ∷ d ∷ e ∷ src) =
    let s = c ∷ d ∷ e ∷ src in
    let next = walk end (d ∷ e ∷ src) in
    let behind = with_escape (walk end (e ∷ src)) in
    let rest = if c == backslash then behind else next in
    walk_if s (at_end end s) (closed s true) rest (Left-same s) (
      walk_if s (c == backslash) behind next
        (walk-more c (d ∷ e ∷ src) behind (
          walk-more d (e ∷ src) behind
            (walk-escape (e ∷ src) (walk end (e ∷ src)) (walk-WalkLeft end (e ∷ src)))))
        (walk-more c (d ∷ e ∷ src) next (walk-WalkLeft end (d ∷ e ∷ src))))
