-- ===== src/Base/Paths.antt =====
-- The functions of Go's `path` that the source uses.
use mathlib.Core.List.{reverse}
use astinus.Base.{
  ℕ, Bool, true, false, ◌||◌, List, [], ◌∷◌, ◌++◌, Text, codes, text_eq, nat_eq, ◌==◌,
  if◌then◌else◌,
}
use astinus.Base.Strings.{has_prefix}

abbrev pub cons_head : ℕ → List Text → List Text
cons_head c [] = (c ∷ []) ∷ []
cons_head c (s ∷ ss) = (c ∷ s) ∷ ss

-- The pieces between the slashes, always at least one.
unfoldable pub split_slash : Text → List Text
split_slash [] = [] ∷ []
split_slash (c ∷ s) = let rest = split_slash s in if c == b'/' then [] ∷ rest else cons_head c rest

unfoldable pub join_slash : List Text → Text
join_slash [] = []
join_slash (s ∷ []) = s
join_slash (s ∷ t ∷ ss) = s ++ (b'/' ∷ join_slash (t ∷ ss))

-- What `..` does to the pieces kept so far, the last first.
abbrev pub step_up : Bool → List Text → List Text
step_up rooted [] = if rooted then [] else codes ".." ∷ []
step_up rooted (s ∷ ss) = if s == codes ".." then codes ".." ∷ s ∷ ss else ss

unfoldable pub clean_pieces : Bool → List Text → List Text → List Text
clean_pieces rooted kept [] = reverse kept
clean_pieces rooted kept (s ∷ ss) =
    clean_pieces rooted
      (if s == [] || s == codes "."
        then kept
        else if s == codes ".."
        then step_up rooted kept
        else s ∷ kept)
      ss

abbrev pub or_dot : Text → Text
or_dot [] = codes "."
or_dot (c ∷ s) = c ∷ s

-- `path.Clean`
unfoldable pub clean : Text → Text
unfolding split_slash join_slash clean_pieces
clean p =
    if has_prefix p (codes "/")
    then b'/' ∷ join_slash (clean_pieces true [] (split_slash p))
    else or_dot (join_slash (clean_pieces false [] (split_slash p)))

-- The last piece of a list of pieces, and those before it.
unfoldable pub last_piece : List Text → Text
last_piece [] = []
last_piece (s ∷ []) = s
last_piece (s ∷ t ∷ ss) = last_piece (t ∷ ss)

unfoldable pub but_last : List Text → List Text
but_last [] = []
but_last (s ∷ []) = []
but_last (s ∷ t ∷ ss) = s ∷ but_last (t ∷ ss)

-- The last piece that is not empty, or `found`.
unfoldable pub last_filled : Text → List Text → Text
last_filled found [] = found
last_filled found (s ∷ ss) = last_filled (if s == [] then found else s) ss

-- `path.Base`, of any path: slashes at the end do not count.
unfoldable pub base_of : Text → Text
unfolding last_filled split_slash
base_of p = if p == [] then codes "." else last_filled (codes "/") (split_slash p)

-- `path.Dir` of a cleaned path that does not start with a slash.
unfoldable pub dir_of : Text → Text
unfolding but_last split_slash clean join_slash
dir_of p = clean (join_slash (but_last (split_slash p)))

-- `path.Join` of a directory that is not empty and a name.
unfoldable pub join : Text → Text → Text
unfolding clean
join dir [] = clean dir
join dir (c ∷ s) = clean (dir ++ (b'/' ∷ c ∷ s))
