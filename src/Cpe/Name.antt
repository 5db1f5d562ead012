-- ===== src/Cpe/Name.antt =====
-- internal/enrich/cpe/cpe.go: CPE 2.3 names. The regular expression is a test of the pieces between the
-- colons, of which it asks for thirteen; an error has no text.
use astinus.Base.{
  ◌≡◌, refl, Bool, true, false, List, [], ◌∷◌, map, Option, none, some, Text, codes, text_eq,
  nat_eq, ◌==◌, if◌then◌else◌, length, contains, All,
}
use astinus.Base.Strings.{to_lower, join_with}
use astinus.Base.Split.{split_on, split_on-join_with}

pub record CpeName : Type 0 where
  pub part : Text
  pub vendor : Text
  pub product : Text
  pub version : Text
  pub update : Text
  pub edition : Text
  pub language : Text
  pub sw_edition : Text
  pub target_sw : Text
  pub target_hw : Text
  pub other : Text

abbrev pub or_star : Text → Text
or_star s = if s == [] then codes "*" else s

-- The attributes in the order of the name.
abbrev pub attributes : CpeName → List Text
attributes c =
    c.part ∷ c.vendor ∷ c.product ∷ c.version ∷ c.update ∷ c.edition ∷ c.language ∷ c.sw_edition
    ∷ c.target_sw ∷ c.target_hw ∷ c.other ∷ []

unfoldable pub cpe_string : CpeName → Text
unfolding join_with
cpe_string c = join_with (b':' ∷ []) (codes "cpe" ∷ codes "2.3" ∷ map or_star (attributes c))

abbrev pub known_parts : List Text
known_parts = codes "a" ∷ codes "o" ∷ codes "h" ∷ codes "*" ∷ []

abbrev pub are_valid_pieces : List Text → Bool
are_valid_pieces (scheme ∷ edition ∷ part ∷ rest) =
    if scheme == codes "cpe"
    then if edition == codes "2.3"
      then if contains known_parts part then length rest == 10 else false
      else false
    else false
are_valid_pieces _ = false

unfoldable pub is_valid_cpe : Text → Bool
unfolding split_on
is_valid_cpe s = are_valid_pieces (split_on b':' s)

abbrev pub from_pieces : List Text → Option CpeName
from_pieces (_ ∷ _ ∷ p ∷ v ∷ pr ∷ ve ∷ u ∷ e ∷ l ∷ se ∷ ts ∷ th ∷ o ∷ []) = some (record {
  part = p;
  vendor = v;
  product = pr;
  version = ve;
  update = u;
  edition = e;
  language = l;
  sw_edition = se;
  target_sw = ts;
  target_hw = th;
  other = o;
})
from_pieces _ = none

-- `Parse`
unfoldable pub parse_cpe : Text → Option CpeName
unfolding is_valid_cpe split_on
parse_cpe s = if is_valid_cpe s then from_pieces (split_on b':' s) else none

-- `Build`
unfoldable pub build_cpe : Text → Text → Text → Text
unfolding cpe_string
build_cpe vendor product version = cpe_string (record {
  part = codes "a";
  vendor = to_lower vendor;
  product = to_lower product;
  version = or_star version;
  update = [];
  edition = [];
  language = [];
  sw_edition = [];
  target_sw = [];
  target_hw = [];
  other = [];
})

-- A name with a star for each attribute that it leaves open.
abbrev pub starred : CpeName → CpeName
starred c = record {
  part = or_star c.part;
  vendor = or_star c.vendor;
  product = or_star c.product;
  version = or_star c.version;
  update = or_star c.update;
  edition = or_star c.edition;
  language = or_star c.language;
  sw_edition = or_star c.sw_edition;
  target_sw = or_star c.target_sw;
  target_hw = or_star c.target_hw;
  other = or_star c.other;
}

abbrev pub LacksColon : Text → Type 0
LacksColon s = contains s b':' ≡ false

or_star-LacksColon : (s : Text) → LacksColon s → LacksColon (or_star s)
or_star-LacksColon [] h = refl
or_star-LacksColon (c ∷ s) h = h

or_star-All : (ss : List Text) → All LacksColon ss → All LacksColon (map or_star ss)
or_star-All [] h = tt
or_star-All (s ∷ ss) (h, hs) = (or_star-LacksColon s h, or_star-All ss hs)

-- A name that is written is read back, with a star for each attribute that was empty, if no
-- attribute holds a colon and the part is `a`, `o`, `h`, a star or open.
pub parse_cpe-cpe_string :
    (c : CpeName)
    → All LacksColon (attributes c)
    → contains known_parts (or_star c.part) ≡ true
    → parse_cpe (cpe_string c) ≡ some (starred c)
unfolding parse_cpe cpe_string is_valid_cpe
parse_cpe-cpe_string c lack known =
    rw
      (
        split_on-join_with b':' (codes "cpe") (codes "2.3" ∷ map or_star (attributes c))
            (refl, (refl, or_star-All (attributes c) lack)),
        known,
      )
      refl
