-- ===== src/Storage/Paths.antt =====
-- The parts of `pathlib.PurePosixPath` that the uploads use.
use Prim.Native.Char.{Char, code}
use fastapi_shipment_import.Base.{
  String, Bool, not, ◌&&◌, ◌==◌, str_eq, is_empty, List, [], ◌∷◌, Option, none, some, select_where,
  if◌then◌else◌,
}

abbrev pub prepend : Char → List String → List String
prepend c [] = String.◌∷◌ c String.[] ∷ []
prepend c (part ∷ parts) = String.◌∷◌ c part ∷ parts

-- `text.split("/")`
unfoldable pub split_slashes : String → List String
split_slashes String.[] = "" ∷ []
split_slashes (String.◌∷◌ c s) =
    let rest = split_slashes s in if code c == 47 then "" ∷ rest else prepend c rest

abbrev pub last_or_empty : List String → String
last_or_empty [] = ""
last_or_empty (part ∷ []) = part
last_or_empty (part ∷ other ∷ parts) = last_or_empty (other ∷ parts)

-- `Path(text).name`: empty parts and dots are no components.
unfoldable pub path_name : String → String
unfolding split_slashes
path_name s =
    last_or_empty
      (select_where (λ part. not (is_empty part) && not (str_eq part ".")) (split_slashes s))

abbrev pub or_here : Option String → Bool → String → Option String
or_here (some t) is_dot here = some t
or_here none is_dot here = if is_dot then some here else none

-- The text from its last dot on.
unfoldable pub from_last_dot : String → Option String
from_last_dot String.[] = none
from_last_dot (String.◌∷◌ c s) = or_here (from_last_dot s) (code c == 46) (String.◌∷◌ c s)

abbrev pub unless_dot : Option String → String
unless_dot none = ""
unless_dot (some t) = if str_eq t "." then "" else t

-- `Path(name).suffix` of a name: a dot that starts or ends the name starts no suffix.
unfoldable pub path_suffix : String → String
unfolding from_last_dot
path_suffix String.[] = ""
path_suffix (String.◌∷◌ c s) = unless_dot (from_last_dot s)
