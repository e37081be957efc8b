-- ===== src/Http/Path.antt =====
-- `self.path.strip("/").split("/")` of spikes/engine/kladosd.py.
use Prim.Native.Char.{Char, code}
use Prim.Native.String.{String}
use klados.Base.{Bool, true, false, ◌&&◌, List, [], ◌∷◌, ◌==◌, if◌then◌else◌}

unfoldable pub is_slash : Char → Bool
is_slash c = code c == b'/'

-- `lstrip("/")`
unfoldable pub lstrip : String → String
lstrip String.[] = String.[]
lstrip (String.◌∷◌ c s) = let rest = lstrip s in if is_slash c then rest else String.◌∷◌ c s

unfoldable pub is_empty : String → Bool
is_empty String.[] = true
is_empty (String.◌∷◌ c s) = false

-- `rstrip("/")`
unfoldable pub rstrip : String → String
unfolding is_empty
rstrip String.[] = String.[]
rstrip (String.◌∷◌ c s) =
    let rest = rstrip s in if is_slash c && is_empty rest then String.[] else String.◌∷◌ c rest

-- puts a character in front of the first segment
unfoldable pub onto_first : Char → List String → List String
onto_first c [] = String.◌∷◌ c String.[] ∷ []
onto_first c (p ∷ ps) = String.◌∷◌ c p ∷ ps

-- `split("/")`
unfoldable pub split : String → List String
unfolding onto_first
split String.[] = String.[] ∷ []
split (String.◌∷◌ c s) =
    let rest = split s in if is_slash c then String.[] ∷ rest else onto_first c rest

unfoldable pub segments : String → List String
unfolding is_slash lstrip rstrip split
segments path = split (rstrip (lstrip path))
