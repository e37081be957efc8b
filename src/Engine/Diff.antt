-- ===== src/Engine/Diff.antt =====
-- `_walk_fs` and `fs_diff` of spikes/engine/kladosd.py: the files that two sealed disk layers differ
-- in.
pub mod Laws
use Prim.Native.String.{compare}
use text.Mathlib.Text.{starts_with, is_le}
use klados.Base.{
  ℕ, String, Bool, true, false, not, ◌&&◌, Option, none, some, List, [], ◌∷◌, ◌==◌, ◌≟◌,
  if◌then◌else◌,
}
use klados.Base.Dict.{Dict, lookup, contains}
use klados.Engine.{Files}

-- a file's size and digest, as the walk records them
abbrev pub Stamp : Type 0
Stamp = ℕ × String

-- `_walk_fs`: what cannot be read is passed over
unfoldable pub walk_fs : Files → Dict Stamp
walk_fs [] = []
walk_fs ((rel, none) ∷ files) = walk_fs files
walk_fs ((rel, some stamp) ∷ files) =
    let rest = walk_fs files in if starts_with rel "lost+found" then rest else (rel, stamp) ∷ rest

-- `sorted` on texts
unfoldable pub insert_text : String → List String → List String
insert_text p [] = p ∷ []
insert_text p (q ∷ ps) = if is_le (compare p q) then p ∷ q ∷ ps else q ∷ insert_text p ps

unfoldable pub sorted : List String → List String
unfolding insert_text
sorted [] = []
sorted (p ∷ ps) = insert_text p (sorted ps)

-- `p for p in fa if …`
unfoldable pub keys_where : (String → Bool) → Dict Stamp → List String
keys_where test [] = []
keys_where test ((p, v) ∷ d) = let rest = keys_where test d in if test p then p ∷ rest else rest

unfoldable pub same_stamp : Stamp → Stamp → Bool
same_stamp (n, h) (m, g) = n == m && h ≟ g

-- `p in fb and fa[p] != fb[p]`, for a `p` of `fa`
unfoldable pub changed : Option Stamp → Option Stamp → Bool
unfolding same_stamp
changed (some a) (some b) = not (same_stamp a b)
changed _ _ = false

pub record Diff : Type 0 where
  pub added : List String
  pub removed : List String
  pub modified : List String

unfoldable pub diff_of : Dict Stamp → Dict Stamp → Diff
unfolding keys_where sorted changed
diff_of fa fb = record {
  added = sorted (keys_where (λ p. not (contains p fa)) fb);
  removed = sorted (keys_where (λ p. not (contains p fb)) fa);
  modified = sorted (keys_where (λ p. changed (lookup p fa) (lookup p fb)) fa);
}

-- `fs_diff`, on the sealed layers of two snapshots; `none` is the answer that a layer is missing
unfoldable pub fs_diff : Option Files → Option Files → Option Diff
unfolding diff_of walk_fs
fs_diff (some a) (some b) = some (diff_of (walk_fs a) (walk_fs b))
fs_diff _ _ = none
