-- ===== src/Base/Path.antt =====
-- The parts of Go's `strings` and `path` that the operator calls: `strings.Join` and `path.Join`.
use Prim.Native.Char.{code}
use Prim.Native.String.{String, ◌++◌ as ◌<>◌}
use mathlib.Core.Path.{◌≡◌, refl}
use mathlib.Core.Bool.{Bool, true, false, ◌||◌}
use mathlib.Core.List.{List, [], ◌∷◌, reverse}
use etcdops.Base.Tests.{str_eq, ◌==◌, if◌then◌else◌}

-- `strings.Join`
unfoldable pub join : String → List String → String
join sep [] = ""
join sep (x ∷ []) = x
join sep (x ∷ y ∷ xs) = x <> (sep <> join sep (y ∷ xs))

-- The parts between slashes; `part` is what has been read of the first one.
segments : String → String → List String
segments part String.[] = part ∷ []
segments part (String.◌∷◌ c s) = elim (code c == b'/') [
  | true ↦ part ∷ segments "" s
  | false ↦ segments (part <> String.◌∷◌ c String.[]) s
]

-- `..` goes up one directory, stays at the root, and is kept in front of a relative path.
go_up : Bool → List String → List String
go_up rooted [] = if rooted then [] else ".." ∷ []
go_up rooted (x ∷ out) = if str_eq x ".." then ".." ∷ x ∷ out else out

clean_segments : Bool → List String → List String → List String
clean_segments rooted out [] = reverse out
clean_segments rooted out (x ∷ xs) =
    clean_segments rooted
      (if str_eq x "" || str_eq x "."
        then out
        else if str_eq x ".."
        then go_up rooted out
        else x ∷ out)
      xs

is_rooted : String → Bool
is_rooted String.[] = false
is_rooted (String.◌∷◌ c s) = code c == b'/'

or_dot : String → String
or_dot s = if str_eq s "" then "." else s

-- `path.Clean`
path_clean : String → String
path_clean s =
    let body = join "/" (clean_segments (is_rooted s) [] (segments "" s)) in
    if is_rooted s then "/" <> body else or_dot body

drop_empty : List String → List String
drop_empty [] = []
drop_empty (x ∷ xs) = let rest = drop_empty xs in if str_eq x "" then rest else x ∷ rest

clean_joined : List String → String
clean_joined [] = ""
clean_joined (x ∷ xs) = path_clean (join "/" (x ∷ xs))

-- `path.Join`
unfoldable pub path_join : List String → String
unfolding join segments go_up clean_segments is_rooted or_dot path_clean drop_empty clean_joined
path_join parts = clean_joined (drop_empty parts)

path_join_example : path_join ("/var/lib/ssl/peer" ∷ "ca.crt" ∷ []) ≡ "/var/lib/ssl/peer/ca.crt"
unfolding path_join
path_join_example = refl

path_join_dots : path_join ("a/" ∷ "" ∷ "../../b" ∷ "./c" ∷ []) ≡ "../b/c"
unfolding path_join
path_join_dots = refl
