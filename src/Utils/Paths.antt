-- ===== src/Utils/Paths.antt =====
-- Go's `path` and `strings` functions that take a path apart.
pub mod Parts
use Prim.Native.Char.{Char, code}
use Prim.Native.String.{String}
use Prim.Native.String.{◌++◌ as ◌+++◌}
use applicationset.Prelude.{Bool, false, ◌==◌, List, [], ◌∷◌, str_eq, if◌then◌else◌, ◌≡◌, refl}
use applicationset.Utils.Text.{is_empty, trim_right}

-- A character in front of the first text.
push_first : Char → List String → List String
push_first c [] = (String.◌∷◌ c String.[]) ∷ []
push_first c (s ∷ ss) = (String.◌∷◌ c s) ∷ ss

-- `strings.Split(s, "/")`
unfoldable pub split_slash : String → List String
unfolding push_first
split_slash String.[] = String.[] ∷ []
split_slash (String.◌∷◌ c s) =
    let rest = split_slash s in if code c == b'/' then String.[] ∷ rest else push_first c rest

-- `strings.Join(ss, "/")`
unfoldable pub join_slash : List String → String
join_slash [] = ""
join_slash (s ∷ []) = s
join_slash (s ∷ t ∷ ss) = s +++ "/" +++ join_slash (t ∷ ss)

-- `strings.TrimSuffix`
unfoldable pub trim_suffix : String → String → String
trim_suffix String.[] suffix = String.[]
trim_suffix (String.◌∷◌ c s) suffix =
    let rest = trim_suffix s suffix in
    if str_eq (String.◌∷◌ c s) suffix then String.[] else String.◌∷◌ c rest

unfoldable pub last_or : String → List String → String
last_or default [] = default
last_or default (s ∷ ss) = last_or s ss

-- `path.Base`
unfoldable pub base : String → String
unfolding split_slash last_or trim_right
base path =
    if is_empty path
    then "."
    else let name = last_or "" (split_slash (trim_right b'/' path)) in
      if is_empty name then "/" else name

unfoldable pub all_but_last : List String → List String
all_but_last [] = []
all_but_last (s ∷ []) = []
all_but_last (s ∷ t ∷ ss) = s ∷ all_but_last (t ∷ ss)

-- The stack of `path.Clean`, its top first: what one segment does to it.
unfoldable pub clean_segment : Bool → List String → String → List String
clean_segment rooted out segment =
    if is_empty segment
    then out
    else if str_eq segment "."
    then out
    else if str_eq segment ".."
    then (elim out [
      | [] ↦ if rooted then [] else ".." ∷ []
      | s ∷ rest ↦ if str_eq s ".." then ".." ∷ s ∷ rest else rest
    ])
    else segment ∷ out

unfoldable pub clean_segments : Bool → List String → List String → List String
unfolding clean_segment
clean_segments rooted out [] = out
clean_segments rooted out (s ∷ ss) = clean_segments rooted (clean_segment rooted out s) ss

unfoldable pub reverse_onto : List String → List String → List String
reverse_onto [] to = to
reverse_onto (s ∷ ss) to = reverse_onto ss (s ∷ to)

abbrev pub is_rooted : String → Bool
is_rooted String.[] = false
is_rooted (String.◌∷◌ c s) = code c == b'/'

-- `path.Clean`
unfoldable pub clean : String → String
unfolding clean_segments reverse_onto join_slash split_slash
clean path =
    let out =
      join_slash (reverse_onto (clean_segments (is_rooted path) [] (split_slash path)) []) in
    if is_rooted path then "/" +++ out else if is_empty out then "." else out

-- `path.Dir`: what stands before the last slash, with it, cleaned
unfoldable pub dir : String → String
unfolding clean all_but_last split_slash join_slash
dir path =
    let parents = all_but_last (split_slash path) in
    clean (elim parents [ [] ↦ "" | s ∷ ss ↦ join_slash (s ∷ ss) +++ "/" ])

runs :
    (base "apps/guestbook/" ≡ "guestbook")
    × (base "//" ≡ "/")
    × (dir "a/b/../c.yaml" ≡ "a")
    × (dir "/a.json" ≡ "/")
    × (dir "c.json" ≡ ".")
    × (split_slash (trim_suffix "a/b/c" "c") ≡ "a" ∷ "b" ∷ "" ∷ [])
unfolding base dir trim_suffix split_slash
runs = (refl, refl, refl, refl, refl, refl)
