-- ===== src/Generators/Git/Order.antt =====
-- The order in which Go ranges over the files does not show in what pkg/generators/git.go returns.
use applicationset.Prelude.{
  ◌≡◌, refl, sym, ◌∙◌, ap, String, List, [], ◌∷◌, ◌++◌, Map, lookup, has_key, insert_all,
  DistinctKeys, lookup-insert_all, insert_all-DistinctKeys, arith,
}
use applicationset.Errors.{Result, ok, err, panic, ◌>>=◌, wrap, file_error}
use applicationset.Api.Generator.{GitFileGeneratorItem}
use applicationset.Utils.Combine.{Params}
use applicationset.Utils.SortTexts.{sort_strings}
use applicationset.Utils.SortTexts.Laws.{contains, AreDistinct, sort_strings_unique}
use applicationset.Generators.Git.Files.{
  FileReader, keys, content_of, all_files, params_of_files, generate_params_from_git_file,
  generate_params_for_git_files,
}

-- The same Go map: the same values under the same keys, each key once.
abbrev pub SameMap : Map String → Map String → Type 0
SameMap m n = DistinctKeys m × DistinctKeys n × ((k : String) → lookup k m ≡ lookup k n)

-- The same result of a function that returns a Go map.
abbrev pub SameResult : Result (Map String) → Result (Map String) → Type 0
SameResult (ok m) (ok n) = SameMap m n
SameResult (err e) (err e') = e ≡ e'
SameResult panic panic = Unit
SameResult _ _ = ⊥

insert_all-SameMap :
    (a b m n : Map String) → SameMap a b → SameMap m n → SameMap (insert_all a m) (insert_all b n)
insert_all-SameMap a b m n (da, db, ab) (dm, dn, mn) = (
  insert_all-DistinctKeys a m dm,
  insert_all-DistinctKeys b n dn,
  λ k. lookup-insert_all k a m da ∙ rw (ab k, mn k) (sym (lookup-insert_all k b n db)),
)

bind-SameResult :
    (r s : Result (Map String)) (k l : Map String → Result (Map String))
    → SameResult r s
    → ((a b : Map String) → SameMap a b → SameResult (k a) (l b))
    → SameResult (r >>= k) (s >>= l)
bind-SameResult (ok a) (ok b) k l h same = same a b h
bind-SameResult (err e) (err e') k l h same = h
bind-SameResult panic panic k l h same = tt
bind-SameResult (ok a) (err e) k l h same = absurd h
bind-SameResult (ok a) panic k l h same = absurd h
bind-SameResult (err e) (ok a) k l h same = absurd h
bind-SameResult (err e) panic k l h same = absurd h
bind-SameResult panic (ok a) k l h same = absurd h
bind-SameResult panic (err e) k l h same = absurd h

all_files-SameResult :
    (f g : String → Result (Map String)) (items : List GitFileGeneratorItem) (m n : Map String)
    → ((pattern : String) → SameResult (f pattern) (g pattern))
    → SameMap m n
    → SameResult (all_files f items m) (all_files g items n)
unfolding all_files
all_files-SameResult f g [] m n same mn = mn
all_files-SameResult f g (item ∷ items) m n same mn =
    bind-SameResult (f item.path) (g item.path) (λ files. all_files f items (insert_all files m))
      (λ files. all_files g items (insert_all files n)) (same item.path)
      (λ a b h.
        all_files-SameResult f g items (insert_all a m) (insert_all b n) same
          (insert_all-SameMap a b m n h mn))

contains-keys : (k : String) (m : Map String) → contains k (keys m) ≡ has_key k m
unfolding contains has_key lookup
contains-keys k [] = refl
contains-keys k ((j, v) ∷ m) = ground (arith, contains-keys k m)

keys-AreDistinct : (m : Map String) → DistinctKeys m → AreDistinct (keys m)
keys-AreDistinct [] d = tt
keys-AreDistinct ((k, v) ∷ m) d = (contains-keys k m ∙ d.0, keys-AreDistinct m d.1)

has_key-same : (k : String) (m n : Map String) → lookup k m ≡ lookup k n → has_key k m ≡ has_key k n
unfolding has_key
has_key-same k m n e = rw (has_key, e) refl

sorted_keys : (m n : Map String) → SameMap m n → sort_strings (keys m) ≡ sort_strings (keys n)
sorted_keys m n (dm, dn, mn) =
    sort_strings_unique (keys m) (keys n) (keys-AreDistinct m dm) (keys-AreDistinct n dn)
      (λ k. contains-keys k m ∙ has_key-same k m n (mn k) ∙ sym (contains-keys k n))

module _ (reader : FileReader) where
  params_of_files-same :
      (m n : Map String) (paths : List String) (res : List Params)
      → ((k : String) → lookup k m ≡ lookup k n)
      → params_of_files reader m paths res ≡ params_of_files reader n paths res
  unfolding params_of_files
  params_of_files-same m n [] res mn = refl
  params_of_files-same m n (path ∷ paths) res mn =
      let content : content_of path m ≡ content_of path n =
        unfold content_of in rw (content_of, mn path) refl in
      rw content (λ i.
        wrap (file_error path) (generate_params_from_git_file reader path (content_of path n))
        >>= λ params. params_of_files-same m n paths (res ++ params) mn i)

  same_result :
      (r s : Result (Map String))
      → SameResult r s
      → (r >>= λ files. params_of_files reader files (sort_strings (keys files)) [])
        ≡ (s >>= λ files. params_of_files reader files (sort_strings (keys files)) [])
  same_result (ok m) (ok n) h =
      rw (sorted_keys m n h) (params_of_files-same m n (sort_strings (keys n)) [] h.2)
  same_result (err e) (err e') h = ap err h
  same_result panic panic h = refl
  same_result (ok a) (err e) h = absurd h
  same_result (ok a) panic h = absurd h
  same_result (err e) (ok a) h = absurd h
  same_result (err e) panic h = absurd h
  same_result panic (ok a) h = absurd h
  same_result panic (err e) h = absurd h

  -- If for every pattern two services return the same Go map of files, whatever the orders in which
  -- Go ranges over it, then generateParamsForGitFiles returns the same sets in the same order, or the
  -- same error.
  pub generate_params_for_git_files_unordered :
      (f g : String → Result (Map String)) (items : List GitFileGeneratorItem)
      → ((pattern : String) → SameResult (f pattern) (g pattern))
      → generate_params_for_git_files reader f items ≡ generate_params_for_git_files reader g items
  unfolding generate_params_for_git_files
  generate_params_for_git_files_unordered f g items same =
      same_result (all_files f items []) (all_files g items [])
        (all_files-SameResult f g items [] [] same (tt, tt, λ k. refl))
