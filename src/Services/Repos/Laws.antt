-- ===== src/Services/Repos/Laws.antt =====
-- Which directories the walk of pkg/services/repo_service.go returns.
use Prim.Native.String.{String}
use mathlib.Core.List.{Memᴰ}
use mathlib.Core.List.Memᴰ
use applicationset.Prelude.{◌≡◌, false, List, [], ◌∷◌, ◌++◌, ◌⊎◌, inl, inr, ◌↔◌, Bool-cases}
use applicationset.Errors.{Result, ok}
use applicationset.Errors.Laws.{ok-injective, bind-ok}
use applicationset.Services.Repos.{GitClient, open_repo, get_directories}
use applicationset.Services.Repos.Walk.{
  Entry, Entries, file, directory, unreadable, no_entries, entry, is_hidden, below, walk, walk_all,
  get_paths,
}

-- `IsVisible parent e p`: below `parent`, the entry `e` is or has a directory whose path is `p`, and
-- neither it nor a directory on the way to it is hidden.
mutual
  pub data IsVisible (p : String) : String → Entry → Type 0 where
    here :
        {parent name : String} {es : Entries}
        → is_hidden name ≡ false
        → p ≡ below parent name
        → IsVisible p parent (directory name es)
    inside :
        {parent name : String} {es : Entries}
        → is_hidden name ≡ false
        → IsVisibleIn p (below parent name) es
        → IsVisible p parent (directory name es)

  pub data IsVisibleIn (p : String) : String → Entries → Type 0 where
    first :
        {path : String} {e : Entry} {es : Entries}
        → IsVisible p path e
        → IsVisibleIn p path (entry e es)
    later :
        {path : String} {e : Entry} {es : Entries}
        → IsVisibleIn p path es
        → IsVisibleIn p path (entry e es)

module _ (p : String) where
  -- What the walk adds is visible.
  mutual
    unfolding walk

    walk_sound :
        (parent : String) (e : Entry) (filtered out : List String)
        → walk parent e filtered ≡ ok out
        → Memᴰ p out
        → Memᴰ p filtered ⊎ IsVisible p parent e
    walk_sound parent (file name) filtered out h m = inl (rw (ok-injective h) m)
    walk_sound parent (unreadable e) filtered out h m = cc
    walk_sound parent (directory name es) filtered out h m = elim (Bool-cases (is_hidden name)) [
      | inl hidden ↦ inl (rw (ok-injective (rw hidden at h)) m)
      | inr shown ↦
          let below_dir = below parent name in
          elim (walk_all_sound below_dir es (filtered ++ below_dir ∷ []) out (rw shown at h) m) [
            | inr v ↦ inr (inside shown v)
            | inl m' ↦ elim (Memᴰ.append_cases filtered m') [
              | inl m'' ↦ inl m''
              | inr last ↦ inr (here shown (Memᴰ.eq_of_singleton last))
            ]
          ]
    ]

    walk_all_sound :
        (path : String) (es : Entries) (filtered out : List String)
        → walk_all path es filtered ≡ ok out
        → Memᴰ p out
        → Memᴰ p filtered ⊎ IsVisibleIn p path es
    walk_all_sound path no_entries filtered out h m = inl (rw (ok-injective h) m)
    walk_all_sound path (entry e es) filtered out h m =
        let (between, done, h') = bind-ok (walk path e filtered) h in
        elim (walk_all_sound path es between out h' m) [
          | inr v ↦ inr (later v)
          | inl m' ↦ elim (walk_sound path e filtered between done m') [
            | inl m'' ↦ inl m''
            | inr v ↦ inr (first v)
          ]
        ]

  -- The walk keeps what it has.
  mutual
    unfolding walk

    walk_kept :
        (parent : String) (e : Entry) (filtered out : List String)
        → walk parent e filtered ≡ ok out
        → Memᴰ p filtered
        → Memᴰ p out
    walk_kept parent (file name) filtered out h m = rw (← ok-injective h) m
    walk_kept parent (unreadable e) filtered out h m = cc
    walk_kept parent (directory name es) filtered out h m = elim (Bool-cases (is_hidden name)) [
      | inl hidden ↦ rw (← ok-injective (rw hidden at h)) m
      | inr shown ↦
          walk_all_kept (below parent name) es (filtered ++ below parent name ∷ []) out
            (rw shown at h) (Memᴰ.append_left (below parent name ∷ []) m)
    ]

    walk_all_kept :
        (path : String) (es : Entries) (filtered out : List String)
        → walk_all path es filtered ≡ ok out
        → Memᴰ p filtered
        → Memᴰ p out
    walk_all_kept path no_entries filtered out h m = rw (← ok-injective h) m
    walk_all_kept path (entry e es) filtered out h m =
        let (between, done, h') = bind-ok (walk path e filtered) h in
        walk_all_kept path es between out h' (walk_kept path e filtered between done m)

  -- The walk adds what is visible.
  mutual
    unfolding walk

    walk_added :
        (parent : String) (e : Entry) (filtered out : List String)
        → walk parent e filtered ≡ ok out
        → IsVisible p parent e
        → Memᴰ p out
    walk_added parent (file name) filtered out h v = elim v [ ]
    walk_added parent (unreadable e) filtered out h v = elim v [ ]
    walk_added parent (directory name es) filtered out h (here shown e) =
        walk_all_kept (below parent name) es (filtered ++ below parent name ∷ []) out
          (rw shown at h) (Memᴰ.append_right filtered (Memᴰ.head e))
    walk_added parent (directory name es) filtered out h (inside shown v) =
        walk_all_added (below parent name) es (filtered ++ below parent name ∷ []) out
          (rw shown at h) v

    walk_all_added :
        (path : String) (es : Entries) (filtered out : List String)
        → walk_all path es filtered ≡ ok out
        → IsVisibleIn p path es
        → Memᴰ p out
    walk_all_added path no_entries filtered out h v = elim v [ ]
    walk_all_added path (entry e es) filtered out h v =
        let (between, done, h') = bind-ok (walk path e filtered) h in
        elim v [
          | first w ↦
              walk_all_kept path es between out h' (walk_added path e filtered between done w)
          | later w ↦ walk_all_added path es between out h' w
        ]

-- From a root that is not hidden itself, the walk returns a path exactly if it leads from the
-- root to a directory, and neither this nor any directory on the way has a name that begins with a
-- dot.
get_paths-IsVisible :
    (name : String) (es : Entries) (paths : List String) (p : String)
    → is_hidden name ≡ false
    → get_paths (directory name es) ≡ ok paths
    → Memᴰ p paths ↔ IsVisibleIn p "" es
unfolding get_paths
get_paths-IsVisible name es paths p shown h =
    let h' = rw (get_paths, shown) at h in
    (
      λ m. elim (walk_all_sound p "" es [] paths h' m) [
        | inl none_yet ↦ absurd (Memᴰ.not-nil none_yet)
        | inr v ↦ v
      ],
      λ v. walk_all_added p "" es [] paths h' v,
    )

module _ {ℓ} {C : Type ℓ} (client : GitClient C) (get_repository : String → Result (Result C)) where
  -- When a repository is opened and its root is a directory that is not hidden, each path that
  -- GetDirectories returns leads through directories whose names do not begin with a dot to one of
  -- the same kind, and each path that does so is returned.
  pub get_directories-IsVisible :
      (repo_url revision : String) (c : C) (name : String) (es : Entries) (paths : List String)
      (p : String)
      → open_repo client get_repository repo_url revision ≡ ok c
      → client.tree c ≡ directory name es
      → is_hidden name ≡ false
      → get_directories client get_repository repo_url revision ≡ ok paths
      → Memᴰ p paths ↔ IsVisibleIn p "" es
  unfolding get_directories
  get_directories-IsVisible repo_url revision c name es paths p opened root shown h =
      get_paths-IsVisible name es paths p shown (rw (get_directories, opened, root) at h)
