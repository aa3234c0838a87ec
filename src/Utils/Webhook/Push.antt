-- ===== src/Utils/Webhook/Push.antt =====
-- Which pushes refresh a git generator (pkg/utils/webhook.go).
use Prim.Native.String.{[], ◌∷◌}
use Prim.Native.Char.{code}
use Prim.Native.String.append
use Prim.Native.String.{◌++◌ as ◌+++◌}
use mathlib.Core.Option.{some-injective}
use applicationset.Prelude.{
  ◌==◌, ◌∙◌, String, ◌≡◌, refl, inl, inr, Bool, ◌&&◌, ◌||◌, [], ◌∷◌, Option, none, some, str_eq,
  eq_iff, eq_refl, sym, ap, arith, Bool-cases,
}
use applicationset.Errors.{ok}
use applicationset.Api.Generator.{GitGenerator}
use applicationset.Utils.Text.{is_empty}
use applicationset.Utils.Regexp.{Compile}
use applicationset.Utils.Webhook.Relevance.{
  Payload, github_push, gitlab_push, github_pull_request, other_payload, ParseUrl, GitGeneratorInfo,
  after_slash, parse_revision, git_info, get_git_generator_info, should_refresh_git_generator,
  gen_revision_has_changed,
}

-- The revision that a git generator follows is the head of its repository.
abbrev pub follows_head : GitGenerator → Bool
follows_head gen =
    str_eq (parse_revision gen.revision) "HEAD" || str_eq (parse_revision gen.revision) ""

is_empty-str_eq : (s : String) → is_empty s ≡ str_eq s ""
is_empty-str_eq [] = sym (eq_refl "")
is_empty-str_eq (c ∷ s) = elim (Bool-cases (str_eq (c ∷ s) "")) [
  | inl same ↦
      let e : is_empty (c ∷ s) ≡ is_empty "" = ap is_empty ((eq_iff (c ∷ s) "").0 same) in cc
  | inr apart ↦ sym apart
]

git_info_fields :
    (parse : ParseUrl) (compile : Compile) (touched : Bool) (url : String) (info : GitGeneratorInfo)
    → git_info parse compile touched url ≡ ok (some info)
    → (info.revision ≡ "") × (info.touched_head ≡ touched)
unfolding git_info
git_info_fields parse compile touched url info e = ground arith

-- The default branch of the repository that was pushed to, and the ref that was pushed.
abbrev pub pushed : Payload → Option (String × String)
pushed (github_push html_url default_branch ref) = some (default_branch, ref)
pushed (gitlab_push web_url default_branch ref) = some (default_branch, ref)
pushed _ = none

-- What follows the first slash of a text that begins with `p`, which has a slash.
after_slash-append :
    (p q s : String) → after_slash p ≡ some q → after_slash (p +++ s) ≡ some (q +++ s)
unfolding after_slash
after_slash-append [] q s h = cc
after_slash-append (c ∷ p) q s h = elim (Bool-cases (code c == b'/')) [
  | inl e ↦
      rw (append.cons, after_slash, e)
        (ap (λ t. some (t +++ s)) (some-injective _ _ (rw (after_slash, e) at h)))
  | inr e ↦ rw (append.cons, after_slash, e) (after_slash-append p q s (rw (after_slash, e) at h))
]

parse_revision_branch : (branch : String) → parse_revision ("refs/heads/" +++ branch) ≡ branch
unfolding parse_revision after_slash
parse_revision_branch branch =
    rw
      (
        parse_revision,
        after_slash-append "refs/heads/" "heads/" branch refl,
        after_slash-append "heads/" "" branch refl,
        append.nil branch,
      )
      refl

get_git_generator_info_fields :
    (parse : ParseUrl) (compile : Compile) (payload : Payload) (info : GitGeneratorInfo)
    (default_branch ref : String)
    → get_git_generator_info parse compile payload ≡ ok (some info)
    → pushed payload ≡ some (default_branch, ref)
    → (info.revision ≡ "") × (info.touched_head ≡ str_eq default_branch (parse_revision ref))
unfolding get_git_generator_info
get_git_generator_info_fields parse compile (github_push url b r) info default_branch ref e same =
    let (revision, touched) = git_info_fields parse compile _ url info e in
    let is = some-injective _ _ same in
    (revision, touched ∙ ap (λ t. str_eq t.0 (parse_revision t.1)) is)
get_git_generator_info_fields parse compile (gitlab_push url b r) info default_branch ref e same =
    let (revision, touched) = git_info_fields parse compile _ url info e in
    let is = some-injective _ _ same in
    (revision, touched ∙ ap (λ t. str_eq t.0 (parse_revision t.1)) is)
get_git_generator_info_fields parse compile (github_pull_request a u n o) info default_branch ref e
      same =
    cc
get_git_generator_info_fields parse compile other_payload info default_branch ref e same = cc

-- A push to a branch, of GitHub or GitLab, refreshes a git generator exactly if the expression of
-- its repository matches, the generator follows the head, and the branch is the default branch of
-- the repository. So a generator that follows another revision is never refreshed, not even by a
-- push to that revision.
pub should_refresh-push :
    (parse : ParseUrl) (compile : Compile) (payload : Payload) (info : GitGeneratorInfo)
    (gen : GitGenerator) (default_branch branch : String)
    → pushed payload ≡ some (default_branch, "refs/heads/" +++ branch)
    → get_git_generator_info parse compile payload ≡ ok (some info)
    → should_refresh_git_generator (some gen) (some info)
      ≡ (info.repo_regexp gen.repo_url && (follows_head gen && str_eq default_branch branch))
unfolding should_refresh_git_generator gen_revision_has_changed
should_refresh-push parse compile payload info gen default_branch branch same e =
    let (revision, touched) =
      get_git_generator_info_fields parse compile payload info default_branch _ e same in
    let head = touched ∙ ap (str_eq default_branch) (parse_revision_branch branch) in
    ground (arith, is_empty-str_eq (parse_revision gen.revision), revision, head)
