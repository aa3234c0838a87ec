-- ===== src/Services/Pages/Laws.antt =====
-- The loops over pages end, and visit each page once.
use applicationset.Prelude.{
  ℕ, zero, suc, ◌+◌, ◌≤◌, ◌<◌, ◌≡◌, refl, sym, ◌∙◌, ap, true, false, List, [], ◌++◌, ◌⊎◌, inl, inr,
  arith, Bool-cases,
}
use mathlib.Core.Path.{subst}
use mathlib.Core.Bool.{true≢false}
use mathlib.Core.List.{append_assoc}
use applicationset.Errors.{Error, Result, ok, err, panic}
use applicationset.Errors.Laws.{ok-injective}
use applicationset.Services.Pages.{Run, done, out_of_fuel, ◌>>=◌, wrap_run, Page, collect_pages}

-- The run has a result.
abbrev pub IsDone {ℓ} : {A : Type ℓ} → Run A → Type 0
IsDone (done r) = Unit
IsDone out_of_fuel = ⊥

IsDone-result {ℓ} : {A : Type ℓ} (r : Run A) → IsDone r → (a : Result A) × (r ≡ done a)
IsDone-result (done a) h = (a, refl)
IsDone-result out_of_fuel h = absurd h

done_or {ℓ} : {A : Type ℓ} → Result A → Run A → Result A
done_or d (done r) = r
done_or d out_of_fuel = d

pub done-ok {ℓ} : {A : Type ℓ} {r s : Result A} → done r ≡ done s → r ≡ s
done-ok {s = s} e = unfold done_or in ap (done_or s) e

pub bind-IsDone {ℓ κ} :
    {A : Type ℓ} {B : Type κ} (r : Run A) (f : A → Run B)
    → IsDone r
    → ((a : A) → r ≡ done (ok a) → IsDone (f a))
    → IsDone (r >>= f)
bind-IsDone (done (ok a)) f h k = k a refl
bind-IsDone (done (err e)) f h k = tt
bind-IsDone (done panic) f h k = tt
bind-IsDone out_of_fuel f h k = h

-- A chain that returns a value has a first step that does.
pub bind-done {ℓ κ} :
    {A : Type ℓ} {B : Type κ} (r : Run A) {f : A → Run B} {b : B}
    → (r >>= f) ≡ done (ok b)
    → (a : A) × (r ≡ done (ok a)) × (f a ≡ done (ok b))
bind-done (done (ok a)) h = (a, refl, h)
bind-done (done (err e)) h = cc
bind-done (done panic) h = cc
bind-done out_of_fuel h = cc

-- The answer to the question for a page is an error, the last page, or names a later page, at most
-- `last`.
abbrev pub Leads {ℓ} : {A : Type ℓ} → ℕ → ℕ → Result (Page A) → Type 0
Leads last page (ok p) = (p.is_last ≡ true) ⊎ ((page < p.next) × (p.next ≤ last))
Leads last page (err e) = Unit
Leads last page panic = Unit

module _ {ℓ κ} {A : Type ℓ} {B : Type κ} (fetch : ℕ → Result (Page A))
    (absorb : List A → Run (List B)) where
  -- What a server promises: behind a page that is not the last one there is a later page, and no
  -- page is later than `last`.
  abbrev pub EndsBy : ℕ → Type 0
  EndsBy last = (page : ℕ) → Leads last page (fetch page)

  -- `Visits page out`: from this page on the pages are read one after the other up to the last one,
  -- and `out` is what they give.
  pub data Visits : ℕ → List B → Type (ℓ ⊔ κ) where
    stop :
        {page : ℕ} {p : Page A} {found : List B}
        → fetch page ≡ ok p
        → p.is_last ≡ true
        → absorb p.items ≡ done (ok found)
        → Visits page found
    go_on :
        {page : ℕ} {p : Page A} {found rest : List B}
        → fetch page ≡ ok p
        → p.is_last ≡ false
        → absorb p.items ≡ done (ok found)
        → Visits p.next rest
        → Visits page (found ++ rest)

  -- What the loop returns, unless it fails, is what the pages give from the first to the last one.
  pub data IsComplete : Result (List B) → Type (ℓ ⊔ κ) where
    complete : {out : List B} → Visits 0 out → IsComplete (ok out)
    failed : {e : Error} → IsComplete (err e)
    panicked : IsComplete panic

  pub collect_pages-IsDone :
      (last fuel page : ℕ) (res : List B)
      → EndsBy last
      → ((items : List A) → IsDone (absorb items))
      → page ≤ last
      → last < fuel + page
      → IsDone (collect_pages fetch absorb fuel page res)
  unfolding collect_pages
  collect_pages-IsDone last zero page res ends absorbs h enough = absurd (omega arith)
  collect_pages-IsDone last (suc fuel) page res ends absorbs h enough =
      bind-IsDone (done (fetch page)) _ tt λ p fetched.
        bind-IsDone (absorb p.items) _ (absorbs p.items) λ found absorbed.
          elim (Bool-cases p.is_last) [
            | inl e ↦ rw e tt
            | inr e ↦ rw e (elim (subst (Leads last page) (done-ok fetched) (ends page)) [
              | inl e' ↦ absurd (true≢false (sym e' ∙ e))
              | inr later ↦
                  collect_pages-IsDone last fuel p.next (res ++ found) ends absorbs later.1
                    (omega (arith, later.0, enough))
            ])
          ]

  collect_pages-Visits :
      (fuel page : ℕ) (res out : List B)
      → collect_pages fetch absorb fuel page res ≡ done (ok out)
      → (rest : List B) × (out ≡ res ++ rest) × Visits page rest
  unfolding collect_pages
  collect_pages-Visits zero page res out h = cc
  collect_pages-Visits (suc fuel) page res out h =
      let (p, fetched, h1) = bind-done (done (fetch page)) h in
      let (found, absorbed, h2) = bind-done (absorb p.items) h1 in
      elim (Bool-cases p.is_last) [
        | inl e ↦
            (found, sym (ok-injective (done-ok (rw e at h2))), stop (done-ok fetched) e absorbed)
        | inr e ↦
            let (rest, same, visits) =
              collect_pages-Visits fuel p.next (res ++ found) out (rw e at h2) in
            (
              found ++ rest,
              same ∙ append_assoc res found rest,
              go_on (done-ok fetched) e absorbed visits,
            )
      ]

  -- If the pages of a server end by page `last` and the items of a page are always absorbed, then
  -- more than `last` turns of the loop are enough: it returns, and if it returns items, they are what
  -- the pages give one after the other from the first one to the last one.
  pub collect_pages-ends :
      (last fuel : ℕ)
      → last < fuel
      → EndsBy last
      → ((items : List A) → IsDone (absorb items))
      → (r : Result (List B)) × (collect_pages fetch absorb fuel 0 [] ≡ done r) × IsComplete r
  collect_pages-ends last fuel enough ends absorbs =
      let finished =
        collect_pages-IsDone last fuel 0 [] ends absorbs (omega arith) (omega (arith, enough)) in
      let (r, e) = IsDone-result (collect_pages fetch absorb fuel 0 []) finished in
      (r, e, completed r e)
    where
      completed :
          (r : Result (List B)) → collect_pages fetch absorb fuel 0 [] ≡ done r → IsComplete r
      completed (ok out) e =
          let (rest, same, visits) = collect_pages-Visits fuel 0 [] out e in
          complete (subst (Visits 0) (sym same) visits)
      completed (err x) e = failed
      completed panic e = panicked

pub IsDone-wrap_run {ℓ} :
    {A : Type ℓ} (text : Error → Error) (r : Run A) → IsDone r → IsDone (wrap_run text r)
IsDone-wrap_run text (done (ok a)) h = tt
IsDone-wrap_run text (done (err e)) h = tt
IsDone-wrap_run text (done panic) h = tt
IsDone-wrap_run text out_of_fuel h = h

-- The same for a loop whose errors are wrapped.
module _ {ℓ κ} {A : Type ℓ} {B : Type κ} (fetch : ℕ → Result (Page A))
    (absorb : List A → Run (List B)) where
  pub wrapped_pages-ends :
      (text : Error → Error) (last fuel : ℕ)
      → last < fuel
      → EndsBy fetch absorb last
      → ((items : List A) → IsDone (absorb items))
      → (r : Result (List B)) × (wrap_run text (collect_pages fetch absorb fuel 0 []) ≡ done r)
        × IsComplete fetch absorb r
  wrapped_pages-ends text last fuel enough ends absorbs =
      let (r, e, visits) = collect_pages-ends fetch absorb last fuel enough ends absorbs in
      go r e visits
    where
      go :
          (r : Result (List B))
          → collect_pages fetch absorb fuel 0 [] ≡ done r
          → IsComplete fetch absorb r
          → (s : Result (List B)) × (wrap_run text (collect_pages fetch absorb fuel 0 []) ≡ done s)
            × IsComplete fetch absorb s
      go (ok out) e c = (ok out, ap (wrap_run text) e, c)
      go (err x) e c = (err (text x), ap (wrap_run text) e, failed)
      go panic e c = (panic, ap (wrap_run text) e, panicked)
