-- ===== src/Services/Pages.antt =====
-- The loops over the pages of a list, as pkg/services/pull_request/github.go and
-- pkg/services/scm_provider/github.go and gitlab.go write them.
pub mod Laws
use applicationset.Prelude.{
  ℕ, zero, suc, ◌==◌, Bool, true, false, List, [], ◌∷◌, ◌++◌, if◌then◌else◌,
}
use applicationset.Errors.{Error, Result, ok, err, panic}

-- A run on bounded fuel: it has a result, or the fuel ends first.
pub data Run {ℓ} (A : Type ℓ) : Type ℓ where
  done : Result A → Run A
  out_of_fuel : Run A

infixl 5 ◌>>=◌
abbrev pub ◌>>=◌ {ℓ κ} : {A : Type ℓ} {B : Type κ} → Run A → (A → Run B) → Run B
done (ok a) >>= f = f a
done (err e) >>= f = done (err e)
done panic >>= f = done panic
out_of_fuel >>= f = out_of_fuel

-- `wrap` of the errors of a run
abbrev pub wrap_run {ℓ} : {A : Type ℓ} → (Error → Error) → Run A → Run A
wrap_run text (done (ok a)) = done (ok a)
wrap_run text (done (err e)) = done (err (text e))
wrap_run text (done panic) = done panic
wrap_run text out_of_fuel = out_of_fuel

-- One page: its items, whether the loop ends with it, and the page that is asked next.
pub record Page {ℓ} (A : Type ℓ) : Type ℓ where
  pub items : List A
  pub is_last : Bool
  pub next : ℕ

-- An answer of GitHub: the items and `resp.NextPage`, which is 0 on the last page.
abbrev pub github_page {ℓ} : {A : Type ℓ} → Result (List A × ℕ) → Result (Page A)
github_page (ok (items, next)) = ok (record { items = items; is_last = next == 0; next = next })
github_page (err e) = err e
github_page panic = panic

module _ {ℓ κ} {A : Type ℓ} {B : Type κ} (fetch : ℕ → Result (Page A))
    (absorb : List A → Run (List B)) where
  -- The loop, from a page on; `absorb` is the loop over the items, and `res` what it appends to.
  unfoldable pub collect_pages : ℕ → ℕ → List B → Run (List B)
  collect_pages zero page res = out_of_fuel
  collect_pages (suc fuel) page res = do
    p ← done (fetch page)
    found ← absorb p.items
    elim p.is_last [
      | true ↦ done (ok (res ++ found))
      | false ↦ collect_pages fuel p.next (res ++ found)
    ]
