-- ===== src/App/ErrorTemplate.antt =====
-- app/src/error_template.rs: the page for errors, and the status that it sets.
use yaffle.Base.{
  ℕ, ◌≡◌, ◌↔◌, ◌⊎◌, ap, ◌∙◌, Option-cases, inl, inr, refl, Bool, true, false, List, [], ◌∷◌, Option,
  none, some, Bytes, map, length, ltb, codes, if◌then◌else◌,
}
use mathlib.Core.Option.{some_inj}

-- `enum AppError`
pub data AppError : Type 0 where
  not_found : AppError

unfoldable pub status_code : AppError → ℕ
status_code not_found = 404

-- its `Display`
unfoldable pub to_string : AppError → Bytes
to_string not_found = codes "Not Found"

pub record ErrorPage : Type 0 where
  pub set_status : Option ℕ
  pub heading : Bytes
  pub items : List (ℕ × Bytes)

-- `Errors` is a list; `downcast` tells an `AppError` among them.
module _ {E : Type 0} (downcast : E → Option AppError) where
  abbrev keep : Option AppError → List AppError → List AppError
  keep none errors = errors
  keep (some e) errors = e ∷ errors

  abbrev pub app_errors : List E → List AppError
  app_errors [] = []
  app_errors (e ∷ errors) = keep (downcast e) (app_errors errors)

  -- the argument from outside, or else the boundary's; none is a panic
  abbrev pub given : Option (List E) → Option (List E) → Option (List E)
  given (some e) errors = some e
  given none errors = errors

  abbrev page : Option ℕ → List AppError → ErrorPage
  page status errors = record {
    set_status = status;
    heading = if ltb 1 (length errors) then codes "Errors" else codes "Error";
    items = map (λ e. (status_code e, to_string e)) errors;
  }

  -- `errors[0]` is read if there is a response.
  abbrev with_status : Bool → List AppError → Option ErrorPage
  with_status false errors = some (page none errors)
  with_status true [] = none
  with_status true (e ∷ errors) = some (page (some (status_code e)) (e ∷ errors))

  abbrev on_given : Bool → Option (List E) → Option ErrorPage
  on_given response none = none
  on_given response (some errors) = with_status response (app_errors errors)

  -- `ErrorTemplate`; `none` is a panic.
  unfoldable pub error_template :
      (response : Bool) (outside_errors errors : Option (List E)) → Option ErrorPage
  unfolding status_code to_string
  error_template response outside_errors errors = on_given response (given outside_errors errors)

  with_status-none :
      (response : Bool) (errors : List AppError)
      → (with_status response errors ≡ none) ↔ ((response ≡ true) × (errors ≡ []))
  with_status-none true [] = (λ h. (refl, refl), λ h. refl)
  with_status-none true (e ∷ errors) = (λ h. cc h, λ h. let (a, b) = h in cc b)
  with_status-none false errors = (λ h. cc h, λ h. let (a, b) = h in cc a)

  -- The page panics just when it is given no errors, or there is a response whose status is to be
  -- set and none of the errors that it is given is one of the application's.
  pub error_template-none :
      (response : Bool) (outside_errors errors : Option (List E))
      → (error_template response outside_errors errors ≡ none) ↔ (
          (given outside_errors errors ≡ none)
          ⊎ ((l : List E) × (given outside_errors errors ≡ some l)
              × (response ≡ true)
              × (app_errors l ≡ [])))
  unfolding error_template
  error_template-none response outside_errors errors =
      elim (Option-cases (given outside_errors errors)) [
        | inl absent ↦ rw absent (λ h. inl refl, λ h. refl)
        | inr (l, there) ↦ rw there (
          λ h. let (a, b) = (with_status-none response (app_errors l)).0 h in inr (l, refl, a, b),
          back response l,
        )
      ]
    where
      back :
          (response : Bool) (l : List E)
          → (some l ≡ none)
            ⊎ ((k : List E) × (some l ≡ some k) × (response ≡ true) × (app_errors k ≡ []))
          → with_status response (app_errors l) ≡ none
      back response l (inl h) = cc h
      back response l (inr (k, same, a, b)) =
          (with_status-none response (app_errors l)).1 (a, ap app_errors (some_inj.0 same) ∙ b)
