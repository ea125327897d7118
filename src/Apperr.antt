-- ===== src/Apperr.antt =====
-- pkg/apperr/apperr.go: errors with a kind. A Go `error` is a value of `Error`: a plain error, a
-- `fmt.Errorf("text: %w", err)`, or an `apperr.Error` with or without a cause.
pub mod Laws
use orion_belt.Prelude.{
  Bool, Option, String, false, if◌then◌else◌, inl, inr, none, refl, some, true, ℕ, ◌≡◌, ◌⊎◌,
}
use Prim.Native.String

pub data Kind : Type 0 where
  internal invalid unauthenticated forbidden not_found conflict unavailable : Kind

pub data Error : Type 0 where
  plain : String → Error
  wrapped : String → Error → Error
  kinded : Kind → String → Error
  caused : Kind → String → Error → Error

unfoldable pub kind_name : Kind → String
kind_name internal = "internal"
kind_name invalid = "invalid"
kind_name unauthenticated = "unauthenticated"
kind_name forbidden = "forbidden"
kind_name not_found = "not_found"
kind_name conflict = "conflict"
kind_name unavailable = "unavailable"

unfoldable pub http_status : Kind → ℕ
http_status invalid = 400
http_status unauthenticated = 401
http_status forbidden = 403
http_status not_found = 404
http_status conflict = 409
http_status unavailable = 503
http_status internal = 500

infixr 65 ◌+++◌
abbrev pub ◌+++◌ : String → String → String
s +++ t = String.◌++◌ s t

-- `(*Error).Error`, and the text of the other errors.
unfoldable pub error_text : Error → String
error_text (plain s) = s
error_text (wrapped s e) = s +++ ": " +++ error_text e
error_text (kinded _ s) = s
error_text (caused _ s e) = s +++ ": " +++ error_text e

abbrev pub is_internal : Kind → Bool
is_internal internal = true
is_internal _ = false

-- `errors.As(err, &e)` for `*apperr.Error`: the first kinded error of the chain.
unfoldable pub first_kinded : Error → Option (Kind × String)
first_kinded (plain s) = none
first_kinded (wrapped s e) = first_kinded e
first_kinded (kinded k s) = some (k, s)
first_kinded (caused k s e) = some (k, s)

abbrev pub internal_text : String
internal_text = "internal error"

unfoldable pub kind_of : Error → Kind
unfolding first_kinded
kind_of e = elim (first_kinded e) [ none ↦ internal | some (k, s) ↦ k ]

unfoldable pub message : Error → String
unfolding first_kinded
message e = elim (first_kinded e) [
  | none ↦ internal_text
  | some (k, s) ↦ if is_internal k then internal_text else s
]

-- A Go call that returns a value and an error.
pub data Result {ℓ} (A : Type ℓ) : Type ℓ where
  ok : A → Result A
  err : Error → Result A

abbrev pub invalidf : String → Error
invalidf s = kinded invalid s

abbrev pub forbiddenf : String → Error
forbiddenf s = kinded forbidden s

abbrev pub conflictf : String → Error
conflictf s = kinded conflict s

abbrev pub not_foundf : String → Error
not_foundf s = kinded not_found s

pub Result-cases {ℓ} :
    {A : Type ℓ} (r : Result A) → ((e : Error) × (r ≡ err e)) ⊎ ((a : A) × (r ≡ ok a))
Result-cases (err e) = inl (e, refl)
Result-cases (ok a) = inr (a, refl)
