-- ===== src/Domain/Errors.antt =====
-- internal/domain/errors.go: the error type that crosses the layers, and the collector of field
-- errors. A message is its format string: what fmt.Sprintf fills in is left out, and so is the
-- wrapped cause, which only the log reads.
use khel_arena.Prelude.{
  ◌≡◌, refl, Bool, Option, none, some, List, [], ◌∷◌, ◌++◌, map, String, if◌then◌else◌,
}
use text.Mathlib.Text.{◌==◌ as str_eq}

pub data Code : Type 0 where
  code_invalid code_unauthenticated code_forbidden code_not_found : Code
  code_conflict code_rate_limited code_unavailable code_internal : Code

-- An error that names one field, as `Invalid` builds it.
pub record FieldError : Type 0 where
  pub field : String
  pub message : String

-- `message` is a list: `Err` joins the messages of several fields.
pub record Error : Type 0 where
  pub code : Code
  pub field : String
  pub message : List String
  pub fields : List FieldError

-- A call that returns a value and an `error`: the error if there is one, and otherwise the value.
pub data Result {ℓ} (Value : Type ℓ) : Type ℓ where
  err : Error → Result Value
  ok : Value → Result Value

-- `v, err := m; if err != nil { return err }`, and the rest of the function on v.
infixl 5 ◌>>=◌
abbrev pub ◌>>=◌ {ℓ κ} :
    {Value : Type ℓ} {Next : Type κ} → Result Value → (Value → Result Next) → Result Next
err e >>= rest = err e
ok v >>= rest = rest v

-- The same where the value is of no use.
infixl 5 ◌>>◌
abbrev pub ◌>>◌ {ℓ} : {Next : Type ℓ} → Result (Unit {0}) → Result Next → Result Next
m >> rest = m >>= λ done. rest

-- `if err := check; err != nil { return err }`
abbrev pub refuse : Option Error → Result (Unit {0})
refuse none = ok tt
refuse (some e) = err e

abbrev plain : Code → String → Error
plain c m = record { code = c; field = ""; message = m ∷ []; fields = [] }

unfoldable pub of_field : FieldError → Error
of_field f = record { code = code_invalid; field = f.field; message = f.message ∷ []; fields = [] }

unfoldable pub invalid : String → String → Error
unfolding of_field
invalid f m = of_field (record { field = f; message = m })

unfoldable pub unauthenticated : String → Error
unauthenticated = plain code_unauthenticated

unfoldable pub forbidden : String → Error
forbidden = plain code_forbidden

unfoldable pub not_found : String → Error
not_found = plain code_not_found

unfoldable pub conflict : String → Error
conflict = plain code_conflict

unfoldable pub rate_limited : String → Error
rate_limited = plain code_rate_limited

unfoldable pub unavailable : String → Error
unavailable = plain code_unavailable

-- The message of a defect does not depend on what went wrong.
unfoldable pub internal : Error
internal = plain code_internal "Something went wrong on our end. Please try again."

abbrev is_empty : String → Bool
is_empty s = str_eq s ""

-- `(*Error).FieldErrors`
unfoldable pub field_errors : Error → List FieldError
field_errors e = elim e.fields [
  | [] ↦
      if is_empty e.field then [] else map (λ m. record { field = e.field; message = m }) e.message
  | f ∷ fs ↦ f ∷ fs
]

abbrev pub Validation : Type 0
Validation = List FieldError

unfoldable pub check : Validation → Bool → String → String → Validation
check v c f m = if c then v else v ++ record { field = f; message = m } ∷ []

unfoldable pub add : Validation → String → String → Validation
add v f m = v ++ record { field = f; message = m } ∷ []

abbrev message_of : FieldError → String
message_of f = f.message

unfoldable pub validation_err : Validation → Option Error
unfolding of_field
validation_err [] = none
validation_err (f ∷ []) = some (of_field f)
validation_err (f ∷ g ∷ fs) = some (record {
  code = code_invalid;
  field = f.field;
  message = map message_of (f ∷ g ∷ fs);
  fields = f ∷ g ∷ fs;
})

-- A function that returned without an error did so in each of its calls.
pub >>=-eq-ok {ℓ κ} :
    {Value : Type ℓ} {Next : Type κ} (m : Result Value) (rest : Value → Result Next) {result : Next}
    → (m >>= rest) ≡ ok result
    → (v : Value) × (m ≡ ok v) × (rest v ≡ ok result)
>>=-eq-ok (err e) rest h = cc
>>=-eq-ok (ok v) rest h = (v, refl, h)

pub result-intro {ℓ κ μ} :
    {A : Type ℓ} {B : Type κ} (P : A → Type μ) (o : Result B) (x : Error → A) (f : B → A)
    → ((e : Error) → P (x e))
    → ((b : B) → o ≡ ok b → P (f b))
    → P (elim o [ err e ↦ x e | ok b ↦ f b ])
result-intro P (err e) x f h k = h e
result-intro P (ok b) x f h k = k b refl

pub ok-eq {ℓ} : {A : Type ℓ} {a b : A} → ok a ≡ ok b → a ≡ b
ok-eq h = cc
