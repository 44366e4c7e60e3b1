-- ===== src/Domain/Arena.antt =====
-- The venues and courts of internal/domain/arena.go, and what Validate asks of them. A coordinate is a
-- whole number of nanodegrees, without the rounding of a float64.
use khel_arena.Prelude.{
  ℕ, ◌*◌, Bool, true, ◌&&◌, not, Option, none, some, List, [], ◌∷◌, ◌++◌, ℤ, pos, negsuc, leb_ℤ,
  ltb_ℤ, leb, String, if◌then◌else◌, any, length, ◌-◌,
}
use text.Mathlib.Text.{◌==◌ as str_eq}
use khel_arena.Domain.Errors.{Error, FieldError, Validation, check, validation_err}
use khel_arena.Domain.Text.{Text, trim_space}
use khel_arena.Domain.User.{is_blank}
use khel_arena.Domain.Slug.{slugify, valid_slug}
use khel_arena.Domain.Slot.DayTime.{DayTime}
use khel_arena.Domain.Slot.DayTime

pub record Arena : Type 0 where
  pub id : ℕ
  pub owner_id : ℕ
  pub name : Text
  pub slug : Text
  pub area : Text
  pub city : Text
  pub lat : Option ℤ
  pub lng : Option ℤ
  pub description : Text
  pub cover_url : Text
  pub amenities : List Text
  pub phone : Text
  pub opens_at : DayTime
  pub closes_at : DayTime
  pub is_active : Bool

pub record Court : Type 0 where
  pub id : ℕ
  pub arena_id : ℕ
  pub label : Text
  pub sport : String
  pub surface : String
  pub side_count : ℤ
  pub base_price_npr : ℤ
  pub is_active : Bool

-- "Kathmandu"
abbrev pub kathmandu_city : Text
kathmandu_city = 75 ∷ 97 ∷ 116 ∷ 104 ∷ 109 ∷ 97 ∷ 110 ∷ 100 ∷ 117 ∷ []

-- The arena as Validate leaves it.
unfoldable pub clean_arena : Arena → Arena
unfolding trim_space slugify
clean_arena a =
    let name : Text = trim_space a.name in
    let city : Text = trim_space a.city in
    record a {
      name = name;
      area = trim_space a.area;
      city = if is_blank city then kathmandu_city else city;
      slug = if is_blank a.slug then slugify name else a.slug;
    }

-- A number of degrees.
abbrev pub degrees : ℕ → ℕ
degrees n = n * 1000000000

-- Between -n and n degrees, where it is given.
abbrev pub within_degrees : ℕ → Option ℤ → Bool
within_degrees n none = true
within_degrees n (some x) = leb_ℤ (negsuc (degrees n - 1)) x && leb_ℤ x (pos (degrees n))

-- `if err != nil { v.fields = append(v.fields, err.(*Error)) }`
abbrev pub note : Validation → Option FieldError → Validation
note v none = v
note v (some f) = v ++ f ∷ []

unfoldable pub validate_arena : Arena → Option Error
unfolding trim_space valid_slug DayTime.before DayTime.validate
validate_arena a =
    let v = check [] (leb 2 (length a.name)) "name" "Give the arena a name." in
    let v₁ = check v (leb (length a.name) 80) "name" "That name is too long." in
    let v₂ = check v₁ (not (is_blank a.area)) "area" "Which area is the arena in?" in
    let v₃ =
      check v₂ (valid_slug a.slug) "slug"
        "The web address may use lowercase letters, numbers and hyphens only." in
    let v₄ =
      check v₃ (leb (length a.description) 2000) "description"
        "Keep the description under 2000 characters." in
    let v₅ =
      check v₄ (DayTime.before a.opens_at a.closes_at) "closes_at"
        "Closing time must be after opening time." in
    let v₆ = note (note v₅ (DayTime.validate a.opens_at)) (DayTime.validate a.closes_at) in
    let v₇ = check v₆ (within_degrees 90 a.lat) "lat" "Latitude must be between -90 and 90." in
    let v₈ = check v₇ (within_degrees 180 a.lng) "lng" "Longitude must be between -180 and 180." in
    validation_err (
      check v₈ (not (any (λ x. is_blank (trim_space x)) a.amenities)) "amenities"
        "Amenities can't be blank.")

abbrev pub sports : List String
sports = "futsal" ∷ "basketball" ∷ "badminton" ∷ "cricket_net" ∷ "tennis" ∷ []

-- validateEnum, and `(Sport).Validate`
unfoldable pub validate_enum : String → String → List String → Option FieldError
validate_enum field value allowed =
    if str_eq value ""
    then some (record { field = field; message = "A %s is required." })
    else if any (str_eq value) allowed
    then none
    else some (record { field = field; message = "%q is not a valid %s. Expected one of: %s." })

-- The court as Validate leaves it.
unfoldable pub clean_court : Court → Court
unfolding trim_space
clean_court c = record c {
  label = trim_space c.label;
  sport = if str_eq c.sport "" then "futsal" else c.sport;
  surface = if str_eq c.surface "" then "artificial_turf" else c.surface;
}

unfoldable pub validate_court : Court → Option Error
unfolding validate_enum
validate_court c =
    let v = check [] (not (is_blank c.label)) "label" "Name the court, like \"Court A\"." in
    let v₁ = check v (leb (length c.label) 40) "label" "That court name is too long." in
    let v₂ =
      check v₁ (leb_ℤ (pos 3) c.side_count && leb_ℤ c.side_count (pos 11)) "side_count"
        "Team size must be between 3 and 11 a side." in
    let v₃ =
      check v₂ (ltb_ℤ (pos 0) c.base_price_npr) "base_price" "Set an hourly price above zero." in
    validation_err (note v₃ (validate_enum "sport" c.sport sports))
