-- ===== src/External/Validation.antt =====
-- class-validator and the `ValidationPipe` of NestJS, as a parameter: a DTO class is the list of its
-- properties with their decorators.
use saas_chassis.Prelude.{
  ℕ, String, ◌≡◌, refl, inl, inr, not, arith, eq_iff, Bool-cases, Bool, true, false, ◌&&◌, ◌||◌,
  Option, none, some, List, [], ◌∷◌, map, all, any, includes, ◌==◌, if◌then◌else◌,
}

-- The decorators that the DTO classes use; `matches` has the source of a regular expression.
pub data Decorator : Type 0 where
  is_string is_not_empty is_optional is_boolean is_object is_email is_uuid is_url : Decorator
  min_length max_length : ℕ → Decorator
  matches : String → Decorator

-- The declared type of a property, to which the pipe converts a value before the decorators see it.
pub data PropertyType : Type 0 where
  text flag object : PropertyType

pub record Property : Type 0 where
  pub name : String
  pub type : PropertyType
  pub decorators : List Decorator

abbrev pub Dto : Type 0
Dto = List Property

-- `of_text` is a text of a JSON body, `accepts` what a decorator says of a value, or of a missing
-- one, `is_null` the test of `null`, and `validate` whether the pipe lets a body pass, with
-- `whitelist` and `forbidNonWhitelisted`.
pub record Validator : Type 1 where
  pub Value : Type 0
  pub of_text : String → Value
  pub is_null : Value → Bool
  pub accepts : PropertyType → Decorator → Option Value → Bool
  pub validate : Dto → List (String × Value) → Bool

abbrev is_optional_mark : Decorator → Bool
is_optional_mark is_optional = true
is_optional_mark _ = false

-- The value of a property of a body.
abbrev pub value_of : {V : Type 0} → String → List (String × V) → Option V
value_of name [] = none
value_of name ((key, v) ∷ body) = if key == name then some v else value_of name body

abbrev pub is_known : Dto → String → Bool
is_known dto key = includes (map (λ p. p.name) dto) key

abbrev is_missing : {V : Type 0} → (V → Bool) → Option V → Bool
is_missing is_null none = true
is_missing is_null (some x) = is_null x

-- `@IsOptional()` switches the other decorators off where the value is missing, and
-- asks for nothing itself.
unfoldable pub meets :
    {V : Type 0}
    → (V → Bool)
    → (PropertyType → Decorator → Option V → Bool)
    → Option V
    → Property
    → Bool
meets is_null accepts value p =
    (any is_optional_mark p.decorators && is_missing is_null value)
    || all (λ d. is_optional_mark d || accepts p.type d value) p.decorators

-- What the documentation says: a body passes that has no property but those of the class, and
-- whose values the decorators accept.
pub record IsValidator (v : Validator) : Type 0 where
  pub validate_lem :
      (dto : Dto) (body : List (String × v.Value))
      → v.validate dto body ≡ (
          all (λ (key, _). is_known dto key) body
          && all (λ p. meets v.is_null v.accepts (value_of p.name body) p) dto)

-- A body whose keys are all in a DTO has no value for another key.
pub no_value :
    {V : Type 0} (known : String → Bool) (name : String) (body : List (String × V))
    → known name ≡ false
    → all (λ (key, _). known key) body ≡ true
    → value_of name body ≡ none
no_value known name [] out h = refl
no_value known name ((key, x) ∷ body) out h = elim (Bool-cases (key == name)) [
  | inl e ↦ ground (arith, eq_iff key name)
  | inr e ↦ rw e (no_value known name body out (ground arith))
]

pub all_mono :
    {A : Type 0} (p q : A → Bool) (xs : List A)
    → ((x : A) → p x ≡ true → q x ≡ true)
    → all p xs ≡ true
    → all q xs ≡ true
all_mono p q [] imp h = refl
all_mono p q (x ∷ xs) imp h = ground (arith, imp x, all_mono p q xs imp)

-- A validator of texts that knows an empty one from the others, for the examples.
abbrev text_accepts : PropertyType → Decorator → Option String → Bool
text_accepts type d none = false
text_accepts type is_not_empty (some s) = not (s == "")
text_accepts type _ (some s) = true

abbrev pub text_validator : Validator
text_validator = record {
  Value = String;
  of_text = λ s. s;
  is_null = λ s. false;
  accepts = text_accepts;
  validate = λ dto body.
      all (λ (key, _). is_known dto key) body
      && all (λ p. meets (λ s. false) text_accepts (value_of p.name body) p) dto;
}

pub text_validator-IsValidator : IsValidator text_validator
text_validator-IsValidator = record { validate_lem = λ dto body. refl }
