-- ===== src/Authorization/Principal.antt =====
-- authorization/principal_extractor/cel_principal_extractor.rs: the principal that a CEL program computes from
-- the claims. The program and its values are the `cel` crate's, a record of functions.
use contextforge_data_plane.Prelude.{
  Str, str, List, [], Option, none, some, Result, ok, err, ◌>>=◌, ◌++◌,
}
use contextforge_data_plane.Json.{Value}

pub data CelPrincipalExtractorError : Type 0 where
  file_read_error : Str → CelPrincipalExtractorError
  compilation_error : Str → CelPrincipalExtractorError
  evaluation_error : Str → CelPrincipalExtractorError
  invalid_return_type : CelPrincipalExtractorError

pub record AuthorizedPrincipal : Type 0 where
  pub user_id : Str
  pub tenant_id : Str
  pub scopes : List Str

-- P are the programs of `cel`, V its values: a value may be a map, of which a key is looked up, or a text.
pub record CelCrate (P V : Type 0) : Type 0 where
  pub compile : Str → Result Str P
  pub add_claims : Value → Result Str Value
  pub execute : P → Value → Result Str V
  pub map_entry : V → Str → Option V
  pub as_string : V → Option Str

module _ {P V : Type 0} (cel : CelCrate P V) where
  abbrev text_entry : V → Str → Option Str
  text_entry value key = elim (cel.map_entry value key) [ none ↦ none | some v ↦ cel.as_string v ]

  abbrev principal_of :
      Option Str → Option Str → Result CelPrincipalExtractorError AuthorizedPrincipal
  principal_of (some user_id) (some tenant_id) =
      ok (record { user_id = user_id; tenant_id = tenant_id; scopes = [] })
  principal_of _ _ = err invalid_return_type

  -- `AuthorizedPrincipal::try_from`: a value that is no map has no entries.
  unfoldable pub try_from : V → Result CelPrincipalExtractorError AuthorizedPrincipal
  try_from value =
      principal_of (text_entry value (str "user_id")) (text_entry value (str "tenant_id"))

  abbrev map_err :
      {A : Type 0}
      → (Str → CelPrincipalExtractorError)
      → Result Str A
      → Result CelPrincipalExtractorError A
  map_err f (ok a) = ok a
  map_err f (err e) = err (f e)

  unfoldable pub from_expression : Str → Result CelPrincipalExtractorError P
  from_expression expression = map_err compilation_error (cel.compile expression)

  unfoldable pub extract : P → Value → Result CelPrincipalExtractorError AuthorizedPrincipal
  unfolding try_from
  extract program claims = do
    context ←
        map_err (λ e. evaluation_error (str "Failed to add claims variable: " ++ e))
          (cel.add_claims claims)
    value ← map_err evaluation_error (cel.execute program context)
    try_from value
