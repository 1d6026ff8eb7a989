-- ===== src/Json.antt =====
-- The JSON library nlohmann::json, which src/config/config.cpp, src/ai/ai_protocol.cpp and
-- src/app/ai_process_supervisor.cpp call, as an interface. Each call that can throw gives an `Option`.
pub mod Small
use Prim.Native.String.{String}
use ips_with_ai.Prelude.{◌>>=◌, ℕ, Bool, false, Option, some, List, if◌then◌else◌}

pub data ℤ : Type 0 where
  pos negsuc : ℕ → ℤ

-- What the sources call of the library, for a type of values `J`. `get_int` is `get<int>()`, and
-- `parse_bytes` is `parse` of a pointer range.
pub record JsonLibrary (J : Type 0) : Type 0 where
  pub parse : String → Option J
  pub parse_bytes : List ℕ → Option J
  pub object : J
  pub is_object : J → Bool
  pub is_boolean : J → Bool
  pub is_string : J → Bool
  pub is_number : J → Bool
  pub is_number_unsigned : J → Bool
  pub is_number_integer : J → Bool
  pub contains : J → String → Bool
  pub at : J → String → Option J
  pub get_unsigned : J → ℕ
  pub get_signed : J → ℤ
  pub get_int : J → ℤ
  pub get_bool : J → Bool
  pub get_string : J → String
  pub value : J → String → J → Option J
  pub value_bool : J → String → Bool → Option Bool
  pub value_string : J → String → String → Option String
  pub value_strings : J → String → List String → Option (List String)
  -- `std::string::empty`
  pub is_empty : String → Bool

module _ {J : Type 0} (json : JsonLibrary J) where
  -- `object.contains(key) && p(object.at(key))`
  unfoldable pub holds : J → String → (J → Bool) → Option Bool
  holds object key p =
      if json.contains object key then (do v ← json.at object key; some (p v)) else some false
