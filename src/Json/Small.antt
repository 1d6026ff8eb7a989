-- ===== src/Json/Small.antt =====
-- Two small JSON libraries for concrete runs: a value is a number, or an object that has no keys in the
-- first and all keys in the second.
use ips_with_ai.Prelude.{true, false, none, some}
use ips_with_ai.Json.{JsonLibrary, ℤ, pos}

pub data Value : Type 0 where
  number : ℤ → Value
  braces : Value

-- Every text is the empty object, and `at` gives a number.
abbrev pub small : JsonLibrary Value
small = record {
  parse = λ text. some braces;
  parse_bytes = λ text. some braces;
  is_number = λ v. elim v [ number z ↦ true | braces ↦ false ];
  get_int = λ v. elim v [ number z ↦ z | braces ↦ pos 0 ];
  get_bool = λ v. false;
  get_string = λ v. "";
  object = braces;
  is_object = λ v. elim v [ number z ↦ false | braces ↦ true ];
  is_boolean = λ v. false;
  is_string = λ v. false;
  is_number_unsigned = λ v. false;
  is_number_integer = λ v. elim v [ number z ↦ true | braces ↦ false ];
  contains = λ v key. false;
  at = λ v key. none;
  get_unsigned = λ v. 0;
  get_signed = λ v. elim v [ number z ↦ z | braces ↦ pos 0 ];
  value = λ v key default_value. some default_value;
  value_bool = λ v key default_value. some default_value;
  value_string = λ v key default_value. some default_value;
  value_strings = λ v key default_value. some default_value;
  is_empty = λ text. false;
}

-- Every text announces the inference process, with its version.
abbrev pub announcing : JsonLibrary Value
announcing = record small {
  contains = λ v key. true;
  at = λ v key. some braces;
  is_string = λ v. true;
  is_number_integer = λ v. true;
  get_int = λ v. pos 1;
  get_string = λ v. "AI_READY";
}
