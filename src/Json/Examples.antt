-- ===== src/Json/Examples.antt =====
-- internal/contractv1/strict_json.go: the walk and the gates at concrete payloads.
use hooshi_xagent.Json.{
  Token, Ending, JsonError, validate_tokens, more, name_of, is_in, close_object_of, close_array_of,
}
use hooshi_xagent.Json.Grammar.{Members, Value, emit_members, Items, head_token, AreFresh}
use hooshi_xagent.Json.Sound.{IsStrictObject, validate_tokens-ne-out_of_fuel}
use hooshi_xagent.Json.Complete.{validate_tokens_iff}
use hooshi_xagent.Json.Members.{reject_null_members, require_present, reject_empty_members}
use hooshi_xagent.Json.Members.Gates.{gates_lem, NoneNull, IsPresent, value_of}
use hooshi_xagent.Base.{List, [], ◌∷◌, ℕ, err, ok, refl, ◌≡◌, ◌≢◌, ◌↔◌, All, some, true}

-- {"a": [{"b": null, "c": 1}, true], "d": ""}
abbrev inner : Members
inner =
    Members.member (b'b' ∷ []) Value.null
      (Members.member (b'c' ∷ []) (Value.number (b'1' ∷ [])) Members.no_members)

abbrev fields : Members
fields =
    Members.member (b'a' ∷ [])
      (Value.array (Items.item (Value.object inner) (Items.item (Value.bool true) Items.no_items)))
      (Members.member (b'd' ∷ []) (Value.str []) Members.no_members)

abbrev tokens : List Token
tokens = Token.open_object ∷ emit_members fields

accepted : validate_tokens Ending.at_end tokens ≡ ok tt
unfolding validate_tokens emit_members more name_of is_in head_token close_object_of close_array_of
accepted = refl

-- {"a": {"b": 1, "b": 1}}
abbrev repeated : List Token
repeated =
    Token.open_object
    ∷ Token.str (b'a' ∷ [])
    ∷ Token.open_object
    ∷ Token.str (b'b' ∷ [])
    ∷ Token.null
    ∷ Token.str (b'b' ∷ [])
    ∷ Token.null
    ∷ Token.close_object
    ∷ Token.close_object
    ∷ []

refused : validate_tokens Ending.at_end repeated ≡ err JsonError.duplicate_name
unfolding validate_tokens emit_members more name_of is_in head_token close_object_of close_array_of
refused = refl

validate_tokens-ne-out_of_fuel_example :
    validate_tokens Ending.at_end repeated ≢ err JsonError.out_of_fuel
validate_tokens-ne-out_of_fuel_example = validate_tokens-ne-out_of_fuel Ending.at_end repeated

validate_tokens_iff_example :
    (validate_tokens Ending.at_end tokens ≡ ok tt) ↔ IsStrictObject Ending.at_end tokens
validate_tokens_iff_example = validate_tokens_iff Ending.at_end tokens

abbrev names : List (List ℕ)
names = (b'a' ∷ []) ∷ []

fresh : AreFresh [] fields
unfolding AreFresh is_in
fresh = (refl, ((refl, tt, (refl, tt, tt)), (tt, tt)), (refl, tt, tt))

gates_lem_example :
    ((reject_null_members Ending.at_end tokens ≡ ok tt) ↔ NoneNull fields)
    × ((require_present Ending.at_end tokens names ≡ ok tt) ↔ All (IsPresent fields) names)
    × ((reject_empty_members Ending.at_end tokens names ≡ ok tt)
        ↔ All (λ name. value_of fields name ≢ some (Token.str [])) names)
gates_lem_example = gates_lem Ending.at_end tokens names (fields, refl, refl, fresh)
