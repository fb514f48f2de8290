-- ===== src/Json/Grammar.antt =====
-- internal/contractv1/strict_json.go: the documents that the walk is to accept, described as trees
-- and the tokens that each stands for.
use hooshi_xagent.Json.{Token, is_in, open_object, close_object, open_array, close_array}
use hooshi_xagent.Base.{List, [], ◌∷◌, ◌++◌, ℕ, Bool, false, ◌≡◌}

mutual
  pub data Value : Type 0 where
    null : Value
    bool : Bool → Value
    number str : List ℕ → Value
    array : Items → Value
    object : Members → Value

  pub data Items : Type 0 where
    no_items : Items
    item : Value → Items → Items

  pub data Members : Type 0 where
    no_members : Members
    member : List ℕ → Value → Members → Members

unfoldable mutual
  -- A value by its first token and those after it.
  pub head_token : Value → Token
  head_token null = Token.null
  head_token (bool b) = Token.bool b
  head_token (number digits) = Token.number digits
  head_token (str text) = Token.str text
  head_token (array items) = open_array
  head_token (object fields) = open_object

unfoldable mutual
  pub emit_rest : Value → List Token
  emit_rest (array items) = emit_items items
  emit_rest (object fields) = emit_members fields
  emit_rest value = []

  pub emit_items : Items → List Token
  emit_items no_items = close_array ∷ []
  emit_items (item value items) = head_token value ∷ (emit_rest value ++ emit_items items)

  pub emit_members : Members → List Token
  emit_members no_members = close_object ∷ []
  emit_members (member name value members) =
      Token.str name ∷ (head_token value ∷ (emit_rest value ++ emit_members members))

-- No object, at any depth, has a member name twice.
unfoldable mutual
  pub IsStrict : Value → Type 0
  IsStrict (array items) = AreStrict items
  IsStrict (object members) = AreFresh [] members
  IsStrict value = Unit

  pub AreStrict : Items → Type 0
  AreStrict no_items = Unit
  AreStrict (item value items) = IsStrict value × AreStrict items

  pub AreFresh : List (List ℕ) → Members → Type 0
  AreFresh seen no_members = Unit
  AreFresh seen (member name value members) =
      (is_in seen name ≡ false) × IsStrict value × AreFresh (name ∷ seen) members
