-- ===== src/Events/Values.antt =====
-- Event payloads: the dynamic values that map[string]any holds.
use ouvrier.Base.{String, List}

-- Maps and lists of texts have types of their own in the source, and so constructors of their own
-- here. A `named` map or list is one of another Go type, which the source reaches by reflection: a map
-- with textual keys, to texts, to lists of texts or to anything else, and a slice or an array.
-- `other` is a value of any other Go type, by its printed form.
mutual
  pub data Value : Type 0 where
    text : String → Value
    object : Payload → Value
    array : Values → Value
    text_map : List (String × String) → Value
    texts_map : List (String × List String) → Value
    texts : List String → Value
    bytes : String → Value
    named_text_map : List (String × String) → Value
    named_texts_map : List (String × List String) → Value
    named_object : Payload → Value
    named_array : Values → Value
    other : String → Value

  pub data Values : Type 0 where
    nil : Values
    cons : Value → Values → Values

  pub data Payload : Type 0 where
    end : Payload
    field : String → Value → Payload → Payload
