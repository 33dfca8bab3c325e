-- ===== src/Environment/Json/RoundTrip.antt =====
-- What an environment is after its JSON is written and read.
use mathlib.Core.Option
use env_forge.Prelude.{
  ◌≡◌, refl, ap, ◌∙◌, List, [], ◌∷◌, Option, some, inl, inr, Option-cases, Text, lit, text_eq,
  arith,
}
use env_forge.Environment.{Environment}
use env_forge.Environment.Json.{
  Json, obj, TimeText, Field, id, tag, field_of, zero_env, text_items, list_value, encode_items,
  encode_list, assign, assign_key, decode_members, unmarshal, members, fields_of, marshal,
}

field_of-tag : (f : Field) → field_of (tag f) ≡ some f
unfolding field_of tag lit text_eq
field_of-tag id = refl
field_of-tag _ = refl

bind_ext :
    {A B : Type 0} (o : Option A) (f g : A → Option B)
    → ((a : A) → f a ≡ g a)
    → Option.bind o f ≡ Option.bind o g
bind_ext o f g h = ap (Option.bind o) (λ i a. h a i)

module _ (t : TimeText) where
  assigns : List (Field × Json) → Environment → Option Environment
  assigns [] e = some e
  assigns ((f, v) ∷ rest) e = Option.bind (assign t f v e) (assigns rest)

  decode_members-members :
      (l : List (Field × Json)) (e : Environment) → decode_members t (members l) e ≡ assigns l e
  unfolding decode_members assigns assign_key
  decode_members-members [] e = refl
  decode_members-members ((f, v) ∷ rest) e =
      rw field_of-tag (bind_ext (assign t f v e) _ _ (decode_members-members rest))

text_items-encode_items : (l : List Text) → text_items (encode_items l) ≡ some l
unfolding Option.bind
text_items-encode_items [] = refl
text_items-encode_items (s ∷ l) = ap (Option.map (λ l. s ∷ l)) (text_items-encode_items l)

list_value-encode_list : (l : List Text) → list_value (encode_list l) ≡ some l
list_value-encode_list [] = refl
list_value-encode_list (s ∷ l) = text_items-encode_items (s ∷ l)

assigns-fields_of :
    (t : TimeText) (e : Environment) (created updated : Text)
    → t.parse created ≡ some e.created_at
    → t.parse updated ≡ some e.updated_at
    → assigns t (fields_of created updated e) zero_env ≡ some e
unfolding assigns assign Option.bind
assigns-fields_of t e created updated h k = simp (h, k, list_value-encode_list)

pub marshal_texts :
    (t : TimeText) (e : Environment) (j : Json)
    → marshal t e ≡ some j
    → (created : Text) × (updated : Text) × (t.format e.created_at ≡ some created)
      × (t.format e.updated_at ≡ some updated)
      × (j ≡ obj (members (fields_of created updated e)))
unfolding marshal Option.bind
marshal_texts t e j h = elim (Option-cases (t.format e.created_at)) [
  | inl none_created ↦ ground (arith, none_created)
  | inr (created, p) ↦ elim (Option-cases (t.format e.updated_at)) [
    | inl none_updated ↦ ground (arith, none_updated)
    | inr (updated, q) ↦ (created, updated, p, q, ground (arith, p, q))
  ]
]

-- What json.Marshal makes of an environment, json.Unmarshal reads back as the same environment.
pub unmarshal-marshal :
    (t : TimeText) (e : Environment) (j : Json) → marshal t e ≡ some j → unmarshal t j ≡ some e
unfolding unmarshal
unmarshal-marshal t e j h =
    let (created, updated, p, q, same) = marshal_texts t e j h in
    rw (same, unmarshal)
      (decode_members-members t (fields_of created updated e) zero_env
        ∙ assigns-fields_of t e created updated (t.parse-format _ created p)
            (t.parse-format _ updated q))
