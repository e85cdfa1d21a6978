-- ===== src/Debezium/Objects.antt =====
-- The objects, fields and keys that internal/adapters/debezium/decode.go reads, as members of JSON.
use postie.Prelude.{
  String, true, false, Option, none, some, [], ◌∷◌, ◌≡◌, ◌≢◌, refl, sym, ap, ◌∙◌, eq_iff, Dict,
  lookup, insert, lookup-insert, arith, inl, inr, ◌⊎◌, Bytes, bytes_eq,
}
use postie.Prelude.Tries.{ok}
use postie.Encoding.{
  Json, null, bool, num, str, obj, Members, end, member, last_member, decode_string,
}
use postie.Protocol.{add_members}
use postie.Debezium.{decode_object, string_field, same_text}

or_else : Option Json → Option Json → Option Json
or_else none o = o
or_else (some v) o = some v

or_else-none : (o : Option Json) → or_else o none ≡ o
unfolding or_else
or_else-none none = refl
or_else-none (some v) = refl

lookup-add_members :
    (k : String) (d : Dict Json) (ms : Members)
    → lookup k (add_members d ms) ≡ or_else (last_member k ms) (lookup k d)
unfolding add_members last_member or_else
lookup-add_members k d end = refl
lookup-add_members k d (member j v rest) =
    ground (arith, eq_iff j k, lookup-add_members k (insert j v d) rest, lookup-insert j k v d)

-- An object that was decoded has the members of the text, of each key the last.
pub record IsObject (raw : Option Json) (object : Dict Json) : Type 0 where
  pub members : Members
  pub text : raw ≡ some (obj members)
  pub same : (k : String) → lookup k object ≡ last_member k members

pub decode_object-IsObject :
    (name : String) (raw : Option Json) (object : Dict Json)
    → decode_object name raw ≡ ok object
    → IsObject raw object
unfolding decode_object or_else
decode_object-IsObject name (some (obj ms)) object h = record {
  members = ms;
  text = refl;
  same = λ k.
      let e : add_members [] ms ≡ object = ground arith in
      rw (← e) (lookup-add_members k [] ms ∙ or_else-none (last_member k ms));
}
decode_object-IsObject name none object h = absurd (ground arith)
decode_object-IsObject name _ object h = absurd (ground arith)

-- A text that is not empty comes from a JSON text.
pub string_field-text :
    (object : Dict Json) (name context text : String)
    → string_field object name context ≡ ok text
    → text ≢ ""
    → (literal : Bytes) × (lookup name object ≡ some (str literal text))
unfolding string_field decode_string
string_field-text object name context text h given = field (lookup name object) refl
  where
    field :
        (o : Option Json)
        → lookup name object ≡ o
        → (literal : Bytes) × (lookup name object ≡ some (str literal text))
    field none e = absurd (ground arith)
    field (some (str l s)) e = (l, ground arith)
    field (some null) e = absurd (ground (arith, given))
    field (some _) e = absurd (ground arith)

-- Two values with one spelling.
abbrev pub Spelled : Json → Json → Type 0
Spelled a b = (a ≡ b) ⊎ ((l : Bytes) × (s : String) × (t : String) × (a ≡ str l s) × (b ≡ str l t))

bytes_eq-eq : (xs ys : Bytes) → bytes_eq xs ys ≡ true → xs ≡ ys
bytes_eq-eq [] [] h = refl
bytes_eq-eq (x ∷ xs) (y ∷ ys) h = ground (arith, bytes_eq-eq xs ys)
bytes_eq-eq _ _ h = cc

pub same_text-Spelled : (a b : Json) → same_text a b ≡ true → Spelled a b
unfolding same_text
same_text-Spelled null null h = inl refl
same_text-Spelled (bool true) (bool true) h = inl refl
same_text-Spelled (bool false) (bool false) h = inl refl
same_text-Spelled (num a) (num b) h = inl (ap num (bytes_eq-eq a b h))
same_text-Spelled (str a s) (str b t) h =
    inr (a, s, t, refl, ap (λ l. str l t) (sym (bytes_eq-eq a b h)))
same_text-Spelled _ _ h = cc
