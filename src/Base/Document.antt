-- ===== src/Base/Document.antt =====
-- What the program writes as trees, and their text without blanks. Not every tree is a JSON document. The program has no such type: it appends to
-- a string. A token is a number as it is written; the text of a string is what stands between its
-- quotes.
use mathlib.Core.Path.{◌≡◌, refl, sym, ap, ◌∙◌}
use mathlib.Core.List.{[], ◌∷◌, ◌++◌, append_assoc}
use minority_viewport.Base.Lists.{Bytes}

mutual
  pub data Document : Type 0 where
    token : Bytes → Document
    string : Bytes → Document
    array : Documents → Document
    object : Fields → Document

  pub data Documents : Type 0 where
    nil : Documents
    cons : Document → Documents → Documents

  pub data Fields : Type 0 where
    end : Fields
    field : Bytes → Document → Fields → Fields

-- The text of a document, with the bytes that follow it.
unfoldable mutual
  pub print : Document → Bytes → Bytes
  print (token t) rest = t ++ rest
  print (string t) rest = b'"' ∷ (t ++ b'"' ∷ rest)
  print (array ds) rest = b'[' ∷ print_items ds (b']' ∷ rest)
  print (object fs) rest = b'{' ∷ print_fields fs (b'}' ∷ rest)

  -- A comma stands between two items, and nowhere else.
  pub print_items : Documents → Bytes → Bytes
  print_items nil rest = rest
  print_items (cons d nil) rest = print d rest
  print_items (cons d (cons e ds)) rest = print d (b',' ∷ print_items (cons e ds) rest)

  pub print_fields : Fields → Bytes → Bytes
  print_fields end rest = rest
  print_fields (field k d end) rest = b'"' ∷ (k ++ b'"' ∷ b':' ∷ print d rest)
  print_fields (field k d (field j e fs)) rest =
      b'"' ∷ (k ++ b'"' ∷ b':' ∷ print d (b',' ∷ print_fields (field j e fs) rest))

mutual
  unfolding print print_items print_fields

  print_more : (d : Document) (xs ys : Bytes) → print d (xs ++ ys) ≡ print d xs ++ ys
  print_more (token t) xs ys = rw append_assoc refl
  print_more (string t) xs ys = rw append_assoc refl
  print_more (array ds) xs ys = ap (◌∷◌ b'[') (items_more ds (b']' ∷ xs) ys)
  print_more (object fs) xs ys = ap (◌∷◌ b'{') (fields_more fs (b'}' ∷ xs) ys)

  items_more :
      (ds : Documents) (xs ys : Bytes) → print_items ds (xs ++ ys) ≡ print_items ds xs ++ ys
  items_more nil xs ys = refl
  items_more (cons d nil) xs ys = print_more d xs ys
  items_more (cons d (cons e ds)) xs ys =
      ap (λ t. print d (b',' ∷ t)) (items_more (cons e ds) xs ys)
      ∙ print_more d (b',' ∷ print_items (cons e ds) xs) ys

  fields_more :
      (fs : Fields) (xs ys : Bytes) → print_fields fs (xs ++ ys) ≡ print_fields fs xs ++ ys
  fields_more end xs ys = refl
  fields_more (field k d end) xs ys =
      ap (λ t. b'"' ∷ (k ++ b'"' ∷ b':' ∷ t)) (print_more d xs ys) ∙ rw append_assoc refl
  fields_more (field k d (field j e fs)) xs ys =
      ap (λ t. b'"' ∷ (k ++ b'"' ∷ b':' ∷ print d (b',' ∷ t))) (fields_more (field j e fs) xs ys)
      ∙ ap (λ t. b'"' ∷ (k ++ b'"' ∷ b':' ∷ t))
          (print_more d (b',' ∷ print_fields (field j e fs) xs) ys)
      ∙ rw append_assoc refl

-- What follows a document follows its text.
pub print-append : (d : Document) (rest : Bytes) → print d [] ++ rest ≡ print d rest
print-append d rest = sym (print_more d [] rest)

pub print_items-append :
    (ds : Documents) (rest : Bytes) → print_items ds [] ++ rest ≡ print_items ds rest
print_items-append ds rest = sym (items_more ds [] rest)
