-- ===== src/Data/Commas.antt =====
-- The loops of Data/*.cpp and Algorithms/MinorityViewportAlgo.cpp that write a list: each compares
-- its iterator or index with the last one, and puts a comma behind all elements but the last.
use minority_viewport.Base.{List, [], ◌∷◌, ◌++◌, map, Bytes, codes, ◌≡◌, refl, ◌∙◌, ap}
use minority_viewport.Base.Document.{
  Document, Documents, nil, cons, print, print_items, print-append,
}

unfoldable pub comma_list : List Bytes → Bytes
comma_list [] = []
comma_list (x ∷ []) = x
comma_list (x ∷ y ∷ xs) = x ++ (codes "," ++ comma_list (y ∷ xs))

module _ {ℓ} {A : Type ℓ} (f : A → Document) where
  abbrev pub documents : List A → Documents
  documents [] = nil
  documents (x ∷ xs) = cons (f x) (documents xs)

  pub comma_list-print :
      (xs : List A) → comma_list (map (λ x. print (f x) []) xs) ≡ print_items (documents xs) []
  unfolding comma_list print_items
  comma_list-print [] = refl
  comma_list-print (x ∷ []) = refl
  comma_list-print (x ∷ y ∷ xs) =
      ap (λ t. print (f x) [] ++ b',' ∷ t) (comma_list-print (y ∷ xs)) ∙ print-append (f x) _
