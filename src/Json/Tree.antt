-- ===== src/Json/Tree.antt =====
-- JSON values as trees and their text; the scanner steps over the text of a value.
use avault.Prelude.{◌≡◌, Bool, true, false, ◌||◌, List, [], ◌∷◌, ◌++◌, ◌==◌, all, All}
use avault.Prelude.Bytes.{Bytes, codes, is_digit}
use avault.Json.Values.{is_scalar_byte}
use avault.Json.Spelling.{Piece, IsPiece, print_string}

mutual
  pub data Json : Type 0 where
    null : Json
    boolean : Bool → Json
    number : Bytes → Json
    string : List Piece → Json
    array : Items → Json
    object : Members → Json

  pub data Items : Type 0 where
    no_items : Items
    item : Json → Items → Items

  pub data Members : Type 0 where
    no_members : Members
    member : List Piece → Json → Members → Members

-- No comma before the first.
abbrev pub comma : Bool → Bytes
comma true = []
comma false = b',' ∷ []

-- The same white space stands wherever it may stand within brackets.
module _ (ws : Bytes) where
  unfoldable mutual
    pub print : Json → Bytes
    print null = codes "null"
    print (boolean true) = codes "true"
    print (boolean false) = codes "false"
    print (number text) = text
    print (string ps) = print_string ps
    print (array xs) = b'[' ∷ (print_items true xs ++ b']' ∷ [])
    print (object ms) = b'{' ∷ (print_members true ms ++ b'}' ∷ [])

    pub print_items : Bool → Items → Bytes
    print_items first no_items = ws
    print_items first (item v xs) = comma first ++ (ws ++ (print v ++ (ws ++ print_items false xs)))

    pub print_members : Bool → Members → Bytes
    print_members first no_members = ws
    print_members first (member k v ms) =
        comma first
        ++ (ws
            ++ (print_string k
                ++ (ws ++ (b':' ∷ (ws ++ (print v ++ (ws ++ print_members false ms)))))))

abbrev pub IsNumber : Bytes → Type 0
IsNumber [] = ⊥
IsNumber (c ∷ cs) = ((c == b'-' || is_digit c) ≡ true) × (all is_scalar_byte cs ≡ true)

abbrev mutual
  pub IsJson : Json → Type 0
  IsJson null = Unit
  IsJson (boolean b) = Unit
  IsJson (number text) = IsNumber text
  IsJson (string ps) = All IsPiece ps
  IsJson (array xs) = AreJson xs
  IsJson (object ms) = AreMembers ms

  pub AreJson : Items → Type 0
  AreJson no_items = Unit
  AreJson (item v xs) = IsJson v × AreJson xs

  pub AreMembers : Members → Type 0
  AreMembers no_members = Unit
  AreMembers (member k v ms) = All IsPiece k × IsJson v × AreMembers ms
